-- ===== src/Server/Connection.antt =====
-- One client of the server: handle_client of src/server/server.c. What the server sends is taken whole
-- by the socket; the flag that ends the program is not set meanwhile.
pub mod Session
use le_forum.Common.{
  ℕ, zero, suc, List, [], ◌∷◌, ◌++◌, Option, none, some, Bool, true, false, ltb, ◌==◌,
  if◌then◌else◌, Outcome, ok, hang, length, drop, replicate,
}
use le_forum.Common.Result.{◌>>=◌}
use le_forum.Clib.Strings.{Bytes, codes}
use le_forum.Clib.Words.{le_bytes, le_value}
use le_forum.Conf.{get_lestatus_string_repr}
use le_forum.Communication.{Wire, Received, received, closed, failed, recv, s_recv, max_packet_size}
use le_forum.Server.{Server}
use le_forum.Server.Response.{Junk}
use le_forum.Server.Query.{LeCommandResult, query_process}

-- The socket, with all that was sent to the client, and the receive buffer `cl_data`.
pub record Connection : Type 0 where
  pub wire : Wire
  pub sent : Bytes
  pub buffer : Bytes

-- A size and as many bytes.
abbrev pub frame : Bytes → Bytes
frame bytes = le_bytes 8 (length bytes) ++ bytes

-- What is sent for the result of a query.
unfoldable pub reply : LeCommandResult → Bytes
reply result =
    if result.size == 0
    then frame (get_lestatus_string_repr result.status)
    else elim result.response [ none ↦ frame (codes "ERR") | some bytes ↦ frame bytes ]

abbrev pub bytes_of : Received → Bytes
bytes_of (received bs) = bs
bytes_of closed = []
bytes_of failed = []

-- `recv(fd, &size, sizeof(size), 0)` into a size that is 0: what does not arrive stays 0.
unfoldable pub recv_size : Wire → Outcome (ℕ × Wire)
recv_size w = do
  let (r, w) = recv 8 w
  size ← le_value 8 (bytes_of r ++ replicate 8 0)
  ok (size, w)

-- A round of the loop once the size is known; `false` leaves the loop.
unfoldable pub answer_round : Junk → ℕ → Connection → Server → Outcome (Bool × Connection × Server)
answer_round junk expected c s =
    let (cl_data, w) = s_recv expected c.wire in
    let rest = drop (suc (length cl_data)) c.buffer in
    if length cl_data == 0 then ok (false, record c { wire = w }, s) else (do
      (result, s) ← query_process junk (some (cl_data ++ (0 ∷ rest))) (length cl_data) s
      ok (
        true,
        record {
          wire = w;
          sent = c.sent ++ reply result;
          buffer = replicate (suc (length cl_data)) 0 ++ rest;
        },
        s,
      ))

unfoldable pub handle_round : Junk → Connection → Server → Outcome (Bool × Connection × Server)
handle_round junk c s = do
  (expected, w) ← recv_size c.wire
  let c = record c { wire = w }
  if ltb max_packet_size expected then ok (false, c, s) else answer_round junk expected c s

abbrev pub go_on :
    (Connection → Server → Outcome (Connection × Server))
    → Outcome (Bool × Connection × Server)
    → Outcome (Connection × Server)
go_on rest (ok (true, c, s)) = rest c s
go_on rest (ok (false, c, s)) = ok (c, s)
go_on rest Outcome.fault = Outcome.fault
go_on rest Outcome.hang = Outcome.hang

-- The loop, with a bound on its rounds.
unfoldable pub handle_client : ℕ → Junk → Connection → Server → Outcome (Connection × Server)
handle_client zero junk c s = hang
handle_client (suc fuel) junk c s = go_on (handle_client fuel junk) (handle_round junk c s)
