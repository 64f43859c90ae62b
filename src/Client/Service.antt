-- ===== src/Client/Service.antt =====
-- The client and the server together: what the commands of src/client/client.c do where `handle_client`
-- of src/server/server.c is behind the socket. Each request arrives in one piece, and so does each
-- answer.
pub mod Posting
pub mod Reading
pub mod Finding
use le_forum.Common.{
  ℕ, zero, suc, ◌+◌, ◌≤◌, ◌<◌, ◌≡◌, refl, ap, List, [], ◌∷◌, ◌++◌, arith, Option, none, some, Bool,
  true, false, List-cases, inl, inr, Outcome, ok, length,
}
use le_forum.Clib.Strings.{Bytes}
use le_forum.Communication.{Wire, arrived, max_packet_size}
use le_forum.Server.{Server}
use le_forum.Server.Response.{Junk}
use le_forum.Server.Query.{LeCommandResult, query_process}
use le_forum.Server.Connection.{Connection, frame, reply, handle_round}
use le_forum.Server.Connection.Session.{round_request}
use le_forum.Client.Loop.Asking.{recv-frame, s_recv_whole}

abbrev pub Peer : Type 0
Peer = Connection × Server

abbrev pub delivered : Outcome (Bool × Connection × Server) → Option (Wire × Peer)
delivered (ok (more, c, s)) = some (arrived c.sent ∷ [], (c, s))
delivered Outcome.fault = none
delivered Outcome.hang = none

-- A round of `handle_client` on what the client sends.
unfoldable pub served_by : Junk → Bytes → Peer → Option (Wire × Peer)
served_by junk bytes (c, s) =
    delivered (handle_round junk (record c { wire = arrived bytes ∷ []; sent = [] }) s)

pub served_by_lem :
    (junk : Junk) (c : Connection) (s s' : Server) (r : Bytes) (result : LeCommandResult)
    → 0 < length r
    → length r ≤ max_packet_size
    → ((behind : Bytes)
        → query_process junk (some (r ++ (0 ∷ behind))) (length r) s ≡ ok (result, s'))
    → (c' : Connection) × (served_by junk (frame r) (c, s)
        ≡ some (arrived (reply result) ∷ [], (c', s')))
unfolding served_by
served_by_lem junk c s s' [] result there small process = absurd (omega arith)
served_by_lem junk c s s' (b ∷ bs) result there small process =
    let (buffer, e) =
      round_request junk (b ∷ bs) (arrived (frame (b ∷ bs)) ∷ []) (arrived (b ∷ bs) ∷ []) [] []
        c.buffer s s' result there small (recv-frame b bs) (s_recv_whole b bs []) process in
    (record { wire = []; sent = reply result; buffer = buffer }, ap delivered e)
