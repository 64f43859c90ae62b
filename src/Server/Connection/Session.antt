-- ===== src/Server/Connection/Session.antt =====
-- A client's requests are answered one after another.
use le_forum.Common.{
  ℕ, suc, ◌≤◌, ◌<◌, ◌^◌, ◌≡◌, refl, ◌∙◌, List, [], ◌∷◌, ◌++◌, arith, true, false, ◌==◌, le→ltb, ok,
  some, length, drop, replicate, append_assoc, append-nil,
}
use le_forum.Clib.Strings.{Bytes}
use le_forum.Clib.Words.{le_bytes, le_value, le_value-le_bytes}
use le_forum.Communication.{Wire, received, recv, s_recv, max_packet_size, recv_loop}
use le_forum.Server.{Server}
use le_forum.Server.Response.{Junk}
use le_forum.Server.Query.{LeCommandResult, query_process}
use le_forum.Server.Connection.{
  Connection, reply, recv_size, answer_round, handle_round, handle_client,
}

-- The requests arrive on the wire, each of an allowed size: its size in one piece, and the request
-- in any pieces; then the client closes the connection.
pub data Arrive : Wire → List Bytes → Type 0 where
  over : Arrive [] []
  request :
      {w w' w'' : Wire} (r : Bytes) {rs : List Bytes}
      → 0 < length r
      → length r ≤ max_packet_size
      → recv 8 w ≡ (received (le_bytes 8 (length r)), w')
      → s_recv (length r) w' ≡ (r, w'')
      → Arrive w'' rs
      → Arrive w (r ∷ rs)

-- `query_process` takes the server through the requests, whatever the buffer holds behind them, and
-- the replies are `out`.
pub data Answered (junk : Junk) : Server → List Bytes → Bytes → Server → Type 0 where
  none_left : {s : Server} → Answered junk s [] [] s
  answered :
      {s s' s'' : Server} (r : Bytes) (result : LeCommandResult) {rs : List Bytes} {out : Bytes}
      → ((behind : Bytes)
          → query_process junk (some (r ++ (0 ∷ behind))) (length r) s ≡ ok (result, s'))
      → Answered junk s' rs out s''
      → Answered junk s (r ∷ rs) (reply result ++ out) s''

recv_size-over : recv_size [] ≡ ok (0, [])
unfolding recv_size recv le_value
recv_size-over = refl

recv_size_lem :
    (n : ℕ) (w w' : Wire)
    → n < 2 ^ 64
    → recv 8 w ≡ (received (le_bytes 8 n), w')
    → recv_size w ≡ ok (n, w')
unfolding recv_size
recv_size_lem n w w' fits e =
    let small : n < 256 ^ 8 = fits in rw (recv_size, e, le_value-le_bytes 8 n (replicate 8 0) small)

module _ (junk : Junk) where
  round_over :
      (sent buffer : Bytes) (s : Server)
      → handle_round junk (record { wire = []; sent = sent; buffer = buffer }) s
        ≡ ok (false, record { wire = []; sent = sent; buffer = buffer }, s)
  unfolding handle_round answer_round s_recv recv_loop
  round_over sent buffer s = rw (recv_size-over)

  pub round_request :
      (r : Bytes) (w w' w'' : Wire) (sent buffer : Bytes) (s s' : Server) (result : LeCommandResult)
      → 0 < length r
      → length r ≤ max_packet_size
      → recv 8 w ≡ (received (le_bytes 8 (length r)), w')
      → s_recv (length r) w' ≡ (r, w'')
      → ((behind : Bytes)
          → query_process junk (some (r ++ (0 ∷ behind))) (length r) s ≡ ok (result, s'))
      → (buffer' : Bytes) × (handle_round junk (record { wire = w; sent = sent; buffer = buffer }) s
          ≡ ok (true, record { wire = w''; sent = sent ++ reply result; buffer = buffer' }, s'))
  unfolding handle_round answer_round
  round_request r w w' w'' sent buffer s s' result pos small e1 e2 process =
      let nz : (length r == 0) ≡ false = ground arith in
      let h = recv_size_lem (length r) w w' (omega arith) e1 in
      (
        replicate (suc (length r)) 0 ++ drop (suc (length r)) buffer,
        rw (h, le→ltb small, e2, nz, process (drop (suc (length r)) buffer)),
      )

  -- For requests that arrive on the wire, each of 1 byte to 1 MiB, its size in one piece and the
  -- request in any pieces, and that `query_process` takes the server through from `s` to `s'` with
  -- the replies `out`, whatever stands behind them in the buffer: `handle_client` ends without a
  -- fault, has read everything, has sent `out` and nothing else, and leaves the server as `s'`.
  pub session :
      {w : Wire} {rs : List Bytes} {s s' : Server} {out : Bytes} (sent buffer : Bytes)
      → Arrive w rs
      → Answered junk s rs out s'
      → (c : Connection) × (handle_client
            (suc (length rs))
            junk
            (record { wire = w; sent = sent; buffer = buffer })
            s
          ≡ ok (c, s'))
        × (c.wire ≡ [])
        × (c.sent ≡ sent ++ out)
  unfolding handle_client
  session sent buffer over none_left = (
    record { wire = []; sent = sent; buffer = buffer },
    rw (round_over sent buffer _),
    refl,
    rw append-nil,
  )
  session {w} {s} sent buffer (request {w'} {w''} r {rs} pos small e1 e2 more)
        (answered {s'} r2 result {out} process rest) =
      let (buffer', one) =
        round_request r w w' w'' sent buffer s s' result pos small e1 e2 process in
      let (c, all, empty, says) = session (sent ++ reply result) buffer' more rest in
      (c, rw one all, empty, says ∙ append_assoc sent (reply result) out)
