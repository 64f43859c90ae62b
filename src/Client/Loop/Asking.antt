-- ===== src/Client/Loop/Asking.antt =====
-- A query is answered: the request goes out, the answer comes back, and its parser looks at it.
use le_forum.Common.{
  List-cases, inl, inr, ℕ, zero, suc, ◌+◌, ◌-◌, ◌<◌, ◌^◌, ◌≡◌, refl, ap, [], ◌∷◌, ◌++◌, arith,
  Option, none, some, true, false, ◌==◌, leb, ok, length, take, append-nil, take_of_le,
}
use le_forum.Common.Command.{done, exit}
use le_forum.Clib.Strings.{Bytes}
use le_forum.Clib.Words.{le_bytes, le_value, le_value-le_bytes}
use le_forum.Conf.{LeStatus}
use le_forum.Security.{Entropy}
use le_forum.Communication.{Wire, arrived, received, recv, recv_loop, s_recv}
use le_forum.Server.Connection.{frame}
use le_forum.Client.State.{LeClient}
use le_forum.Client.Loop.{
  ParseResponse, Parsed, parse_response, receive_response, answer_query, ask, query_create,
}

recv_loop_none : (fuel : ℕ) (w : Wire) → recv_loop fuel 0 w ≡ ([], w)
unfolding recv_loop
recv_loop_none zero w = refl
recv_loop_none (suc fuel) w = refl

-- A packet that arrives in one piece.
pub s_recv_whole :
    (b : ℕ) (bs : Bytes) (w : Wire) → s_recv (suc (length bs)) (arrived (b ∷ bs) ∷ w) ≡ (b ∷ bs, w)
unfolding s_recv recv_loop recv
s_recv_whole b bs w =
    let whole : take (length bs) bs ≡ bs = take_of_le (length bs) bs (omega arith) in
    let fits : leb (suc (length bs)) (suc (length bs)) ≡ true = ground arith in
    let nothing : suc (length bs) - suc (length bs) ≡ 0 = omega arith in
    let nz : (suc (length bs) == 0) ≡ false = ground arith in
    rw (whole, fits, nothing, nz, recv_loop_none (length bs) w, append-nil)

-- The size in front of a packet that arrives with it.
pub recv-frame :
    (b : ℕ) (bs : Bytes)
    → recv 8 (arrived (frame (b ∷ bs)) ∷ [])
      ≡ (received (le_bytes 8 (suc (length bs))), arrived (b ∷ bs) ∷ [])
unfolding recv le_bytes
recv-frame b bs = let more : leb (length (frame (b ∷ bs))) 8 ≡ false = ground arith in rw more

module _ {P : Type 0} (serve : Bytes → P → Option (Wire × P)) (c : LeClient P) (p' : P)
    (request answer : Bytes) (quiet : c.wire ≡ [])
    (served : serve (frame request) c.peer ≡ some (arrived (frame answer) ∷ [], p'))
    (there : 0 < length answer) (fits : length answer < 2 ^ 64) where
  received_response :
      receive_response serve
        (record c { wire = c.wire ++ (arrived (frame answer) ∷ []); peer = p' })
      ≡ ok (answer ++ (0 ∷ []), length answer, record c { wire = []; peer = p' })
  unfolding receive_response
  received_response = elim (List-cases answer) [
    | inl e ↦ absurd (omega (arith, there, ap (λ (a : Bytes). length a) e))
    | inr (b, bs, e) ↦
        let size : le_value 8 (le_bytes 8 (suc (length bs))) ≡ ok (suc (length bs)) =
          rw append-nil at (le_value-le_bytes 8 (suc (length bs)) [] (rw e at fits)) in
        let one : suc (length bs) + 1 - suc (length bs) ≡ 1 = omega arith in
        rw (e, quiet, recv-frame b bs, size, s_recv_whole b bs [], one)
  ]

  module _ (parser : ParseResponse) where
    -- The parser accepts the answer.
    pub ask_lem :
        {e' : Entropy} {a : Parsed}
        → c.connected ≡ true
        → parse_response parser (answer ++ (0 ∷ [])) (length answer) c.entropy ≡ done a e'
        → ask serve parser request c
          ≡ done (some a) (record c { wire = []; peer = p'; entropy = e' })
    unfolding ask answer_query query_create
    ask_lem on parsed = rw (ask, answer_query, served, received_response, parsed, on)

    -- The parser leaves early, which the command does not notice.
    pub ask-exit :
        {e' : Entropy} {status : LeStatus}
        → c.connected ≡ true
        → parse_response parser (answer ++ (0 ∷ [])) (length answer) c.entropy ≡ exit status e'
        → ask serve parser request c ≡ done none (record c { wire = []; peer = p'; entropy = e' })
    unfolding ask answer_query query_create
    ask-exit on parsed = rw (ask, answer_query, served, received_response, parsed, on)
