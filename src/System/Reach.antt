-- ===== src/System/Reach.antt =====
-- What holds of every state that the server reaches, whatever its clients send.
use le_forum.Common.{
  ℕ, suc, ◌+◌, ◌<◌, ◌≡◌, arith, ◌∷◌, ◌++◌, some, Bool, false, ok, Outcome, length, ltb, ◌==◌, drop,
  Bool-cases, inl, inr,
}
use le_forum.Common.Result.{>>=-eq-ok}
use le_forum.Communication.{s_recv, max_packet_size}
use le_forum.Clib.Words.{u64_mod}
use le_forum.Server.{Server}
use le_forum.Server.Response.{Junk}
use le_forum.Server.Query.{query_process}
use le_forum.Server.Connection.{Connection, handle_round, answer_round, recv_size}
use le_forum.Server.Sound.{IsSound, Reaches}
use le_forum.Server.Sound.Lookup.{Reaches-refl}
use le_forum.Server.Sound.Effects.{Reaches-trans, Reaches-le}
use le_forum.Server.Sound.Dispatch.{query_process-Reaches}
use le_forum.Server.Sound.Savers.{
  lethread_query_manage-Reaches, leauthor_query_manage-Reaches, lemessage_query_manage-Reaches,
}
use le_forum.System.{
  Saver, lethread_saver, lemessage_saver, leauthor_saver, save_round, Serves, finish, answer, save,
}

module _ (s : Server) (sound : IsSound s) (room : s.next_lethread_id_value + 1 < u64_mod) where
  same_state :
      (go go' : Bool) (c c' : Connection) (s' : Server)
      → ◌≡◌ {A = Outcome (Bool × Connection × Server)} (ok (go, c, s)) (ok (go', c', s'))
      → Reaches 1 s s'
  same_state go go' c c' s' h =
      let p : s ≡ s' = cc in rw (← p) (Reaches-le (omega arith) (Reaches-refl s sound))

  answer_round-Reaches :
      (junk : Junk) (expected : ℕ) (c c' : Connection) (go : Bool) (s' : Server)
      → answer_round junk expected c s ≡ ok (go, c', s')
      → Reaches 1 s s'
  unfolding answer_round
  answer_round-Reaches junk expected c c' go s' h =
      let (cl_data, w) = s_recv expected c.wire in
      elim (Bool-cases (length cl_data == 0)) [
        | inl b ↦ same_state false go (record c { wire = w }) c' s' (rw (answer_round, b) at h)
        | inr b ↦
            let ((result, u), e, h1) =
              >>=-eq-ok
                (query_process junk (some (cl_data ++ (0 ∷ drop (suc (length cl_data)) c.buffer)))
                  (length cl_data) s)
                _ (rw (answer_round, b) at h) in
            let p : u ≡ s' = cc in rw (← p) (query_process-Reaches s sound room junk _ _ result u e)
      ]

  handle_round-Reaches :
      (junk : Junk) (c c' : Connection) (go : Bool) (s' : Server)
      → handle_round junk c s ≡ ok (go, c', s')
      → Reaches 1 s s'
  unfolding handle_round
  handle_round-Reaches junk c c' go s' h =
      let ((expected, w), e, h1) = >>=-eq-ok (recv_size c.wire) _ h in
      let c1 = record c { wire = w } in
      elim (Bool-cases (ltb max_packet_size expected)) [
        | inl b ↦ same_state false go c1 c' s' (rw b at h1)
        | inr b ↦ answer_round-Reaches junk expected c1 c' go s' (rw b at h1)
      ]

-- Every thread that saves succeeds.
pub save_round-Reaches :
    (saver : Saver) (s : Server)
    → IsSound s
    → (s' : Server) × (save_round saver s ≡ ok s') × Reaches 0 s s'
save_round-Reaches lethread_saver s sound = lethread_query_manage-Reaches s sound
save_round-Reaches lemessage_saver s sound = lemessage_query_manage-Reaches s sound
save_round-Reaches leauthor_saver s sound = leauthor_query_manage-Reaches s sound

-- From a sound state (`IsSound`) whose next id leaves room for `n` more below 2 ^ 64, after any
-- sequence of `n` requests of any bytes and any number of rounds of the saving threads, where a
-- request or a round is one step and a request that is a fault is no step: the state reached is
-- sound, so ids are distinct, below the next id, which is the one stored, and every queued save is
-- of a thread or a message that is there; every thread is still at its place with its id, topic and
-- first message id, its messages with more behind them, and its author, if it was known; the next
-- id grew by `n` at most; and if every thread stood in its files or was queued to be saved
-- (`IsSynced`), so it does still.
pub Serves-Reaches :
    {n : ℕ} {s s' : Server}
    → IsSound s
    → s.next_lethread_id_value + n < u64_mod
    → Serves n s s'
    → Reaches n s s'
Serves-Reaches {s} sound room finish = Reaches-refl s sound
Serves-Reaches {s} sound room (answer {n} {s'} junk go c c' e rest) =
    let one = handle_round-Reaches s sound (omega arith) junk c c' go s' e in
    Reaches-le (omega arith)
      (Reaches-trans one (Serves-Reaches one.moves.sound (omega (arith, one.moves.soon)) rest))
Serves-Reaches {s} sound room (save {s'} saver e rest) =
    let (u, e', r) = save_round-Reaches saver s sound in
    let p : u ≡ s' = cc in
    let one : Reaches 0 s s' = rw (← p) r in
    Reaches-le (omega arith)
      (Reaches-trans one (Serves-Reaches one.moves.sound (omega (arith, one.moves.soon)) rest))
