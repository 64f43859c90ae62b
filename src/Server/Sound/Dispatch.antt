-- ===== src/Server/Sound/Dispatch.antt =====
-- Any request, through query_process, from a sound state of the server.
use le_forum.Common.{ℕ, ◌+◌, ◌<◌, ◌≡◌, refl, arith, Option, none, some, not, ◌||◌, ltb, Outcome, ok}
use le_forum.Common.Command.{Run}
use le_forum.Common.Ends.{
  ends_done, ends_exit, ends_fault, ends_hang, Ends-bind, Ends-step, Ends-weaken,
}
use le_forum.Clib.Strings.{Bytes}
use le_forum.Clib.Words.{u64_mod}
use le_forum.Conf.{LeStatus, lestatus_isyn, lestatus_idat, max_topic_size, min_topic_size}
use le_forum.Protocol.{Word, gthr, cthr, fthr, cmsg, meta, live, tpcsz, tpc}
use le_forum.Server.{Server, s_lethread_save, s_leauthor_save}
use le_forum.Server.Response.{Junk}
use le_forum.Server.Query.{
  cmd_lethread_create, process, query_process, find_cmd, cmds, result_of, LeCommandResult,
  status_result,
}
use le_forum.Server.Sound.{IsSound, Reaches}
use le_forum.Server.Sound.Lookup.{Reaches-refl}
use le_forum.Server.Sound.Effects.{
  Reaches-trans, Reaches-le, Stays-require, Stays-expect, Stays-read_int,
}
use le_forum.Server.Sound.Creation.{created-Reaches}
use le_forum.Server.Sound.Requests.{
  Safe, cmd_lethread_get-Safe, cmd_lethread_find-Safe, cmd_meta-Safe, cmd_alive-Safe,
  cmd_lemessage_create-Safe, spend_random-Ends, create_lethread-Ends, create_author-Ends,
  Stays-answer_cthr,
}

module _ (s : Server) (sound : IsSound s) (room : s.next_lethread_id_value + 1 < u64_mod) where
  cmd_lethread_create-Safe :
      (junk : Junk) (p : Bytes) (size : ℕ) → Safe s (cmd_lethread_create junk p size s)
  unfolding cmd_lethread_create
  cmd_lethread_create-Safe junk p size =
      let at_start : Reaches 1 s s = Reaches-le (omega arith) (Reaches-refl s sound) in
      Ends-step s _ _ (Stays-require s (not (ltb size 16)) lestatus_isyn) at_start (λ _.
        Ends-step s _ _ (Stays-expect s lestatus_isyn tpcsz p) at_start (λ p.
          Ends-step s _ _ (Stays-read_int s 8 p) at_start (λ n.
            Ends-step s _ _
              (Stays-require s (not (ltb max_topic_size n.0 || ltb n.0 min_topic_size))
                lestatus_idat)
              at_start
              (λ _. Ends-step s _ _ (Stays-expect s lestatus_isyn tpc n.1) at_start (λ p.
                Ends-bind _ _ (spend_random-Ends s sound) (λ _ u h.
                  let more : u.next_lethread_id_value + 1 < u64_mod =
                    omega (arith, h.moves.soon, room) in
                  Ends-bind _ _ (create_lethread-Ends u p) (λ pt v created.
                    Ends-bind _ _ (create_author-Ends v pt.0 pt.1) (λ t w (a, e, made, same).
                      let x = s_leauthor_save pt.0 (s_lethread_save pt.0 w) in
                      let end : Reaches 1 s x = rw (← same) (
                        Reaches-trans h (
                          created-Reaches u v p pt.0 pt.1 t a e h.moves.sound more created made)) in
                      Ends-weaken (λ _ y still. rw still end) (λ y still. rw still end)
                        (Stays-answer_cthr junk x t)))))))))

  process-Safe : (junk : Junk) (w : Word) (p : Bytes) (size : ℕ) → Safe s (process junk w p size s)
  unfolding process
  process-Safe junk gthr p size = cmd_lethread_get-Safe s sound junk p size
  process-Safe junk cthr p size = cmd_lethread_create-Safe junk p size
  process-Safe junk fthr p size = cmd_lethread_find-Safe s sound p size
  process-Safe junk cmsg p size = cmd_lemessage_create-Safe s sound p size
  process-Safe junk meta p size = cmd_meta-Safe s sound p size
  process-Safe junk live p size = cmd_alive-Safe s sound p size
  process-Safe junk _ p size =
      ends_exit lestatus_isyn s (Reaches-le (omega arith) (Reaches-refl s sound))

  pub query_process-Reaches :
      (junk : Junk) (raw : Bytes) (size : ℕ) (result : LeCommandResult) (s' : Server)
      → query_process junk (some raw) size s ≡ ok (result, s')
      → Reaches 1 s s'
  unfolding query_process
  query_process-Reaches junk raw size result s' h = elim_cmd (find_cmd cmds raw) refl
    where
      same_state :
          (r : LeCommandResult)
          → ◌≡◌ {A = Outcome (LeCommandResult × Server)} (ok (r, s)) (ok (result, s'))
          → Reaches 1 s s'
      same_state r e =
          let p : s ≡ s' = cc in rw (← p) (Reaches-le (omega arith) (Reaches-refl s sound))

      elim_result :
          (r : Run LeStatus Server (Option Bytes))
          → Safe s r
          → result_of r ≡ ok (result, s')
          → Reaches 1 s s'
      elim_result _ (ends_done a u g) e = let p : u ≡ s' = cc in rw (← p) g
      elim_result _ (ends_exit c u g) e = let p : u ≡ s' = cc in rw (← p) g
      elim_result _ ends_fault e = cc
      elim_result _ ends_hang e = cc

      elim_cmd : (o : Outcome (Option Word)) → find_cmd cmds raw ≡ o → Reaches 1 s s'
      elim_cmd (ok none) e = same_state (status_result lestatus_isyn) (rw (query_process, e) at h)
      elim_cmd (ok (some w)) e =
          elim_result _ (process-Safe junk w _ _) (rw (query_process, e) at h)
      elim_cmd Outcome.fault e =
          let h1 : Outcome.fault ≡ ok (result, s') = rw (query_process, e) at h in cc
      elim_cmd Outcome.hang e =
          let h1 : Outcome.hang ≡ ok (result, s') = rw (query_process, e) at h in cc
