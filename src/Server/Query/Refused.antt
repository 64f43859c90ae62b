-- ===== src/Server/Query/Refused.antt =====
-- Requests that are refused change nothing.
use le_forum.Common.{ℕ, ◌≡◌, ◌≢◌, refl, sym, [], ◌∷◌, ◌++◌, Option, none, some, Outcome, ok}
use le_forum.Common.Command.{Run}
use le_forum.Common.Ends.{ends_done, ends_exit, ends_fault, ends_hang, Ends-lift}
use le_forum.Clib.Strings.{Bytes}
use le_forum.Conf.{LeStatus, lestatus_ok, lestatus_isyn}
use le_forum.Protocol.{Word, gthr, cthr, fthr, cmsg, meta, live}
use le_forum.Server.{Server, get_lethread_count, get_version}
use le_forum.Server.Response.{Junk, meta_response}
use le_forum.Server.Query.{
  LeCommandResult, cmd_meta, cmd_alive, process, query_process, find_cmd, cmds, result_of,
  status_result,
}
use le_forum.Server.Query.Handlers.{
  Unchanged, Refuses, same, cmd_lethread_get-Refuses, cmd_lethread_find-Refuses,
  cmd_lemessage_create-Refuses, cmd_lethread_create-Refuses,
}

module _ (s : Server) where
  process-Refuses :
      (junk : Junk) (w : Word) (p : Bytes) (size : ℕ) → Refuses s (process junk w p size s)
  unfolding process cmd_meta cmd_alive
  process-Refuses junk gthr p size = cmd_lethread_get-Refuses s junk p size
  process-Refuses junk cthr p size = cmd_lethread_create-Refuses s junk p size
  process-Refuses junk fthr p size = cmd_lethread_find-Refuses s p size
  process-Refuses junk cmsg p size = cmd_lemessage_create-Refuses s p size
  process-Refuses junk meta p size =
      Ends-lift s (meta_response (get_lethread_count s) (get_version ++ (0 ∷ []))) _
        (λ response _. ends_done (some response) s tt)
  process-Refuses junk live p size = ends_done none s tt
  process-Refuses junk _ p size = ends_exit lestatus_isyn s (same s)

  -- For every request, whatever its bytes, that `query_process` answers with a status other than
  -- OK, on any server: there is no response, and the server is the one before, or what the lookup
  -- of a thread that it has left, which loads messages and an author from disk. So no thread is
  -- created, no message posted, no save queued and no id given out.
  pub refused_lem :
      (junk : Junk) (raw : Bytes) (size : ℕ) (result : LeCommandResult) (s' : Server)
      → query_process junk (some raw) size s ≡ ok (result, s')
      → result.status ≢ lestatus_ok
      → (result.response ≡ none) × (result.size ≡ 0) × Unchanged s s'
  unfolding query_process
  refused_lem junk raw size result s' h bad = elim_cmd (find_cmd cmds raw) refl
    where
      refused :
          (c : LeStatus) (u : Server)
          → Unchanged s u
          → ◌≡◌ {A = Outcome (LeCommandResult × Server)} (ok (status_result c, u)) (ok (result, s'))
          → (result.response ≡ none) × (result.size ≡ 0) × Unchanged s s'
      refused c u g e =
          let p : status_result c ≡ result = cc in
          let q : u ≡ s' = cc in rw (← p, ← q) (refl, refl, g)

      elim_result :
          (r : Run LeStatus Server (Option Bytes))
          → Refuses s r
          → result_of r ≡ ok (result, s')
          → (result.response ≡ none) × (result.size ≡ 0) × Unchanged s s'
      elim_result _ (ends_done a u g) e =
          let p : lestatus_ok ≡ result.status = cc in absurd (bad (sym p))
      elim_result _ (ends_exit c u g) e = refused c u g e
      elim_result _ ends_fault e = cc
      elim_result _ ends_hang e = cc

      elim_cmd :
          (o : Outcome (Option Word))
          → find_cmd cmds raw ≡ o
          → (result.response ≡ none) × (result.size ≡ 0) × Unchanged s s'
      elim_cmd (ok none) e = refused lestatus_isyn s (same s) (rw (query_process, e) at h)
      elim_cmd (ok (some w)) e =
          elim_result _ (process-Refuses junk w _ _) (rw (query_process, e) at h)
      elim_cmd Outcome.fault e =
          let h1 : Outcome.fault ≡ ok (result, s') = rw (query_process, e) at h in cc
      elim_cmd Outcome.hang e =
          let h1 : Outcome.hang ≡ ok (result, s') = rw (query_process, e) at h in cc
