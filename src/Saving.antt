-- ===== src/Saving.antt =====
-- The server as a whole: the handlers put saves in the queues while the threads of src/server/server.c
-- serve them. A step is one of the handlers' changes or one round of a thread, in any order.
pub mod Log
pub mod Reach
use le_forum.Common.{ℕ, ◌+◌, ◌≤◌, ◌≡◌, List, [], ◌∷◌, ◌++◌, zero, suc, Option, Outcome, ok, length}
use le_forum.Common.Result.{◌>>=◌}
use le_forum.Common.Command.{done}
use le_forum.Clib.Strings.{Bytes, IsText}
use le_forum.Conf.{min_message_size, max_message_size}
use le_forum.Forum.{LeThread, LeMessage}
use le_forum.Forum.Posting.{new_lemessage}
use le_forum.Server.{
  Server, lethread_get_by_id, s_lethread_create, lethread_query_manage, lemessage_query_manage,
  leauthor_query_manage,
}
use le_forum.Server.Query.{post_message}

-- `Step s ms s'`: the server goes from `s` to `s'`, and the messages `ms` are posted meanwhile.
pub data Step : Server → List LeMessage → Server → Type 0 where
  posted :
      {s s' : Server} (place : ℕ) (t : LeThread) (text : Bytes) (flag : ℕ)
      → IsText text
      → min_message_size ≤ length text
      → length text ≤ max_message_size
      → post_message place t (text ++ (0 ∷ [])) flag s ≡ done tt s'
      → Step s (new_lemessage t (text ++ (0 ∷ [])) flag ∷ []) s'
  found :
      {s s' : Server} {r : Option (ℕ × LeThread)} (id : ℕ)
      → lethread_get_by_id id s ≡ ok (r, s')
      → Step s [] s'
  created :
      {s s' : Server} {place : ℕ} {t : LeThread} (topic : Bytes)
      → s_lethread_create topic s ≡ ok (place, t, s')
      → Step s [] s'
  lethread_saved : {s s' : Server} → lethread_query_manage s ≡ ok s' → Step s [] s'
  lemessage_saved : {s s' : Server} → lemessage_query_manage s ≡ ok s' → Step s [] s'
  leauthor_saved : {s s' : Server} → leauthor_query_manage s ≡ ok s' → Step s [] s'

-- A sequence of steps, with all messages that are posted, in order.
pub data Steps : Server → List LeMessage → Server → Type 0 where
  stop : {s : Server} → Steps s [] s
  step :
      {s s' s'' : Server} {ms ns : List LeMessage}
      → Step s ms s'
      → Steps s' ns s''
      → Steps s (ms ++ ns) s''

-- `n` rounds of the thread that saves messages.
unfoldable pub rounds : ℕ → Server → Outcome Server
rounds zero s = ok s
rounds (suc n) s = do s ← lemessage_query_manage s; rounds n s
