-- ===== src/System.antt =====
-- The server with its clients: the rounds of handle_client of src/server/server.c, for any number of
-- clients and whatever they send, and the rounds of the three threads that save, in any order. A
-- request is one step: the steps of two requests do not mix.
pub mod Reach
pub mod Kept
pub mod Durable
pub mod Restart
pub mod Written
use le_forum.Common.{ℕ, zero, suc, ◌≡◌, Bool, Outcome, ok}
use le_forum.Common.Result.{◌>>=◌}
use le_forum.Server.{Server, lethread_query_manage, lemessage_query_manage, leauthor_query_manage}
use le_forum.Server.Response.{Junk}
use le_forum.Server.Connection.{Connection, handle_round}

-- The threads that save.
pub data Saver : Type 0 where
  lethread_saver lemessage_saver leauthor_saver : Saver

-- A round of a thread that saves.
abbrev pub save_round : Saver → Server → Outcome Server
save_round lethread_saver s = lethread_query_manage s
save_round lemessage_saver s = lemessage_query_manage s
save_round leauthor_saver s = leauthor_query_manage s

-- `Serves n s s'`: the server goes from `s` to `s'`, and `n` requests are handled meanwhile.
pub data Serves : ℕ → Server → Server → Type 0 where
  finish : {s : Server} → Serves 0 s s
  answer :
      {n : ℕ} {s s' s'' : Server} (junk : Junk) (go : Bool) (c c' : Connection)
      → handle_round junk c s ≡ ok (go, c', s')
      → Serves n s' s''
      → Serves (suc n) s s''
  save :
      {n : ℕ} {s s' s'' : Server} (saver : Saver)
      → save_round saver s ≡ ok s'
      → Serves n s' s''
      → Serves n s s''

-- `n` rounds of a thread that saves.
unfoldable pub save_rounds : Saver → ℕ → Server → Outcome Server
save_rounds saver zero s = ok s
save_rounds saver (suc n) s = do s ← save_round saver s; save_rounds saver n s
