-- ===== src/Server/Startup.antt =====
-- Starting the server: `startup` of src/server/server.c.
pub mod Restart
use le_forum.Common.{ℕ, List, [], ◌∷◌, Option, none, some, Outcome, ok, length}
use le_forum.Common.Result.{◌>>=◌}
use le_forum.Security.{Entropy}
use le_forum.Forum.{LeThread}
use le_forum.Disk.{Disk}
use le_forum.ForumIo.{lethread_load, leauthor_load}
use le_forum.Server.{Server, lemeta_load}

-- What `readdir` gives: a folder, with the number that `strtoull` reads in its name, or something else
-- (the folders "." and "..", files, and what `fstatat` fails on).
pub data Entry : Type 0 where
  folder : ℕ → Entry
  other : Entry

-- The author is loaded with the thread; no author is no error.
unfoldable pub load_lethread : ℕ → Disk → Entropy → Outcome (Option LeThread × Entropy)
load_lethread id d e = do
  (status, loaded) ← lethread_load id d
  elim loaded [
    | none ↦ ok (none, e)
    | some t ↦ do (status, t, e) ← leauthor_load t d e; ok (some t, e)
  ]

abbrev pub push_loaded : Option LeThread → List LeThread → List LeThread
push_loaded none ts = ts
push_loaded (some t) ts = t ∷ ts

-- The loop over the folder of the server: the threads in the order of their entries.
unfoldable pub load_entries : List Entry → Disk → Entropy → Outcome (List LeThread × Entropy)
unfolding load_lethread
load_entries [] d e = ok ([], e)
load_entries (other ∷ rest) d e = load_entries rest d e
load_entries (folder id ∷ rest) d e = do
  (loaded, e) ← load_lethread id d e
  (ts, e) ← load_entries rest d e
  ok (push_loaded loaded ts, e)

-- The number of threads, and the server. Before, the next id is 0.
unfoldable pub startup : List Entry → Disk → Entropy → Outcome (ℕ × Server)
unfolding load_entries lemeta_load
startup entries d e = do
  (ts, e) ← load_entries entries d e
  s ← lemeta_load (record {
    lethreads = ts;
    next_lethread_id_value = 0;
    lethread_queries = [];
    lemessage_queries = [];
    leauthor_queries = [];
    disk = d;
    entropy = e;
  })
  ok (length ts, s)
