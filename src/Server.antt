-- ===== src/Server.antt =====
-- The state of the server and what works on it: src/server/server.c. A pointer to a thread is its
-- place in `g_lethread_queue`, which only grows until `cleanup`; the reference counts of the shared
-- pointers to it are the matter of SharedPtr.antt. A queue is the list of its data, front first.
pub mod Query
pub mod Sound
pub mod Response
pub mod Connection
pub mod Startup
use le_forum.Common.{
  ℕ, suc, ◌+◌, ◌%◌, List, [], ◌∷◌, ◌++◌, Option, none, some, Bool, true, false, ◌==◌, if◌then◌else◌,
  not, ◌&&◌, Outcome, ok, fault, length, get_elem?, set,
}
use le_forum.Common.Result.{◌>>=◌}
use le_forum.Clib.Strings.{Bytes, codes, strstr_found}
use le_forum.Clib.Words.{le_bytes, le_value, u64_mod}
use le_forum.Security.{Entropy}
use le_forum.Forum.{LeThread, LeMessage, lethread_create, lethread_message_count}
use le_forum.Disk.{Disk}
use le_forum.ForumIo.{lemessages_load, leauthor_load, lethread_save, lemessage_save, leauthor_save}

-- The global variables, the disk and the random source. `lethread_queries` and `leauthor_queries`
-- hold places of threads, `lemessage_queries` holds messages, which never change once created.
-- No code of the program puts anything in `g_lemessages_query_queue`.
pub record Server : Type 0 where
  pub lethreads : List LeThread
  pub next_lethread_id_value : ℕ
  pub lethread_queries : List ℕ
  pub lemessage_queries : List LeMessage
  pub leauthor_queries : List ℕ
  pub disk : Disk
  pub entropy : Entropy

-- The first thread with the given id, and its place.
unfoldable pub place_of : ℕ → List LeThread → Option (ℕ × LeThread)
place_of lethread_id [] = none
place_of lethread_id (t ∷ rest) =
    if t.id == lethread_id
    then some (0, t)
    else elim (place_of lethread_id rest) [ none ↦ none | some (i, u) ↦ some (suc i, u) ]

unfoldable pub is_empty : {A : Type 0} → List A → Bool
is_empty [] = true
is_empty (x ∷ xs) = false

abbrev has_author : LeThread → Bool
has_author t = elim t.author [ none ↦ false | some a ↦ true ]

-- Messages that are still on disk are loaded.
unfoldable pub load_missing_messages : LeThread → Server → Outcome LeThread
unfolding is_empty lemessages_load lethread_message_count
load_missing_messages t s =
    if is_empty t.messages && not (lethread_message_count t == 0)
    then (do (status, t) ← lemessages_load t s.disk; ok t)
    else ok t

unfoldable pub load_missing_author : LeThread → Server → Outcome (LeThread × Entropy)
unfolding leauthor_load
load_missing_author t s =
    if has_author t
    then ok (t, s.entropy)
    else (do (status, t, e) ← leauthor_load t s.disk s.entropy; ok (t, e))

-- The place of the thread and the thread, with its messages and its author in memory; `none` is
-- -LESTATUS_NFND.
unfoldable pub lethread_get_by_id : ℕ → Server → Outcome (Option (ℕ × LeThread) × Server)
unfolding place_of load_missing_messages load_missing_author
lethread_get_by_id lethread_id s = elim (place_of lethread_id s.lethreads) [
  | none ↦ ok (none, s)
  | some (i, t) ↦ do
    t ← load_missing_messages t s
    (t, e) ← load_missing_author t s
    ok (some (i, t), record s { lethreads = set s.lethreads i t; entropy = e })
]

-- The threads of the queue that is returned.
unfoldable pub lethread_find : Bytes → List LeThread → Outcome (List LeThread)
unfolding strstr_found
lethread_find topic_part [] = ok []
lethread_find topic_part (t ∷ rest) = do
  found ← strstr_found t.topic topic_part
  matches ← lethread_find topic_part rest
  ok (if found then t ∷ matches else matches)

abbrev pub s_lethread_save : ℕ → Server → Server
s_lethread_save place s = record s { lethread_queries = s.lethread_queries ++ (place ∷ []) }

abbrev pub s_lemessage_save : LeMessage → Server → Server
s_lemessage_save m s = record s { lemessage_queries = s.lemessage_queries ++ (m ∷ []) }

abbrev pub s_leauthor_save : ℕ → Server → Server
s_leauthor_save place s = record s { leauthor_queries = s.leauthor_queries ++ (place ∷ []) }

-- One step: that the server stops between `fopen`, which empties the file, and `fwrite` is not
-- modelled.
unfoldable pub lemeta_save : Server → Server
lemeta_save s = record s {
  disk = record s.disk { lemeta = some (le_bytes 8 s.next_lethread_id_value) };
}

-- A read from an empty file leaves the variable as it is.
abbrev pub read_lemeta : Option Bytes → Server → Outcome Server
read_lemeta none s = ok (record s { next_lethread_id_value = 0 })
read_lemeta (some []) s = ok s
read_lemeta (some (b ∷ file)) s = do
  n ← le_value 8 (b ∷ file)
  ok (record s { next_lethread_id_value = n })

unfoldable pub lemeta_load : Server → Outcome Server
lemeta_load s = read_lemeta s.disk.lemeta s

-- The value, and the server after `g_next_lethread_id_value++` and `lemeta_save()`.
unfoldable pub next_lethread_id : Server → ℕ × Server
unfolding lemeta_save
next_lethread_id s =
    let value = s.next_lethread_id_value in
    (value, lemeta_save (record s { next_lethread_id_value = (value + 1) % u64_mod }))

-- The place of the new thread, and the thread; the second argument of the source is unused.
unfoldable pub s_lethread_create : Bytes → Server → Outcome (ℕ × LeThread × Server)
unfolding next_lethread_id lethread_create
s_lethread_create topic s = do
  let (id, s) = next_lethread_id s
  (t, e) ← lethread_create topic id s.entropy
  ok (length s.lethreads, t, record s { lethreads = s.lethreads ++ (t ∷ []); entropy = e })

abbrev pub get_lethread_count : Server → ℕ
get_lethread_count s = length s.lethreads

-- `argp_program_version` of src/server/arg.c.
abbrev pub get_version : Bytes
get_version = codes "LeForum Server v0.1"

-- One round of `lethread_query_manage`, and so on: the front of the queue is taken and saved. As in
-- the source, the status of the save is not looked at.
unfoldable pub lethread_query_manage : Server → Outcome Server
unfolding lethread_save
lethread_query_manage s = elim s.lethread_queries [
  | [] ↦ ok s
  | place ∷ rest ↦ elim (get_elem? s.lethreads place) [
    | none ↦ fault
    | some t ↦ do
      (status, d) ← lethread_save t s.disk
      ok (record s { lethread_queries = rest; disk = d })
  ]
]

unfoldable pub lemessage_query_manage : Server → Outcome Server
unfolding lemessage_save
lemessage_query_manage s = elim s.lemessage_queries [
  | [] ↦ ok s
  | m ∷ rest ↦ do
    (status, d) ← lemessage_save m s.disk
    ok (record s { lemessage_queries = rest; disk = d })
]

unfoldable pub leauthor_query_manage : Server → Outcome Server
unfolding leauthor_save
leauthor_query_manage s = elim s.leauthor_queries [
  | [] ↦ ok s
  | place ∷ rest ↦ elim (get_elem? s.lethreads place) [
    | none ↦ fault
    | some t ↦ ok (record s { leauthor_queries = rest; disk = (leauthor_save t s.disk).1 })
  ]
]
