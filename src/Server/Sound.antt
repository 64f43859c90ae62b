-- ===== src/Server/Sound.antt =====
-- What holds of the state of src/server/server.c between requests, and what requests leave as it was.
pub mod Threads
pub mod Synced
pub mod Loading
pub mod Lookup
pub mod Effects
pub mod Posting
pub mod NewThread
pub mod Creation
pub mod Written
pub mod Requests
pub mod Dispatch
pub mod Savers
use mathlib.Core.List.{Memᴰ}
use le_forum.Common.{
  get_elem?, ℕ, suc, ◌+◌, ◌≤◌, ◌<◌, ◌≡◌, ◌≢◌, List, [], ◌∷◌, ◌++◌, Option, none, some, ◌⊎◌, length,
  All,
}
use le_forum.Clib.Strings.{Bytes}
use le_forum.Clib.Text.{IsString}
use le_forum.Clib.Words.{le_bytes, u64_mod}
use le_forum.Forum.{LeThread, LeMessage, LeAuthor, token_size}
use le_forum.Disk.{file_lethread, file_leauthor, read_file}
use le_forum.ForumIo.RoundTrip.{lethread_bytes, Fits}
use le_forum.ForumIo.Authors.{leauthor_bytes}
use le_forum.Server.{Server}
use le_forum.Saving.Log.{IsReady}

-- No two threads have the same id.
abbrev pub AreDistinct : List LeThread → Type 0
AreDistinct [] = Unit
AreDistinct (t ∷ ts) = All (λ (u : LeThread). u.id ≢ t.id) ts × AreDistinct ts

-- The stored next id is the one in memory; before the first thread nothing is stored.
abbrev pub Stored : Option Bytes → ℕ → Type 0
Stored none next = next ≡ 0
Stored (some file) next = file ≡ le_bytes 8 next

-- A thread on its own: its topic is terminated, and its id was given out.
pub record IsGiven (next : ℕ) (t : LeThread) : Type 0 where
  pub topic : IsString t.topic
  pub id : t.id < next

pub record IsSound (s : Server) : Type 0 where
  pub given : All (IsGiven s.next_lethread_id_value) s.lethreads
  pub distinct : AreDistinct s.lethreads
  pub fits : s.next_lethread_id_value < u64_mod
  pub stored : Stored s.disk.lemeta s.next_lethread_id_value
  pub lethread_places : All (λ (i : ℕ). i < length s.lethreads) s.lethread_queries
  pub leauthor_places : All (λ (i : ℕ). i < length s.lethreads) s.leauthor_queries
  pub ready : All IsReady s.lemessage_queries

-- What happens to a thread: messages are added at its end, and its author becomes known.
pub record IsKept (t t' : LeThread) : Type 0 where
  pub id : t'.id ≡ t.id
  pub topic : t'.topic ≡ t.topic
  pub first : t'.first_message_id ≡ t.first_message_id
  pub added : (ms : List LeMessage) × (t'.messages ≡ t.messages ++ ms)
  pub author : (t.author ≡ none) ⊎ (t'.author ≡ t.author)

-- The threads are kept at their places, and new ones stand behind them.
pub data AreKept : List LeThread → List LeThread → Type 0 where
  new_lethreads : (ts : List LeThread) → AreKept [] ts
  kept_lethread :
      {t t' : LeThread} {ts ts' : List LeThread}
      → IsKept t t'
      → AreKept ts ts'
      → AreKept (t ∷ ts) (t' ∷ ts')

-- What both files of a thread hold, or that it is queued to be saved. `i` is its place.
pub record SyncedAt (s : Server) (i : ℕ) (t : LeThread) : Type 0 where
  pub author : LeAuthor
  pub known : t.author ≡ some author
  pub fits : Fits t author
  pub long : length author.token ≡ token_size
  pub lethread_file :
      Memᴰ i s.lethread_queries ⊎ (read_file t.id file_lethread s.disk ≡ lethread_bytes t author)
  pub leauthor_file :
      Memᴰ i s.leauthor_queries ⊎ (read_file t.id file_leauthor s.disk ≡ leauthor_bytes author)

abbrev pub IsSynced : Server → Type 0
IsSynced s = (i : ℕ) (t : LeThread) → get_elem? s.lethreads i ≡ some t → SyncedAt s i t

-- A state that `s` goes to while at most `n` threads are created.
pub record Moves (n : ℕ) (s s' : Server) : Type 0 where
  pub sound : IsSound s'
  pub kept : AreKept s.lethreads s'.lethreads
  pub later : s.next_lethread_id_value ≤ s'.next_lethread_id_value
  pub soon : s'.next_lethread_id_value ≤ s.next_lethread_id_value + n

-- The same, where no change of a thread is forgotten.
pub record Reaches (n : ℕ) (s s' : Server) : Type 0 where
  pub moves : Moves n s s'
  pub synced : IsSynced s → IsSynced s'
