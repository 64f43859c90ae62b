-- ===== src/ForumIo.antt =====
-- Saving and loading: src/server/forum_io.c. A handle from `get_lefile` is the id and the file.
pub mod RoundTrip
pub mod Messages
pub mod Apart
pub mod Authors
use Prim.Native.Nat.{min}
use le_forum.Common.{
  length, ℕ, zero, suc, List, [], ◌∷◌, ◌++◌, Option, none, some, true, false, Outcome, ok, fault,
  drop, take,
}
use le_forum.Common.Result.{◌>>=◌}
use le_forum.Clib.Strings.{Bytes, strlen}
use le_forum.Clib.Words.{le_bytes, le_value}
use le_forum.Conf.{
  LeStatus, lestatus_ok, lestatus_idat, lestatus_nsfd, lestatus_nptr, max_topic_size,
  max_message_size,
}
use le_forum.Security.{Entropy}
use le_forum.Forum.{
  LeThread, LeMessage, LeAuthor, lethread_message_count, leauthor_create, token_size,
}
use le_forum.Disk.{
  Disk, LeFile, file_lethread, file_lemessages, file_leauthor, rb, wb, ab, get_lefile, fwrite,
  read_file, fread_text,
}

-- `fwrite` of a `uint64_t` and of the first `n` bytes that a pointer points to.
unfoldable pub fwrite_u64 : ℕ → LeFile → ℕ → Disk → Disk
unfolding fwrite
fwrite_u64 id f n d = fwrite id f (le_bytes 8 n) d

-- "wb" and a close, then "ab": an empty file, open for writing.
unfoldable pub reopen : ℕ → LeFile → Disk → Disk
unfolding get_lefile
reopen id f d = (get_lefile id ab f true (get_lefile id wb f true d).1).1

unfoldable pub lethread_save : LeThread → Disk → Outcome (LeStatus × Disk)
lethread_save lethread d = elim lethread.author [
  | none ↦ ok (lestatus_idat, d)
  | some author ↦ do
    topic_size ← strlen lethread.topic
    let d = reopen lethread.id file_lethread d
    let d = fwrite_u64 lethread.id file_lethread lethread.id d
    let d = fwrite_u64 lethread.id file_lethread author.id d
    let d = fwrite_u64 lethread.id file_lethread lethread.first_message_id d
    let d = fwrite_u64 lethread.id file_lethread lethread.next_message_id d
    let d = fwrite_u64 lethread.id file_lethread topic_size d
    let d = fwrite lethread.id file_lethread (take topic_size lethread.topic) d
    ok (lestatus_ok, d)
]

-- `fread` of a `uint64_t` or an `int` into memory that was never written: what a short file leaves
-- there is no value.
pub fread_int : ℕ → Bytes → Outcome (ℕ × Bytes)
fread_int k file = do v ← le_value k file; ok (v, drop k file)

-- The fields of the file; the author's id in it is dropped.
unfoldable pub read_lethread : Bytes → Outcome LeThread
unfolding fread_int
read_lethread file = do
  (id, file) ← fread_int 8 file
  (leauthor_id, file) ← fread_int 8 file
  (first, file) ← fread_int 8 file
  (next, file) ← fread_int 8 file
  (topic_size, file) ← fread_int 8 file
  ok (record {
    id = id;
    first_message_id = first;
    next_message_id = next;
    topic = fread_text (min topic_size max_topic_size) file ++ (0 ∷ []);
    messages = [];
    author = none;
  })

-- The status, and the thread on success.
unfoldable pub lethread_load : ℕ → Disk → Outcome (LeStatus × Option LeThread)
lethread_load lethread_id d =
    let (status, d') = get_lefile lethread_id rb file_lethread false d in
    elim status [
      | lestatus_nsfd ↦ ok (lestatus_nsfd, none)
      | lestatus_nptr ↦ ok (lestatus_nptr, none)
      | _ ↦ do t ← read_lethread (read_file lethread_id file_lethread d'); ok (lestatus_ok, some t)
    ]

-- The four `fwrite` calls for one message, to the file of the thread `id`.
pub fwrite_lemessage : ℕ → LeMessage → Disk → Outcome Disk
fwrite_lemessage id lemessage d = do
  text_size ← strlen lemessage.text
  let d = fwrite_u64 id file_lemessages lemessage.id d
  let d = fwrite id file_lemessages (le_bytes 4 lemessage.by_lethread_author) d
  let d = fwrite_u64 id file_lemessages text_size d
  ok (fwrite id file_lemessages (take text_size lemessage.text) d)

pub fwrite_all : ℕ → List LeMessage → Disk → Outcome Disk
fwrite_all id [] d = ok d
fwrite_all id (lemessage ∷ rest) d = do d ← fwrite_lemessage id lemessage d; fwrite_all id rest d

unfoldable pub lemessages_save : LeThread → Disk → Outcome (LeStatus × Disk)
lemessages_save lethread d = do
  d ← fwrite_all lethread.id lethread.messages (reopen lethread.id file_lemessages d)
  ok (lestatus_ok, d)

-- A fault if the message's pointer to its thread was never written.
unfoldable pub lemessage_save : LeMessage → Disk → Outcome (LeStatus × Disk)
lemessage_save lemessage d = elim lemessage.lethread [
  | none ↦ fault
  | some id ↦ do
    d ← fwrite_lemessage id lemessage (get_lefile id ab file_lemessages true d).1
    ok (lestatus_ok, d)
]

unfoldable pub read_lemessage : Bytes → Outcome (LeMessage × Bytes)
unfolding fread_int
read_lemessage file = do
  (id, file) ← fread_int 8 file
  (by_author, file) ← fread_int 4 file
  (text_size, file) ← fread_int 8 file
  let size = min text_size max_message_size
  ok (
    record {
      id = id;
      text = fread_text size file ++ (0 ∷ []);
      by_lethread_author = by_author;
      lethread = none;
    },
    drop size file,
  )

-- The loop over `lethread_message_count(lethread)` messages.
unfoldable pub read_lemessages : ℕ → Bytes → Outcome (List LeMessage)
read_lemessages zero file = ok []
read_lemessages (suc n) file = do
  (lemessage, file) ← read_lemessage file
  rest ← read_lemessages n file
  ok (lemessage ∷ rest)

unfoldable pub lemessages_load : LeThread → Disk → Outcome (LeStatus × LeThread)
lemessages_load lethread d =
    let (status, d') = get_lefile lethread.id rb file_lemessages false d in
    elim status [
      | lestatus_nsfd ↦ ok (lestatus_nsfd, lethread)
      | lestatus_nptr ↦ ok (lestatus_nptr, lethread)
      | _ ↦ do
        loaded ←
            read_lemessages (lethread_message_count lethread)
              (read_file lethread.id file_lemessages d')
        ok (lestatus_ok, record lethread { messages = lethread.messages ++ loaded })
    ]

-- `fread` of a `uint64_t` into one that is set: a short file changes its first bytes only.
unfoldable pub fread_over : ℕ → Bytes → Outcome ℕ
fread_over old file = le_value 8 (file ++ drop (length file) (le_bytes 8 old))

unfoldable pub leauthor_load : LeThread → Disk → Entropy → Outcome (LeStatus × LeThread × Entropy)
leauthor_load lethread d e =
    let (status, d') = get_lefile lethread.id rb file_leauthor false d in
    elim status [
      | lestatus_nsfd ↦ ok (lestatus_nsfd, lethread, e)
      | _ ↦ do
        (lethread, leauthor, e) ← leauthor_create lethread false e
        let file = read_file lethread.id file_leauthor d'
        id ← fread_over leauthor.id file
        let token = fread_text token_size (drop 8 file) ++ (0 ∷ [])
        let loaded : LeAuthor = record { id = id; token = token }
        ok (lestatus_ok, record lethread { author = some loaded }, e)
    ]

unfoldable pub leauthor_save : LeThread → Disk → LeStatus × Disk
leauthor_save lethread d = elim lethread.author [
  | none ↦ (lestatus_nptr, d)
  | some author ↦
      let d1 = reopen lethread.id file_leauthor d in
      let d2 = fwrite_u64 lethread.id file_leauthor author.id d1 in
      (lestatus_ok, fwrite lethread.id file_leauthor (take token_size author.token) d2)
]
