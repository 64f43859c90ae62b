-- ===== src/ForumIo/RoundTrip.antt =====
-- What is saved is loaded again.
use Prim.Native.Nat.{min}
use le_forum.Common.{
  ℕ, ◌^◌, ◌≤◌, ◌<◌, ◌≡◌, refl, ◌∙◌, [], ◌∷◌, ◌++◌, arith, some, none, true, ok, length,
  append_assoc, append-nil, take, drop-append_of_length,
}
use le_forum.Clib.Strings.{Bytes}
use le_forum.Clib.Text.{before_nul, IsString, strlen-before_nul}
use le_forum.Clib.Words.{u64_mod, le_bytes, length-le_bytes, le_value-le_bytes}
use le_forum.Conf.{lestatus_ok, max_topic_size}
use le_forum.Forum.{LeThread, LeAuthor}
use le_forum.Disk.{
  Disk, LeFile, file_lethread, wb, get_lefile, fwrite, read_file, file_exists, fread_text,
}
use le_forum.Disk.{fread_text-append}
use le_forum.Disk.Files.{
  read_file-fwrite, file_exists-fwrite, get_lefile-rb, read_file-wb, read_file-ab,
}
use le_forum.ForumIo.{fwrite_u64, reopen, lethread_save, fread_int, read_lethread, lethread_load}

pub take-before_nul : (p : Bytes) → take (length (before_nul p)) p ≡ before_nul p
unfolding before_nul
take-before_nul [] = refl
take-before_nul (c ∷ p) = ground (arith, take-before_nul p)

pub read_file-reopen : (id : ℕ) (f : LeFile) (d : Disk) → read_file id f (reopen id f d) ≡ []
unfolding reopen
read_file-reopen id f d = read_file-ab id f (get_lefile id wb f true d).1 ∙ read_file-wb id f d

pub read_file-fwrite_u64 :
    (id : ℕ) (f : LeFile) (n : ℕ) (d : Disk)
    → read_file id f (fwrite_u64 id f n d) ≡ read_file id f d ++ le_bytes 8 n
unfolding fwrite_u64
read_file-fwrite_u64 id f n d = read_file-fwrite id f (le_bytes 8 n) d

pub fread_int-le_bytes :
    (k n : ℕ) (rest : Bytes) → n < 256 ^ k → fread_int k (le_bytes k n ++ rest) ≡ ok (n, rest)
unfolding fread_int
fread_int-le_bytes k n rest h =
    rw (
      le_value-le_bytes k n rest h,
      drop-append_of_length (le_bytes k n) rest (length-le_bytes k n),
    )

-- The file of a thread.
abbrev pub lethread_bytes : LeThread → LeAuthor → Bytes
lethread_bytes t author =
    le_bytes 8 t.id
    ++ (le_bytes 8 author.id
        ++ (le_bytes 8 t.first_message_id
            ++ (le_bytes 8 t.next_message_id
                ++ (le_bytes 8 (length (before_nul t.topic)) ++ before_nul t.topic))))

-- The numbers of a thread fit the fields of its file.
pub record Fits (t : LeThread) (author : LeAuthor) : Type 0 where
  pub id : t.id < u64_mod
  pub author_id : author.id < u64_mod
  pub first : t.first_message_id < u64_mod
  pub next : t.next_message_id < u64_mod

-- A thread as `lethread_load` makes it.
abbrev pub loaded : LeThread → LeThread
loaded t = record t { topic = before_nul t.topic ++ (0 ∷ []); messages = []; author = none }

-- The disk after `lethread_save`.
-- The disk after the writes of `lethread_save`.
unfoldable pub saved : LeThread → LeAuthor → Disk → Disk
saved t author d =
    let f = file_lethread in
    let d1 = fwrite_u64 t.id f author.id (fwrite_u64 t.id f t.id (reopen t.id f d)) in
    let d2 = fwrite_u64 t.id f t.next_message_id (fwrite_u64 t.id f t.first_message_id d1) in
    let size = length (before_nul t.topic) in
    fwrite t.id f (take size t.topic) (fwrite_u64 t.id f size d2)

module _ (t : LeThread) (author : LeAuthor) where
  pub read_file-saved :
      (d : Disk) → read_file t.id file_lethread (saved t author d) ≡ lethread_bytes t author
  unfolding saved
  read_file-saved d =
      rw
        (
          read_file-fwrite, read_file-fwrite_u64, read_file-fwrite_u64, read_file-fwrite_u64,
          read_file-fwrite_u64, read_file-fwrite_u64, read_file-reopen, take-before_nul,
        )
        (simp append_assoc)

  file_exists-saved : (d : Disk) → file_exists t.id file_lethread (saved t author d) ≡ true
  unfolding saved
  file_exists-saved d = file_exists-fwrite _ _ _ _

  pub lethread_save_lem :
      (d : Disk)
      → t.author ≡ some author
      → IsString t.topic
      → lethread_save t d ≡ ok (lestatus_ok, saved t author d)
  unfolding lethread_save saved
  lethread_save_lem d known str = rw (lethread_save, known, strlen-before_nul t.topic str)

  read_lethread_lem :
      Fits t author
      → length (before_nul t.topic) ≤ max_topic_size
      → read_lethread (lethread_bytes t author) ≡ ok (loaded t)
  unfolding read_lethread
  read_lethread_lem fits short =
      let topic = before_nul t.topic in
      let small : length topic < 256 ^ 8 = omega arith in
      let i : t.id < 256 ^ 8 = fits.id in
      let a : author.id < 256 ^ 8 = fits.author_id in
      let f : t.first_message_id < 256 ^ 8 = fits.first in
      let n : t.next_message_id < 256 ^ 8 = fits.next in
      let cut : min (length topic) max_topic_size ≡ length topic = omega arith in
      let whole : fread_text (length topic) topic ≡ topic =
        rw append-nil at (fread_text-append topic []) in
      rw
        (
          fread_int-le_bytes 8 t.id,
          fread_int-le_bytes 8 author.id,
          fread_int-le_bytes 8 t.first_message_id,
          fread_int-le_bytes 8 t.next_message_id,
        )
        (rw (fread_int-le_bytes 8 (length topic), cut, whole))

  -- A thread is loaded from its file.
  pub lethread_load_lem :
      (d : Disk)
      → length (before_nul t.topic) ≤ max_topic_size
      → Fits t author
      → file_exists t.id file_lethread d ≡ true
      → read_file t.id file_lethread d ≡ lethread_bytes t author
      → lethread_load t.id d ≡ ok (lestatus_ok, some (loaded t))
  unfolding lethread_load
  lethread_load_lem d short fits there file =
      let found = get_lefile-rb t.id file_lethread d there in
      rw (lethread_load, found, found, file, read_lethread_lem fits short)

  -- For a thread with an author, a terminated topic of at most 64 characters and numbers that fit
  -- 64 bits, on any disk: `lethread_save` succeeds, and `lethread_load` from the disk it leaves
  -- gives the id, the two counters and the topic of the thread, with no messages and no author.
  pub lethread_load-lethread_save :
      (d : Disk)
      → t.author ≡ some author
      → IsString t.topic
      → length (before_nul t.topic) ≤ max_topic_size
      → Fits t author
      → (d' : Disk) × (lethread_save t d ≡ ok (lestatus_ok, d'))
        × (lethread_load t.id d' ≡ ok (lestatus_ok, some (loaded t)))
  lethread_load-lethread_save d known str short fits = (
    saved t author d,
    lethread_save_lem d known str,
    lethread_load_lem (saved t author d) short fits (file_exists-saved d) (read_file-saved d),
  )
