-- ===== src/ForumIo/Messages.antt =====
-- Messages on disk.
use Prim.Native.Nat.{min}
use le_forum.Common.{
  ℕ, ◌^◌, ◌≤◌, ◌<◌, ◌≡◌, refl, sym, ◌∙◌, List, [], ◌∷◌, ◌++◌, arith, some, none, true, ok, length,
  append_assoc, append-nil, take, drop-append_of_length, All, map,
}
use le_forum.Clib.Strings.{Bytes}
use le_forum.Clib.Text.{before_nul, IsString, strlen-before_nul}
use le_forum.Clib.Words.{u64_mod, u32_mod, le_bytes}
use le_forum.Conf.{lestatus_ok, max_message_size}
use le_forum.Forum.{LeThread, LeMessage, lethread_message_count}
use le_forum.Disk.{
  Disk, file_lemessages, ab, get_lefile, fwrite, read_file, file_exists, fread_text-append,
}
use le_forum.Disk.Files.{read_file-fwrite, file_exists-fwrite, get_lefile-rb, read_file-ab}
use le_forum.ForumIo.{
  fwrite_u64, fwrite_lemessage, fwrite_all, lemessage_save, read_lemessage, read_lemessages,
  lemessages_load,
}
use le_forum.ForumIo.RoundTrip.{take-before_nul, read_file-fwrite_u64, fread_int-le_bytes}

-- A message in its file, and a file of messages.
unfoldable pub lemessage_bytes : LeMessage → Bytes
lemessage_bytes m =
    le_bytes 8 m.id
    ++ (le_bytes 4 m.by_lethread_author
        ++ (le_bytes 8 (length (before_nul m.text)) ++ before_nul m.text))

unfoldable pub lemessages_bytes : List LeMessage → Bytes
lemessages_bytes [] = []
lemessages_bytes (m ∷ ms) = lemessage_bytes m ++ lemessages_bytes ms

pub lemessages_bytes-append :
    (ms ns : List LeMessage)
    → lemessages_bytes (ms ++ ns) ≡ lemessages_bytes ms ++ lemessages_bytes ns
unfolding lemessages_bytes
lemessages_bytes-append [] ns = refl
lemessages_bytes-append (m ∷ ms) ns =
    rw (lemessages_bytes-append ms ns)
      (sym (append_assoc (lemessage_bytes m) (lemessages_bytes ms) (lemessages_bytes ns)))

-- A message that can be written and read back: its numbers fit their fields, and its text is a
-- string of a size that is not cut.
pub record IsStored (m : LeMessage) : Type 0 where
  pub id_fits : m.id < u64_mod
  pub flag_fits : m.by_lethread_author < u32_mod
  pub text : IsString m.text
  pub short_enough : length (before_nul m.text) ≤ max_message_size

-- A message as it is loaded: the pointer to its thread is not written.
abbrev pub reload : LeMessage → LeMessage
reload m = record m { text = before_nul m.text ++ (0 ∷ []); lethread = none }

-- The disk after the writes for one message.
unfoldable pub appended : ℕ → LeMessage → Disk → Disk
appended id m d =
    let f = file_lemessages in
    let d1 = fwrite id f (le_bytes 4 m.by_lethread_author) (fwrite_u64 id f m.id d) in
    let size = length (before_nul m.text) in
    fwrite id f (take size m.text) (fwrite_u64 id f size d1)

module _ (id : ℕ) where
  pub read_file-appended :
      (m : LeMessage) (d : Disk)
      → read_file id file_lemessages (appended id m d)
        ≡ read_file id file_lemessages d ++ lemessage_bytes m
  unfolding appended lemessage_bytes
  read_file-appended m d =
      rw
        (
          read_file-fwrite, read_file-fwrite_u64, read_file-fwrite, read_file-fwrite_u64,
          take-before_nul,
        )
        (simp append_assoc)

  pub fwrite_lemessage_lem :
      (m : LeMessage) (d : Disk) → IsString m.text → fwrite_lemessage id m d ≡ ok (appended id m d)
  unfolding fwrite_lemessage appended
  fwrite_lemessage_lem m d str = rw (strlen-before_nul m.text str)

  fwrite_all_lem :
      (ms : List LeMessage) (d : Disk)
      → All IsStored ms
      → (d' : Disk) × (fwrite_all id ms d ≡ ok d')
        × (read_file id file_lemessages d' ≡ read_file id file_lemessages d ++ lemessages_bytes ms)
  unfolding fwrite_all lemessages_bytes
  fwrite_all_lem [] d h = (d, refl, sym (append-nil (read_file id file_lemessages d)))
  fwrite_all_lem (m ∷ ms) d (hm, h) =
      let (d', e, r) = fwrite_all_lem ms (appended id m d) h in
      (d', rw (fwrite_lemessage_lem m d hm.text) e, r ∙ rw (read_file-appended m d, append_assoc))

-- For a message with a terminated text that points to a thread `id`, on any disk: `lemessage_save`
-- succeeds, and the messages file of that thread exists and is what it was before, followed by the
-- record of the message.
pub lemessage_save_appends :
    (m : LeMessage) (id : ℕ) (d : Disk)
    → m.lethread ≡ some id
    → IsString m.text
    → (d' : Disk) × (lemessage_save m d ≡ ok (lestatus_ok, d'))
      × (read_file id file_lemessages d' ≡ read_file id file_lemessages d ++ lemessage_bytes m)
      × (file_exists id file_lemessages d' ≡ true)
unfolding lemessage_save appended
lemessage_save_appends m id d known str =
    let opened = (get_lefile id ab file_lemessages true d).1 in
    (
      appended id m opened,
      rw (lemessage_save, known, fwrite_lemessage_lem id m opened str),
      rw (read_file-appended id m opened, read_file-ab id file_lemessages d),
      file_exists-fwrite _ _ _ _,
    )

read_lemessage_lem :
    (m : LeMessage) (rest : Bytes)
    → IsStored m
    → read_lemessage (lemessage_bytes m ++ rest) ≡ ok (reload m, rest)
unfolding read_lemessage lemessage_bytes
read_lemessage_lem m rest h =
    let text = before_nul m.text in
    let i : m.id < 256 ^ 8 = h.id_fits in
    let f : m.by_lethread_author < 256 ^ 4 = h.flag_fits in
    let small : length text < 256 ^ 8 = omega (arith, h.short_enough) in
    let cut : min (length text) max_message_size ≡ length text = omega (arith, h.short_enough) in
    simp append_assoc (
      rw (
        fread_int-le_bytes 8 m.id,
        fread_int-le_bytes 4 m.by_lethread_author,
        fread_int-le_bytes 8 (length text),
        cut,
        fread_text-append text rest,
        drop-append_of_length text rest refl,
      ))

read_lemessages_lem :
    (ms : List LeMessage)
    → All IsStored ms
    → read_lemessages (length ms) (lemessages_bytes ms) ≡ ok (map reload ms)
unfolding read_lemessages lemessages_bytes
read_lemessages_lem [] h = refl
read_lemessages_lem (m ∷ ms) (hm, h) =
    rw (read_lemessage_lem m (lemessages_bytes ms) hm, read_lemessages_lem ms h)

-- If the messages file of a thread holds the messages `ms`, each of an allowed size and with
-- numbers that fit, and the thread counts as many, `lemessages_load` succeeds and adds all of them
-- in order behind those in memory, each with its id, flag and text, and with its pointer to the
-- thread unwritten.
pub lemessages_load_lem :
    (t : LeThread) (ms : List LeMessage) (d : Disk)
    → All IsStored ms
    → lethread_message_count t ≡ length ms
    → file_exists t.id file_lemessages d ≡ true
    → read_file t.id file_lemessages d ≡ lemessages_bytes ms
    → lemessages_load t d ≡ ok (lestatus_ok, record t { messages = t.messages ++ map reload ms })
unfolding lemessages_load
lemessages_load_lem t ms d h counted there file =
    let found = get_lefile-rb t.id file_lemessages d there in
    rw (lemessages_load, found, found, file, counted, read_lemessages_lem ms h)
