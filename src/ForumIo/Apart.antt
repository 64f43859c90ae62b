-- ===== src/ForumIo/Apart.antt =====
-- What the saves leave of the messages files.
use le_forum.Common.{
  ℕ, ◌≡◌, ◌∙◌, [], ◌++◌, append-nil, true, false, arith, some, none, ok, ◌==◌, Bool-cases, inl, inr,
  if◌then◌else◌, take, Option-cases, eq_of_==,
}
use le_forum.Common.Result.{>>=-eq-ok}
use le_forum.Clib.Strings.{Bytes, strlen}
use le_forum.Clib.Text.{IsString}
use le_forum.Clib.Words.{le_bytes}
use le_forum.Conf.{LeStatus, lestatus_ok, lestatus_idat}
use le_forum.Forum.{LeThread, LeMessage, LeAuthor}
use le_forum.Disk.{
  Disk, LeFile, file_lethread, file_lemessages, file_leauthor, ab, wb, get_lefile, fwrite,
  read_file, same_file,
}
use le_forum.Disk.Files.{read_file-ab}
use le_forum.Disk.Others.{is_same, read_file-fwrite_other, read_file-get_lefile_other}
use le_forum.ForumIo.{fwrite_u64, reopen, lethread_save, lemessage_save, leauthor_save}
use le_forum.ForumIo.Messages.{lemessage_bytes, appended, read_file-appended, fwrite_lemessage_lem}

-- What the record of a message adds to the messages file of the thread `id`.
abbrev pub entry : ℕ → LeMessage → Bytes
entry id m = elim m.lethread [ none ↦ [] | some k ↦ if id == k then lemessage_bytes m else [] ]

module _ (id : ℕ) (f : LeFile) (k : ℕ) (g : LeFile) (other : is_same id f k g ≡ false) where
  pub read_file-fwrite_u64_other :
      (n : ℕ) (d : Disk) → read_file id f (fwrite_u64 k g n d) ≡ read_file id f d
  unfolding fwrite_u64
  read_file-fwrite_u64_other n d = read_file-fwrite_other id f k g other (le_bytes 8 n) d

  pub read_file-reopen_other : (d : Disk) → read_file id f (reopen k g d) ≡ read_file id f d
  unfolding reopen
  read_file-reopen_other d =
      read_file-get_lefile_other id f k g other ab (get_lefile k wb g true d).1
      ∙ read_file-get_lefile_other id f k g other wb d

-- A file of messages is no file of another kind.
apart_lethread : (id k : ℕ) → is_same id file_lemessages k file_lethread ≡ false
unfolding same_file
apart_lethread id k = ground arith

apart_leauthor : (id k : ℕ) → is_same id file_lemessages k file_leauthor ≡ false
unfolding same_file
apart_leauthor id k = ground arith

apart_id : (id k : ℕ) → (id == k) ≡ false → is_same id file_lemessages k file_lemessages ≡ false
apart_id id k e = rw e

-- The disk after the writes of `lethread_save`, for a topic of `n` characters.
written : ℕ → LeThread → LeAuthor → Disk → Disk
written n t author d =
    let f = file_lethread in
    let d1 = fwrite_u64 t.id f author.id (fwrite_u64 t.id f t.id (reopen t.id f d)) in
    let d2 = fwrite_u64 t.id f t.next_message_id (fwrite_u64 t.id f t.first_message_id d1) in
    fwrite t.id f (take n t.topic) (fwrite_u64 t.id f n d2)

written_apart :
    (id n : ℕ) (t : LeThread) (author : LeAuthor) (d : Disk)
    → read_file id file_lemessages (written n t author d) ≡ read_file id file_lemessages d
unfolding written
written_apart id n t author d =
    let a = apart_lethread id t.id in
    let u = read_file-fwrite_u64_other id file_lemessages t.id file_lethread a in
    rw (
      read_file-fwrite_other id file_lemessages t.id file_lethread a,
      u,
      u,
      u,
      u,
      u,
      read_file-reopen_other id file_lemessages t.id file_lethread a,
    )

pub lethread_save_apart :
    (id : ℕ) (t : LeThread) (d : Disk) {r : LeStatus × Disk}
    → lethread_save t d ≡ ok r
    → read_file id file_lemessages r.1 ≡ read_file id file_lemessages d
unfolding lethread_save written
lethread_save_apart id t d {r} h = elim (Option-cases t.author) [
  | inl unknown ↦
      let e : lethread_save t d ≡ ok (lestatus_idat, d) = rw (lethread_save, unknown) in
      let p : (lestatus_idat, d) ≡ r = cc in rw (← p)
  | inr (author, known) ↦
      let (n, e, h1) = >>=-eq-ok (strlen t.topic) _ (rw (lethread_save, known) at h) in
      let p : (lestatus_ok, written n t author d) ≡ r = cc in
      rw (← p) (written_apart id n t author d)
]

pub leauthor_save_apart :
    (id : ℕ) (t : LeThread) (d : Disk)
    → read_file id file_lemessages (leauthor_save t d).1 ≡ read_file id file_lemessages d
unfolding leauthor_save
leauthor_save_apart id t d = elim (Option-cases t.author) [
  | inl none_known ↦ rw (leauthor_save, none_known)
  | inr (author, known) ↦
      let a = apart_leauthor id t.id in
      rw (
        leauthor_save,
        known,
        read_file-fwrite_other id file_lemessages t.id file_leauthor a,
        read_file-fwrite_u64_other id file_lemessages t.id file_leauthor a,
        read_file-reopen_other id file_lemessages t.id file_leauthor a,
      )
]

-- The writes for a message reach the file of its thread and no other messages file.
pub lemessage_save-entry :
    (m : LeMessage) (k : ℕ) (d : Disk)
    → m.lethread ≡ some k
    → IsString m.text
    → (d' : Disk) × (lemessage_save m d ≡ ok (lestatus_ok, d'))
      × ((id : ℕ) → read_file id file_lemessages d' ≡ read_file id file_lemessages d ++ entry id m)
unfolding lemessage_save appended read_file lemessage_bytes
lemessage_save-entry m k d known str =
    let opened = (get_lefile k ab file_lemessages true d).1 in
    (
      appended k m opened,
      rw (lemessage_save, known, fwrite_lemessage_lem k m opened str),
      λ id. elim (Bool-cases (id == k)) [
        | inl e ↦
            let same : id ≡ k = eq_of_== id k e in
            rw (known, e, same, read_file-appended k m opened, read_file-ab k file_lemessages d)
        | inr e ↦
            let a = apart_id id k e in
            rw (
              known,
              e,
              append-nil,
              read_file-fwrite_other id file_lemessages k file_lemessages a,
              read_file-fwrite_u64_other id file_lemessages k file_lemessages a,
              read_file-fwrite_other id file_lemessages k file_lemessages a,
              read_file-fwrite_u64_other id file_lemessages k file_lemessages a,
              read_file-get_lefile_other id file_lemessages k file_lemessages a ab d,
            )
      ],
    )
