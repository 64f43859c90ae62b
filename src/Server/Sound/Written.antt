-- ===== src/Server/Sound/Written.antt =====
-- What the three saves write to disk, and what they leave.
use le_forum.Common.{
  ℕ, ◌≡◌, refl, ◌∙◌, arith, none, some, true, false, ok, length, take, Option-cases, inl, inr,
  take_of_le,
}
use le_forum.Clib.Strings.{Bytes}
use le_forum.Clib.Text.{IsString}
use le_forum.Clib.Words.{le_bytes}
use le_forum.Conf.{LeStatus, lestatus_ok, lestatus_idat}
use le_forum.Forum.{LeThread, LeMessage, LeAuthor, token_size}
use le_forum.Disk.{
  Disk, LeFile, Mode, rb, wb, ab, get_lefile, fwrite, fopen, mkdir, file_lethread, file_lemessages,
  file_leauthor, read_file,
}
use le_forum.Disk.Files.{read_file-fwrite}
use le_forum.Disk.Others.{is_same, read_file-fwrite_other, read_file-get_lefile_other}
use le_forum.ForumIo.{fwrite_u64, reopen, lethread_save, lemessage_save, leauthor_save}
use le_forum.ForumIo.Apart.{read_file-fwrite_u64_other, read_file-reopen_other}
use le_forum.ForumIo.Messages.{appended, fwrite_lemessage_lem}
use le_forum.ForumIo.RoundTrip.{
  saved, read_file-saved, lethread_save_lem, lethread_bytes, read_file-reopen, read_file-fwrite_u64,
}
use le_forum.ForumIo.Authors.{leauthor_bytes}
use le_forum.Saving.Log.{IsReady}

-- The file with the next id is no file of a thread.
lemeta-fopen :
    (id : ℕ) (mode : Mode) (f : LeFile) (d : Disk) → (fopen id mode f d).lemeta ≡ d.lemeta
unfolding fopen
lemeta-fopen id rb f d = refl
lemeta-fopen id wb f d = refl
lemeta-fopen id ab f d = refl

lemeta-get_lefile :
    (id : ℕ) (mode : Mode) (f : LeFile) (d : Disk)
    → (get_lefile id mode f true d).1.lemeta ≡ d.lemeta
unfolding get_lefile mkdir
lemeta-get_lefile id mode f d = elim (Option-cases (d.folders id)) [
  | inl new ↦ rw (get_lefile, new) (lemeta-fopen id mode f (mkdir id d))
  | inr (folder, old) ↦
      let e : (get_lefile id mode f true d).1 ≡ fopen id mode f d = ground arith in
      rw e (lemeta-fopen id mode f d)
]

lemeta-reopen : (id : ℕ) (f : LeFile) (d : Disk) → (reopen id f d).lemeta ≡ d.lemeta
unfolding reopen
lemeta-reopen id f d =
    lemeta-get_lefile id ab f (get_lefile id wb f true d).1 ∙ lemeta-get_lefile id wb f d

lemeta-fwrite :
    (id : ℕ) (f : LeFile) (bytes : Bytes) (d : Disk) → (fwrite id f bytes d).lemeta ≡ d.lemeta
unfolding fwrite
lemeta-fwrite id f bytes d = refl

lemeta-fwrite_u64 :
    (id : ℕ) (f : LeFile) (n : ℕ) (d : Disk) → (fwrite_u64 id f n d).lemeta ≡ d.lemeta
unfolding fwrite_u64
lemeta-fwrite_u64 id f n d = lemeta-fwrite id f (le_bytes 8 n) d

-- The file `f` of the thread `k` may change, and nothing else but its contents and folders.
pub record Touches (k : ℕ) (f : LeFile) (d d' : Disk) : Type 0 where
  pub lemeta : d'.lemeta ≡ d.lemeta
  pub others :
      (id : ℕ) (g : LeFile) → is_same id g k f ≡ false → read_file id g d' ≡ read_file id g d

pub lethread_save-Touches :
    (t : LeThread) (d : Disk)
    → IsString t.topic
    → (r : LeStatus × Disk) × (lethread_save t d ≡ ok r)
      × Touches t.id file_lethread d r.1
      × ((a : LeAuthor) → t.author ≡ some a → read_file t.id file_lethread r.1 ≡ lethread_bytes t a)
unfolding lethread_save saved fwrite_u64 fwrite
lethread_save-Touches t d str = elim (Option-cases t.author) [
  | inl unknown ↦ (
    (lestatus_idat, d),
    rw (lethread_save, unknown),
    record { lemeta = refl; others = λ id g o. refl },
    λ a known. absurd (let bad : none ≡ some a = rw unknown at known in cc),
  )
  | inr (a, known) ↦ (
    (lestatus_ok, saved t a d),
    lethread_save_lem t a d known str,
    record {
      lemeta = lemeta-reopen t.id file_lethread d;
      others = λ id g o.
          let u = read_file-fwrite_u64_other id g t.id file_lethread o in
          rw (
            read_file-fwrite_other id g t.id file_lethread o,
            u,
            u,
            u,
            u,
            u,
            read_file-reopen_other id g t.id file_lethread o,
          );
    },
    λ b known'.
        let p : a ≡ b = (let e : some a ≡ some b = rw known at known' in cc) in
        rw (← p) (read_file-saved t a d),
  )
]

pub leauthor_save-Touches :
    (t : LeThread) (d : Disk)
    → Touches t.id file_leauthor d (leauthor_save t d).1
      × ((a : LeAuthor)
          → t.author ≡ some a
          → length a.token ≡ token_size
          → read_file t.id file_leauthor (leauthor_save t d).1 ≡ leauthor_bytes a)
unfolding leauthor_save
leauthor_save-Touches t d = elim (Option-cases t.author) [
  | inl unknown ↦ (
    rw (leauthor_save, unknown) (record { lemeta = refl; others = λ id g o. refl }),
    λ a known. absurd (let bad : none ≡ some a = rw unknown at known in cc),
  )
  | inr (a, known) ↦
      let opened = reopen t.id file_leauthor d in
      let d1 = fwrite_u64 t.id file_leauthor a.id opened in
      let e : (leauthor_save t d).1 ≡ fwrite t.id file_leauthor (take token_size a.token) d1 =
        rw (leauthor_save, known) refl in
      (
        rw e (record {
          lemeta =
              lemeta-fwrite t.id file_leauthor (take token_size a.token) d1
              ∙ (lemeta-fwrite_u64 t.id file_leauthor a.id opened
                  ∙ lemeta-reopen t.id file_leauthor d);
          others = λ id g o. rw (
            read_file-fwrite_other id g t.id file_leauthor o,
            read_file-fwrite_u64_other id g t.id file_leauthor o,
            read_file-reopen_other id g t.id file_leauthor o,
          );
        }),
        λ b known' long.
            let p : a ≡ b = (let e : some a ≡ some b = rw known at known' in cc) in
            let whole : take token_size b.token ≡ b.token =
              take_of_le token_size b.token (omega arith) in
            rw (e, p, read_file-fwrite, read_file-fwrite_u64, read_file-reopen, whole),
      )
]

pub lemessage_save-Touches :
    (m : LeMessage) (d : Disk)
    → IsReady m
    → (d' : Disk) × (k : ℕ) × (lemessage_save m d ≡ ok (lestatus_ok, d'))
      × Touches k file_lemessages d d'
unfolding lemessage_save appended fwrite_u64 fwrite
lemessage_save-Touches m d ready =
    let (k, known) = ready.lethread in
    let opened = (get_lefile k ab file_lemessages true d).1 in
    (
      appended k m opened,
      k,
      rw (lemessage_save, known, fwrite_lemessage_lem k m opened ready.text),
      record {
        lemeta = lemeta-get_lefile k ab file_lemessages d;
        others = λ id g o.
            let u = read_file-fwrite_u64_other id g k file_lemessages o in
            let w = read_file-fwrite_other id g k file_lemessages o in
            rw (w, u, w, u, read_file-get_lefile_other id g k file_lemessages o ab d);
      },
    )
