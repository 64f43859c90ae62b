-- ===== src/Disk/Others.antt =====
-- What a write leaves of the other files.
use le_forum.Common.{
  Option-cases, Bool-cases, ℕ, ◌≡◌, refl, ◌∙◌, [], ◌++◌, Bool, true, false, arith, none, inl, inr,
  ◌==◌, ◌&&◌,
}
use le_forum.Clib.Strings.{Bytes}
use le_forum.Disk.{
  Disk, LeFile, Mode, rb, wb, ab, get_lefile, fopen, fwrite, read_file, write_file, same_file,
  mkdir,
}

-- The file `f` of `id` is the file `g` of `k`.
abbrev pub is_same : ℕ → LeFile → ℕ → LeFile → Bool
is_same id f k g = id == k && same_file f g

module _ (id : ℕ) (f : LeFile) (k : ℕ) (g : LeFile) (other : is_same id f k g ≡ false) where
  read_file-write_file_other :
      (bs : Bytes) (d : Disk) → read_file id f (write_file k g bs d) ≡ read_file id f d
  unfolding read_file write_file
  read_file-write_file_other bs d = elim (Bool-cases (id == k)) [
    | inl e ↦ elim (Option-cases (d.folders k)) [
      | inl n ↦ ground (arith, other)
      | inr (folder, n) ↦ ground (arith, other)
    ]
    | inr e ↦ rw (read_file, e)
  ]

  pub read_file-fwrite_other :
      (bs : Bytes) (d : Disk) → read_file id f (fwrite k g bs d) ≡ read_file id f d
  unfolding fwrite
  read_file-fwrite_other bs d = read_file-write_file_other (read_file k g d ++ bs) d

  read_file-fopen_other :
      (mode : Mode) (d : Disk) → read_file id f (fopen k mode g d) ≡ read_file id f d
  unfolding fopen
  read_file-fopen_other rb d = refl
  read_file-fopen_other wb d = read_file-write_file_other [] d
  read_file-fopen_other ab d = read_file-write_file_other (read_file k g d) d

  read_file-mkdir_other :
      (d : Disk) → d.folders k ≡ none → read_file id f (mkdir k d) ≡ read_file id f d
  unfolding read_file mkdir
  read_file-mkdir_other d n = elim (Bool-cases (id == k)) [
    | inl e ↦ ground arith
    | inr e ↦ rw (read_file, e)
  ]

  pub read_file-get_lefile_other :
      (mode : Mode) (d : Disk) → read_file id f (get_lefile k mode g true d).1 ≡ read_file id f d
  unfolding get_lefile
  read_file-get_lefile_other mode d = elim (Option-cases (d.folders k)) [
    | inl n ↦
        rw (get_lefile, n) (read_file-fopen_other mode (mkdir k d) ∙ read_file-mkdir_other d n)
    | inr (folder, n) ↦
        let e : (get_lefile k mode g true d).1 ≡ fopen k mode g d = ground arith in
        rw e (read_file-fopen_other mode d)
  ]
