-- ===== src/Disk/Files.antt =====
-- Reading what was written, and what a write leaves alone.
use le_forum.Common.{Option-cases, ℕ, ◌≡◌, refl, [], ◌++◌, true, false, arith, none, inl, inr}
use le_forum.Clib.Strings.{Bytes}
use le_forum.Conf.{lestatus_ok, lestatus_nsfd}
use le_forum.Disk.{
  Disk, LeFile, file_lethread, file_lemessages, file_leauthor, Mode, rb, wb, ab, get_lefile, fopen,
  fwrite, read_file, write_file, file_exists, same_file, mkdir,
}

same_file_self : (f : LeFile) → same_file f f ≡ true
unfolding same_file
same_file_self file_lethread = refl
same_file_self file_lemessages = refl
same_file_self file_leauthor = refl

module _ (id : ℕ) (f : LeFile) where
  read_file-write_file : (bs : Bytes) (d : Disk) → read_file id f (write_file id f bs d) ≡ bs
  unfolding read_file write_file
  read_file-write_file bs d = ground (arith, same_file_self f)

  file_exists-write_file : (bs : Bytes) (d : Disk) → file_exists id f (write_file id f bs d) ≡ true
  unfolding file_exists write_file
  file_exists-write_file bs d = ground (arith, same_file_self f)

  pub read_file-fwrite :
      (bs : Bytes) (d : Disk) → read_file id f (fwrite id f bs d) ≡ read_file id f d ++ bs
  unfolding fwrite
  read_file-fwrite bs d = read_file-write_file (read_file id f d ++ bs) d

  pub file_exists-fwrite : (bs : Bytes) (d : Disk) → file_exists id f (fwrite id f bs d) ≡ true
  unfolding fwrite
  file_exists-fwrite bs d = file_exists-write_file (read_file id f d ++ bs) d

  -- Opened for reading, a file that is there is found and nothing changes.
  pub get_lefile-rb :
      (d : Disk) → file_exists id f d ≡ true → get_lefile id rb f false d ≡ (lestatus_ok, d)
  unfolding get_lefile file_exists fopen
  get_lefile-rb d h = ground arith

  pub get_lefile-rb_missing :
      (d : Disk) → file_exists id f d ≡ false → get_lefile id rb f false d ≡ (lestatus_nsfd, d)
  unfolding get_lefile file_exists fopen
  get_lefile-rb_missing d h = ground arith

  -- `fopen` to write empties the file with "wb" and keeps it with "ab".
  read_file-fopen_wb : (d : Disk) → read_file id f (fopen id wb f d) ≡ []
  unfolding fopen
  read_file-fopen_wb d = read_file-write_file [] d

  read_file-fopen_ab : (d : Disk) → read_file id f (fopen id ab f d) ≡ read_file id f d
  unfolding fopen
  read_file-fopen_ab d = read_file-write_file (read_file id f d) d

  read_file-mkdir :
      (d : Disk) → d.folders id ≡ none → read_file id f (mkdir id d) ≡ read_file id f d
  unfolding read_file mkdir
  read_file-mkdir d e = ground arith

  -- The folder is made if need be, and the file is opened.
  get_lefile-create :
      (mode : Mode) (d : Disk)
      → (d' : Disk) × (get_lefile id mode f true d ≡ (lestatus_ok, fopen id mode f d'))
        × (read_file id f d' ≡ read_file id f d)
  unfolding get_lefile
  get_lefile-create mode d = elim (Option-cases (d.folders id)) [
    | inl e ↦ (mkdir id d, rw (get_lefile, e), read_file-mkdir d e)
    | inr (folder, e) ↦ (d, ground arith, refl)
  ]

  pub read_file-wb : (d : Disk) → read_file id f (get_lefile id wb f true d).1 ≡ []
  read_file-wb d = let (d', e, same) = get_lefile-create wb d in rw e (read_file-fopen_wb d')

  pub read_file-ab : (d : Disk) → read_file id f (get_lefile id ab f true d).1 ≡ read_file id f d
  read_file-ab d = let (d', e, same) = get_lefile-create ab d in rw (e, read_file-fopen_ab d') same
