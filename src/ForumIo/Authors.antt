-- ===== src/ForumIo/Authors.antt =====
-- Authors on disk.
use le_forum.Common.{
  drop_of_le, ◌%◌, ◌+◌, drop, length-append, drop-append_of_length, ℕ, ◌^◌, ◌<◌, ◌≡◌, [], ◌∷◌, ◌++◌,
  arith, some, none, true, ok, length, append-nil, take, take_of_le,
}
use le_forum.Clib.Strings.{Bytes}
use le_forum.Clib.Words.{u64_mod, le_bytes, le_value-le_bytes, length-le_bytes}
use le_forum.Conf.{lestatus_ok}
use le_forum.Security.{Entropy, rand_uint64_t}
use le_forum.Forum.{LeThread, LeAuthor, leauthor_create, token_size}
use le_forum.Disk.{
  Disk, file_leauthor, fwrite, read_file, file_exists, fread_text, fread_text-append,
}
use le_forum.Disk.Files.{read_file-fwrite, file_exists-fwrite, get_lefile-rb}
use le_forum.ForumIo.{fwrite_u64, reopen, leauthor_save, leauthor_load, fread_over}
use le_forum.ForumIo.RoundTrip.{read_file-reopen, read_file-fwrite_u64}

-- The file of an author.
abbrev pub leauthor_bytes : LeAuthor → Bytes
leauthor_bytes author = le_bytes 8 author.id ++ author.token

-- An author as it is loaded: the token with a terminator behind it.
abbrev pub reload_author : LeAuthor → LeAuthor
reload_author author = record author { token = author.token ++ (0 ∷ []) }

-- A whole file is read as before.
fread_over-le_bytes :
    (old n : ℕ) (rest : Bytes) → n < 256 ^ 8 → fread_over old (le_bytes 8 n ++ rest) ≡ ok n
unfolding fread_over
fread_over-le_bytes old n rest h =
    let size : length (le_bytes 8 n ++ rest) ≡ 8 + length rest =
      omega (arith, length-append (le_bytes 8 n) rest, length-le_bytes 8 n) in
    let over : drop (length (le_bytes 8 n ++ rest)) (le_bytes 8 old) ≡ [] =
      drop_of_le (length (le_bytes 8 n ++ rest)) (le_bytes 8 old)
        (omega (arith, size, length-le_bytes 8 old)) in
    rw (over, append-nil) (le_value-le_bytes 8 n rest h)

module _ (t : LeThread) (author : LeAuthor) (d : Disk) (r : ℕ) (e e' : Entropy)
    (fits : author.id < u64_mod) (long : length author.token ≡ token_size)
    (drawn : rand_uint64_t e ≡ ok (r, e')) where
  pub leauthor_load_lem :
      file_exists t.id file_leauthor d ≡ true
      → read_file t.id file_leauthor d ≡ leauthor_bytes author
      → leauthor_load t d e
        ≡ ok (lestatus_ok, record t { author = some (reload_author author) }, e')
  unfolding leauthor_load leauthor_create
  leauthor_load_lem there file =
      let found = get_lefile-rb t.id file_leauthor d there in
      let i : author.id < 256 ^ 8 = fits in
      let behind : drop 8 (le_bytes 8 author.id ++ author.token) ≡ author.token =
        drop-append_of_length (le_bytes 8 author.id) author.token (length-le_bytes 8 author.id) in
      let whole : fread_text token_size author.token ≡ author.token =
        rw (append-nil, long) at (fread_text-append author.token []) in
      rw (
        leauthor_load,
        found,
        leauthor_create,
        drawn,
        found,
        file,
        fread_over-le_bytes (r % 0xffff_ffff) author.id author.token i,
        behind,
        whole,
      )

module _ (t : LeThread) (author : LeAuthor) (known : t.author ≡ some author)
    (fits : author.id < u64_mod) (long : length author.token ≡ token_size) where
  pub leauthor_save_lem :
      (d : Disk)
      → (d' : Disk) × (leauthor_save t d ≡ (lestatus_ok, d'))
        × (read_file t.id file_leauthor d' ≡ leauthor_bytes author)
        × (file_exists t.id file_leauthor d' ≡ true)
  unfolding leauthor_save
  leauthor_save_lem d =
      let d1 = fwrite_u64 t.id file_leauthor author.id (reopen t.id file_leauthor d) in
      let whole : take token_size author.token ≡ author.token =
        take_of_le token_size author.token (omega arith) in
      (
        fwrite t.id file_leauthor (take token_size author.token) d1,
        rw (leauthor_save, known),
        rw (read_file-fwrite, read_file-fwrite_u64, read_file-reopen, whole),
        file_exists-fwrite t.id file_leauthor (take token_size author.token) d1,
      )

  -- For a thread with an author whose numbers fit 64 bits and whose token has 24 characters, on any
  -- disk, and a random number: `leauthor_save` succeeds, and `leauthor_load` from the disk it
  -- leaves gives the thread its author back, as `reload_author` has it, and takes one random
  -- number.
  pub leauthor_load-leauthor_save :
      (d : Disk) (r : ℕ) (e e' : Entropy)
      → rand_uint64_t e ≡ ok (r, e')
      → (d' : Disk) × (leauthor_save t d ≡ (lestatus_ok, d'))
        × (leauthor_load (record t { author = none }) d' e
            ≡ ok (lestatus_ok, record t { author = some (reload_author author) }, e'))
  leauthor_load-leauthor_save d r e e' drawn =
      let (d', saved, file, there) = leauthor_save_lem d in
      (
        d',
        saved,
        leauthor_load_lem (record t { author = none }) author d' r e e' fits long drawn there file,
      )
