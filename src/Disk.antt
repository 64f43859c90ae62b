-- ===== src/Disk.antt =====
-- The files of the server: one folder for each thread, and the calls of the C library on them. The
-- path `DIR_SERVER "<id>/"` stands for the id, and the three file names for themselves.
pub mod Files
pub mod Others
use le_forum.Common.{
  ℕ, zero, suc, ◌≡◌, refl, [], ◌∷◌, ◌++◌, Option, none, some, Bool, true, false, ◌==◌,
  if◌then◌else◌, not, ◌&&◌, length, ap, arith,
}
use le_forum.Clib.Strings.{Bytes}
use le_forum.Conf.{LeStatus, lestatus_ok, lestatus_nsfd}

-- FILE_LETHREAD, FILE_LEMESSAGES and FILE_LEAUTHOR.
pub data LeFile : Type 0 where
  file_lethread file_lemessages file_leauthor : LeFile

-- The modes of `fopen` that are used.
pub data Mode : Type 0 where
  rb wb ab : Mode

-- The files of a folder that are there.
abbrev pub Folder : Type 0
Folder = LeFile → Option Bytes

pub record Disk : Type 0 where
  pub folders : ℕ → Option Folder
  pub lemeta : Option Bytes

unfoldable pub same_file : LeFile → LeFile → Bool
same_file file_lethread file_lethread = true
same_file file_lemessages file_lemessages = true
same_file file_leauthor file_leauthor = true
same_file _ _ = false

abbrev is_missing : {A : Type 0} → Option A → Bool
is_missing none = true
is_missing (some _) = false

-- What a file holds; no bytes, if it is not there.
unfoldable pub read_file : ℕ → LeFile → Disk → Bytes
read_file id f d = elim (d.folders id) [
  | none ↦ []
  | some folder ↦ elim (folder f) [ none ↦ [] | some bytes ↦ bytes ]
]

unfoldable pub file_exists : ℕ → LeFile → Disk → Bool
file_exists id f d = elim (d.folders id) [
  | none ↦ false
  | some folder ↦ not (is_missing (folder f))
]

-- Sets the contents of one file, in a folder that is there or is made.
unfoldable pub write_file : ℕ → LeFile → Bytes → Disk → Disk
unfolding same_file
write_file id f bytes d =
    let old : Folder = elim (d.folders id) [ none ↦ (λ g. none) | some folder ↦ folder ] in
    record d {
      folders = λ k.
          if k == id then some (λ g. if same_file g f then some bytes else old g) else d.folders k;
    }

-- `fopen`: "wb" empties the file, "ab" makes it if need be, "rb" changes nothing.
unfoldable pub fopen : ℕ → Mode → LeFile → Disk → Disk
unfolding write_file
fopen id rb f d = d
fopen id wb f d = write_file id f [] d
fopen id ab f d = write_file id f (read_file id f d) d

-- `fwrite` to a file that was opened with "wb" or "ab": at its end.
unfoldable pub fwrite : ℕ → LeFile → Bytes → Disk → Disk
unfolding write_file
fwrite id f bytes d = write_file id f (read_file id f d ++ bytes) d

-- `mkdir(path, 0700)`, on a folder that is not there.
unfoldable pub mkdir : ℕ → Disk → Disk
mkdir id d = record d { folders = λ k. if k == id then some (λ g. none) else d.folders k }

-- get_lefile of src/server/forum_io.c: the status, and the disk with the file opened.
unfoldable pub get_lefile : ℕ → Mode → LeFile → Bool → Disk → LeStatus × Disk
get_lefile id mode f create d = elim (d.folders id) [
  | none ↦ if not create then (lestatus_nsfd, d) else (lestatus_ok, fopen id mode f (mkdir id d))
  | some folder ↦
      if is_missing (folder f) && not create
      then (lestatus_nsfd, d)
      else (lestatus_ok, fopen id mode f d)
]

-- `fread(p, 1, n, file)` into zeroed memory: `n` bytes, those past the end of the file zero.
unfoldable pub fread_text : ℕ → Bytes → Bytes
fread_text zero file = []
fread_text (suc n) [] = 0 ∷ fread_text n []
fread_text (suc n) (b ∷ file) = b ∷ fread_text n file

pub fread_text-append : (t rest : Bytes) → fread_text (length t) (t ++ rest) ≡ t
unfolding fread_text
fread_text-append [] rest = refl
fread_text-append (b ∷ t) rest = ap (λ (l : Bytes). b ∷ l) (fread_text-append t rest)
