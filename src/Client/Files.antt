-- ===== src/Client/Files.antt =====
-- The files of the client: tokens and the servers that were visited, from src/client/client.c. A file
-- is opened for reading where it is there; opening one to write to it does not fail.
pub mod Lookup
pub mod Tokens
pub mod Lines
pub mod History
use le_forum.Common.{
  ℕ, zero, suc, ◌+◌, List, [], ◌∷◌, ◌++◌, Option, none, some, Bool, true, false, ◌==◌, ◌&&◌, ltb,
  if◌then◌else◌, Outcome, ok, fault, hang, length,
}
use le_forum.Common.Result.{◌>>=◌}
use le_forum.Clib.Strings.{Bytes, codes}
use le_forum.Clib.Text.{before_nul}
use le_forum.Clib.Decimal.{print_u64, print_hd, scan_hd, is_space, skip_spaces}
use le_forum.Conf.{LeStatus, lestatus_ok, lestatus_exst, lestatus_nsfd, lestatus_idat}
use le_forum.Forum.{token_size}
use le_forum.Util.{read_line, before_newline, s_fgets}
use le_forum.Client.State.{LeClient, Files, HAddress}

unfoldable pub same_text : Bytes → Bytes → Bool
same_text [] [] = true
same_text [] (b ∷ v) = false
same_text (a ∷ u) [] = false
same_text (a ∷ u) (b ∷ v) = a == b && same_text u v

abbrev pub file_server_history : Bytes
file_server_history = codes "servers"

-- What `fopen(_, "r")` finds.
unfoldable pub get_leclient_file : Bytes → Files → Option Bytes
unfolding same_text
get_leclient_file filename [] = none
get_leclient_file filename ((name, bytes) ∷ files) =
    if same_text name filename then some bytes else get_leclient_file filename files

-- A file with new contents, added if it was not there.
unfoldable pub write_leclient_file : Bytes → Bytes → Files → Files
unfolding same_text
write_leclient_file filename new [] = (filename, new) ∷ []
write_leclient_file filename new ((name, bytes) ∷ files) =
    if same_text name filename
    then (name, new) ∷ files
    else (name, bytes) ∷ write_leclient_file filename new files

-- The characters before the terminator are printed to the file of the active thread.
unfoldable pub token_save : {P : Type 0} → Bytes → LeClient P → LeStatus × LeClient P
unfolding write_leclient_file
token_save token c =
    if c.active_thread_exists
    then (
      lestatus_ok,
      record c {
        files = write_leclient_file (print_u64 c.active_thread_id) (before_nul token) c.files;
      },
    )
    else (lestatus_idat, c)

-- What `s_fgets` leaves in zeroed memory, which nothing leaves as it was.
abbrev pub token_read : Option (Bytes × Bytes) → Bytes
token_read none = []
token_read (some (text, rest)) = text

-- The token, with its terminator, from its file.
abbrev pub loaded_token : Option Bytes → LeStatus × Option Bytes
loaded_token none = (lestatus_nsfd, none)
loaded_token (some bytes) =
    (lestatus_ok, some (token_read (s_fgets (token_size + 1) bytes) ++ (0 ∷ [])))

unfoldable pub token_load : {P : Type 0} → LeClient P → LeStatus × Option Bytes
token_load c =
    if c.active_thread_exists
    then loaded_token (get_leclient_file (print_u64 c.active_thread_id) c.files)
    else (lestatus_idat, none)

-- "%s %hd"
unfoldable pub formatted_address : Bytes → ℕ → Bytes
formatted_address addr port = addr ++ (32 ∷ print_hd port)

-- A line of any length, with its end; `none` is -1, at the end of the file.
unfoldable pub getline : Bytes → Option (Bytes × Bytes)
getline [] = none
getline (b ∷ file) = some (read_line (length (b ∷ file)) (b ∷ file))

-- The loop over the lines of the file, with a bound on its rounds: each takes a byte.
unfoldable pub contains_line : ℕ → Bytes → Bytes → Outcome Bool
unfolding getline
contains_line zero line file = hang
contains_line (suc fuel) line file = elim (getline file) [
  | none ↦ ok false
  | some (l, rest) ↦
      let more = contains_line fuel line rest in
      if same_text (before_nul (before_newline l)) line then ok true else more
]

-- A line at the end of the file.
abbrev pub with_line : Option Bytes → Bytes → Bytes
with_line none line = line ++ (10 ∷ [])
with_line (some bytes) line = bytes ++ (line ++ (10 ∷ []))

abbrev pub file_contains : Option Bytes → Bytes → Outcome Bool
file_contains none line = ok false
file_contains (some bytes) line = contains_line (suc (length bytes)) line bytes

-- The rest of `server_addr_save`.
abbrev pub save_line : Bool → Bytes → Option Bytes → Files → LeStatus × Files
save_line true line old files = (lestatus_exst, files)
save_line false line old files =
    (lestatus_ok, write_leclient_file file_server_history (with_line old line) files)

unfoldable pub server_addr_save : Bytes → ℕ → Files → Outcome (LeStatus × Files)
unfolding get_leclient_file contains_line formatted_address write_leclient_file
server_addr_save addr port files = do
  let line = formatted_address addr port
  let old = get_leclient_file file_server_history files
  contains ← file_contains old line
  ok (save_line contains line old files)

-- `sscanf(_, "%s …")`: the word, and what stands behind it.
unfoldable pub scan_word : Bytes → Bytes × Bytes
scan_word [] = ([], [])
scan_word (c ∷ s) =
    let (word, rest) = scan_word s in if is_space c then ([], c ∷ s) else (c ∷ word, rest)

-- `sscanf(tmp, "%s %hd", h_addr, &h_port)`. `h_addr` has 32 bytes. What is not converted keeps its
-- value; `none` is memory that was never written.
unfoldable pub scan_address : Bytes → Option Bytes × Option ℕ → Outcome (Option Bytes × Option ℕ)
unfolding scan_word
scan_address tmp (h_addr, h_port) =
    let (word, rest) = scan_word (skip_spaces tmp) in
    if length word == 0
    then ok (h_addr, h_port)
    else (if ltb (length word) 32
        then ok (some word, elim (scan_hd rest) [ none ↦ h_port | some port ↦ some port ])
        else fault)

abbrev pub new_haddress : Option Bytes × Option ℕ → Outcome HAddress
new_haddress (some addr, some port) = ok (record { addr = addr; port = port })
new_haddress (some addr, none) = fault
new_haddress (none, port) = fault

-- The loop over the lines, with a bound on its rounds: each takes a byte.
unfoldable pub history_rounds : ℕ → Bytes → Option Bytes × Option ℕ → Outcome (List HAddress)
unfolding scan_address
history_rounds zero file scanned = hang
history_rounds (suc fuel) file scanned = elim (s_fgets 64 file) [
  | none ↦ ok []
  | some (tmp, rest) ↦
      let more = (do
        scanned ← scan_address tmp scanned
        haddr ← new_haddress scanned
        haddrs ← history_rounds fuel rest scanned
        ok (haddr ∷ haddrs)) in
      if length tmp == 0 then ok [] else more
]

abbrev pub load_lines : Option Bytes → Outcome (Option (List HAddress))
load_lines none = ok none
load_lines (some bytes) = do
  haddrs ← history_rounds (suc (length bytes)) bytes (none, none)
  ok (some haddrs)

-- `none` is -LESTATUS_NSFD.
unfoldable pub server_addr_history_load : Files → Outcome (Option (List HAddress))
unfolding get_leclient_file history_rounds
server_addr_history_load files = load_lines (get_leclient_file file_server_history files)
