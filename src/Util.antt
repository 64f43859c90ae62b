-- ===== src/Util.antt =====
-- Reading lines and joining strings: src/lib/util.h and src/lib/util.c. The input is the list of the
-- bytes to come; behind them is the end of the file.
pub mod Lines
pub mod Joining
use le_forum.Common.{
  ℕ, zero, suc, ◌+◌, ◌-◌, List, [], ◌∷◌, ◌++◌, Option, none, some, ltb, ◌==◌, if◌then◌else◌,
  Outcome, ok, fault, hang, length,
}
use le_forum.Common.Result.{◌>>=◌}
use le_forum.Clib.Strings.{Bytes}
use le_forum.Clib.Text.{before_nul}

abbrev pub newline : ℕ
newline = 10

-- `n` characters at most, up to the first newline and with it, and the input behind them.
unfoldable pub read_line : ℕ → Bytes → Bytes × Bytes
read_line zero input = ([], input)
read_line (suc n) [] = ([], [])
read_line (suc n) (c ∷ input) =
    let (line, rest) = read_line n input in
    if c == newline then (c ∷ [], input) else (c ∷ line, rest)

-- `fgets(s, n, fd)`; `none` is NULL, at the end of the file.
unfoldable pub fgets : ℕ → Bytes → Option (Bytes × Bytes)
unfolding read_line
fgets n [] = none
fgets n (c ∷ input) = some (read_line (n - 1) (c ∷ input))

-- The part before the first newline.
unfoldable pub before_newline : Bytes → Bytes
before_newline [] = []
before_newline (c ∷ line) = if c == newline then [] else c ∷ before_newline line

-- The string that `s_fgets` leaves, whose length it returns, and the input; `none` is -LESTATUS_CLIB.
unfoldable pub s_fgets : ℕ → Bytes → Option (Bytes × Bytes)
unfolding fgets before_newline
s_fgets n input = elim (fgets n input) [
  | none ↦ none
  | some (line, rest) ↦ some (before_nul (before_newline line), rest)
]

abbrev pub append_line :
    (ℕ → Bytes → Outcome (Option Bytes × Bytes))
    → ℕ
    → Bytes
    → Option (Bytes × Bytes)
    → Outcome (Option Bytes × Bytes)
append_line loop size input none = ok (none, input)
append_line loop size input (some (text, rest)) = do
  (more, rest) ← loop (size + length text) rest
  ok (elim more [ none ↦ none | some u ↦ some (text ++ u) ], rest)

-- The loop of `s_fgets_range`, with `size` characters read before: the characters that it adds.
unfoldable pub range_loop : ℕ → ℕ → ℕ → ℕ → Bytes → Outcome (Option Bytes × Bytes)
range_loop zero min max size input = hang
range_loop (suc fuel) min max size input =
    let more = append_line (range_loop fuel min max) size input (s_fgets (max + 1 - size) input) in
    if ltb size min then more else ok (some [], input)

-- The string, whose length `s_fgets_range` returns; `none` is -LESTATUS_IDAT. Where `max` leaves room, a
-- round takes one byte of the input at least.
unfoldable pub s_fgets_range : ℕ → ℕ → Bytes → Outcome (Option Bytes × Bytes)
s_fgets_range min max input = range_loop (length input + 2) min max 0 input

-- `while ((*dest++ = *src++) != '\0');`, and the number of characters before the terminator.
unfoldable pub copy_string : Bytes → Bytes → Outcome (ℕ × Bytes)
copy_string [] src = fault
copy_string (d ∷ dest) [] = fault
copy_string (d ∷ dest) (c ∷ src) =
    if c == 0 then ok (0, 0 ∷ dest) else (do (n, dest) ← copy_string dest src; ok (suc n, c ∷ dest))

-- The offset of the end in `dest`, which is returned, and the memory of `dest`.
unfoldable pub le_strcat : Bytes → Bytes → Outcome (ℕ × Bytes)
le_strcat [] src = fault
le_strcat (d ∷ dest) src =
    if d == 0
    then copy_string (d ∷ dest) src
    else (do (n, dest) ← le_strcat dest src; ok (suc n, d ∷ dest))

-- `for (i = 0; i < n && src[i] != '\0'; i++) *dest++ = src[i]; *dest = '\0';`
unfoldable pub copy_some : ℕ → Bytes → Bytes → Outcome (ℕ × Bytes)
copy_some n [] src = fault
copy_some zero (d ∷ dest) src = ok (0, 0 ∷ dest)
copy_some (suc n) (d ∷ dest) [] = fault
copy_some (suc n) (d ∷ dest) (c ∷ src) =
    if c == 0 then ok (0, 0 ∷ dest) else (do (k, dest) ← copy_some n dest src; ok (suc k, c ∷ dest))

unfoldable pub le_strncat : Bytes → Bytes → ℕ → Outcome (ℕ × Bytes)
le_strncat [] src n = fault
le_strncat (d ∷ dest) src n =
    if d == 0
    then copy_some n (d ∷ dest) src
    else (do (k, dest) ← le_strncat dest src n; ok (suc k, d ∷ dest))
