-- ===== src/Client/Input.antt =====
-- What is typed: the lines that the commands of src/client/client.c read into their buffers.
pub mod Bounds
pub mod Overrun
use le_forum.Common.{
  ℕ, zero, suc, ◌+◌, ◌-◌, ◌<◌, [], Option, none, some, ltb, if◌then◌else◌, Outcome, ok, fault,
  length,
}
use le_forum.Common.Command.{Run, ◌>>=◌, get, put, lift, pure}
use le_forum.Clib.Strings.{Bytes}
use le_forum.Clib.Text.{before_nul}
use le_forum.Util.{fgets, before_newline, s_fgets_range}
use le_forum.Client.State.{LeClient, ClientCmd}

abbrev pub max : ℕ → ℕ → ℕ
max a b = if ltb a b then b else a

-- What one line writes behind `size` characters, and the lines after it, which `rest` gives.
abbrev pub line_extent : (ℕ → Bytes → ℕ) → ℕ → Option (Bytes × Bytes) → ℕ
line_extent rest size none = 0
line_extent rest size (some (line, input)) =
    max (size + suc (length line)) (rest (size + length (before_nul (before_newline line))) input)

-- How many bytes of its buffer `s_fgets_range` writes, with `size` characters before.
unfoldable pub range_extent : ℕ → ℕ → ℕ → ℕ → Bytes → ℕ
unfolding fgets before_newline
range_extent zero min most size input = 0
range_extent (suc fuel) min most size input =
    let all = line_extent (range_extent fuel min most) size (fgets (most + 1 - size) input) in
    if ltb size min then all else 0

module _ {P : Type 0} where
  -- `s_fgets(buf, n, stdin)` into a buffer of `room` bytes that is read next: at the end of the input
  -- it is not written.
  unfoldable pub get_line : (room n : ℕ) → ClientCmd P Bytes
  unfolding fgets before_newline
  get_line room n c = elim (fgets n c.stdin) [
    | none ↦ Run.fault
    | some (line, rest) ↦
        if ltb room (suc (length line))
        then Run.fault
        else Run.done (before_nul (before_newline line)) (record c { stdin = rest })
  ]

  -- `s_fgets_range(buf, min, most, stdin)` into a buffer of `room` bytes; `none` is -LESTATUS_IDAT.
  unfoldable pub get_range : (room min most : ℕ) → ClientCmd P (Option Bytes)
  unfolding range_extent s_fgets_range
  get_range room min most c =
      let read = (do
        (text, rest) ← lift (s_fgets_range min most c.stdin)
        _ ← put (record c { stdin = rest })
        pure text) in
      if ltb room (range_extent (length c.stdin + 2) min most 0 c.stdin) then Run.fault else read c
