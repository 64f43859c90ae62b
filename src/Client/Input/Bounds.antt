-- ===== src/Client/Input/Bounds.antt =====
-- What is typed stays inside its buffer.
use le_forum.Common.{
  length-append, ℕ, false, zero, suc, ◌+◌, ◌-◌, ◌≤◌, ◌<◌, ◌≡◌, [], ◌∷◌, ◌++◌, arith, Bool-cases,
  inl, inr, some, none, Option, ltb, lt→ltb, le→ltb, ok, length, append-nil,
}
use le_forum.Common.Command.{Run, done}
use le_forum.Conf.{LeStatus}
use le_forum.Clib.Strings.{Bytes}
use le_forum.Clib.Text.{before_nul}
use le_forum.Util.{newline, fgets, read_line, before_newline, s_fgets_range, range_loop}
use le_forum.Util.Lines.{
  IsLine, read_line_lem, length-before_newline, length-before_nul, s_fgets-line, read_line-line,
  before_newline-line, before_nul-line, too_short, read, s_fgets_range_lem,
}
use le_forum.Client.State.{LeClient}
use le_forum.Client.Input.{max, range_extent, get_line, get_range}

max_le : (a b n : ℕ) → a ≤ n → b ≤ n → max a b ≤ n
max_le a b n ha hb = ground arith

pub range_extent_le :
    (fuel min most size : ℕ) (input : Bytes)
    → size ≤ most
    → range_extent fuel min most size input ≤ most + 1
unfolding range_extent fgets
range_extent_le zero min most size input h = omega arith
range_extent_le (suc fuel) min most size [] h = elim (Bool-cases (ltb size min)) [
  | inl e ↦ rw e (omega arith)
  | inr e ↦ rw e (omega arith)
]
range_extent_le (suc fuel) min most size (b ∷ input) h = elim (Bool-cases (ltb size min)) [
  | inr e ↦ rw e (omega arith)
  | inl e ↦
      let (line, rest) = read_line (most + 1 - size - 1) (b ∷ input) in
      let (short, sum) = read_line_lem (most + 1 - size - 1) (b ∷ input) in
      let l1 = length-before_newline line in
      let l2 = length-before_nul (before_newline line) in
      rw e (
        max_le (size + suc (length line))
          (range_extent fuel min most (size + length (before_nul (before_newline line))) rest)
          (most + 1) (omega arith)
          (range_extent_le fuel min most (size + length (before_nul (before_newline line))) rest
            (omega arith)))
]

range_loop-line :
    (fuel min most : ℕ) (u rest : Bytes)
    → IsLine u
    → 0 < min
    → min ≤ length u
    → length u < most
    → range_loop (suc (suc fuel)) min most 0 (u ++ (newline ∷ rest)) ≡ ok (some u, rest)
unfolding range_loop
range_loop-line fuel min most u rest line pos lo hi =
    let same : 0 + length u ≡ length u = omega arith in
    rw (
      range_loop,
      s_fgets-line (most + 1 - 0) u rest line (omega arith),
      lt→ltb pos,
      same,
      le→ltb lo,
      append-nil,
    )

-- A line of an allowed size is what is read, and nothing behind it.
pub get_range-line :
    {P : Type 0} (c : LeClient P) (room min most : ℕ) (u rest : Bytes)
    → c.stdin ≡ u ++ (newline ∷ rest)
    → IsLine u
    → 0 < min
    → min ≤ length u
    → length u < most
    → most < room
    → get_range room min most c ≡ done (some u) (record c { stdin = rest })
unfolding get_range s_fgets_range
get_range-line c room min most u rest typed line pos lo hi fits =
    let n = length (u ++ (newline ∷ rest)) in
    let fuel : n + 2 ≡ suc (suc n) = omega arith in
    let inside : ltb room (range_extent (n + 2) min most 0 (u ++ (newline ∷ rest))) ≡ false =
      le→ltb
        (omega (arith, range_extent_le (n + 2) min most 0 (u ++ (newline ∷ rest)) (omega arith))) in
    rw (get_range, typed, inside, fuel, range_loop-line n min most u rest line pos lo hi)

-- The outcome of a prompt: an error, or a line of the sizes asked for.
pub data Typed {P : Type 0} (min most : ℕ) (c : LeClient P)
    (r : Run LeStatus (LeClient P) (Option Bytes)) : Type 0 where
  typed_wrong : (rest : Bytes) → r ≡ done none (record c { stdin = rest }) → Typed min most c r
  typed_line :
      (text rest : Bytes)
      → r ≡ done (some text) (record c { stdin = rest })
      → IsLine text
      → min ≤ length text
      → length text ≤ most
      → Typed min most c r

-- For `min` at most `most`, and a buffer with room for `most` characters and a terminator, on any
-- input: the prompt ends without a fault, with an error or with a line of `min` to `most`
-- characters, and changes nothing of the client but the input.
pub get_range_lem :
    {P : Type 0} (c : LeClient P) (room min most : ℕ)
    → min ≤ most
    → most < room
    → Typed min most c (get_range room min most c)
unfolding get_range
get_range_lem c room min most h fits =
    let inside : ltb room (range_extent (length c.stdin + 2) min most 0 c.stdin) ≡ false =
      le→ltb
        (omega (arith, range_extent_le (length c.stdin + 2) min most 0 c.stdin (omega arith))) in
    elim (s_fgets_range_lem min most c.stdin h) [
      | too_short rest e ↦ typed_wrong rest (rw (get_range, inside, e))
      | read text rest e is lo hi ↦
          typed_line text rest (rw (get_range, inside, e)) is (omega arith) (omega arith)
    ]

pub get_line-line :
    {P : Type 0} (c : LeClient P) (room n : ℕ) (u rest : Bytes)
    → c.stdin ≡ u ++ (newline ∷ rest)
    → IsLine u
    → suc (length u) < n
    → length u + 2 ≤ room
    → get_line room n c ≡ done u (record c { stdin = rest })
unfolding get_line fgets
get_line-line c room n [] rest typed text short fits =
    let inside : ltb room 2 ≡ false = le→ltb fits in
    rw (
      get_line,
      typed,
      read_line-line (n - 1) [] rest text (omega arith),
      inside,
      before_newline-line [] [] text,
      before_nul-line [] text,
    )
get_line-line c room n (b ∷ u) rest typed text short fits =
    let inside : ltb room (suc (length ((b ∷ u) ++ (newline ∷ [])))) ≡ false =
      le→ltb (omega (arith, length-append u (newline ∷ []))) in
    rw (
      get_line,
      typed,
      read_line-line (n - 1) (b ∷ u) rest text (omega arith),
      inside,
      before_newline-line (b ∷ u) [] text,
      before_nul-line (b ∷ u) text,
    )
