-- ===== src/Util/Lines.antt =====
-- What `s_fgets_range` reads.
use le_forum.Common.{
  ℕ, zero, suc, ◌+◌, ◌-◌, ◌≤◌, ◌<◌, ◌≡◌, ◌≢◌, refl, [], ◌∷◌, ◌++◌, arith, ltb, ◌==◌, ==_of_ne,
  Bool-cases, inl, inr, Option, some, none, Outcome, ok, length, length-append, All, All-append,
}
use le_forum.Clib.Strings.{Bytes, IsText}
use le_forum.Clib.Text.{before_nul, before_nul_all}
use le_forum.Util.{newline, read_line, fgets, before_newline, s_fgets, range_loop, s_fgets_range}

pub read_line_lem :
    (n : ℕ) (input : Bytes)
    → (length (read_line n input).0 ≤ n)
      × (length (read_line n input).0 + length (read_line n input).1 ≡ length input)
unfolding read_line
read_line_lem zero input = (omega arith, omega arith)
read_line_lem (suc n) [] = (omega arith, omega arith)
read_line_lem (suc n) (c ∷ input) =
    let (short, sum) = read_line_lem n input in
    elim (Bool-cases (c == newline)) [
      | inl e ↦ rw e (omega arith, omega arith)
      | inr e ↦ rw e (omega arith, omega arith)
    ]

-- With room for one character a byte is taken at least.
read_line-less :
    (n c : ℕ) (input : Bytes) → 1 ≤ n → length (read_line n (c ∷ input)).1 < length (c ∷ input)
unfolding read_line
read_line-less zero c input h = absurd (omega arith)
read_line-less (suc n) c input h =
    let (short, sum) = read_line_lem n input in
    elim (Bool-cases (c == newline)) [ inl e ↦ rw e (omega arith) | inr e ↦ rw e (omega arith) ]

-- A line of text: neither a terminator nor a newline.
abbrev pub IsLine : Bytes → Type 0
IsLine = All (λ c. (c ≢ 0) × (c ≢ newline))

pub IsLine-IsText : (u : Bytes) → IsLine u → IsText u
IsLine-IsText [] h = tt
IsLine-IsText (c ∷ u) ((nz, nn), h) = (nz, IsLine-IsText u h)

-- A line is read with its end, and nothing behind it.
pub read_line-line :
    (n : ℕ) (u rest : Bytes)
    → IsLine u
    → length u < n
    → read_line n (u ++ (newline ∷ rest)) ≡ (u ++ (newline ∷ []), rest)
unfolding read_line
read_line-line zero u rest h fits = absurd (omega arith)
read_line-line (suc n) [] rest h fits = refl
read_line-line (suc n) (c ∷ u) rest ((nz, nn), h) fits =
    rw (==_of_ne nn, read_line-line n u rest h (omega arith))

pub read_line-end : (n : ℕ) (u : Bytes) → IsLine u → length u ≤ n → read_line n u ≡ (u, [])
unfolding read_line
read_line-end zero [] h fits = refl
read_line-end zero (c ∷ u) h fits = absurd (omega arith)
read_line-end (suc n) [] h fits = refl
read_line-end (suc n) (c ∷ u) ((nz, nn), h) fits =
    rw (==_of_ne nn, read_line-end n u h (omega arith))

pub before_newline-line : (u s : Bytes) → IsLine u → before_newline (u ++ (newline ∷ s)) ≡ u
unfolding before_newline
before_newline-line [] s h = refl
before_newline-line (c ∷ u) s ((nz, nn), h) = rw (==_of_ne nn, before_newline-line u s h)

before_newline_all : (u : Bytes) → IsLine u → before_newline u ≡ u
unfolding before_newline
before_newline_all [] h = refl
before_newline_all (c ∷ u) ((nz, nn), h) = rw (==_of_ne nn, before_newline_all u h)

pub before_nul-line : (u : Bytes) → IsLine u → before_nul u ≡ u
before_nul-line u h = before_nul_all u (IsLine-IsText u h)

pub s_fgets-line :
    (n : ℕ) (u rest : Bytes)
    → IsLine u
    → suc (length u) < n
    → s_fgets n (u ++ (newline ∷ rest)) ≡ some (u, rest)
unfolding s_fgets fgets before_nul before_newline
s_fgets-line n [] rest h fits = rw (read_line-line (n - 1) [] rest tt (omega arith))
s_fgets-line n (c ∷ u) rest h fits = rw (
  read_line-line (n - 1) (c ∷ u) rest h (omega arith),
  before_newline-line (c ∷ u) [] h,
  before_nul-line (c ∷ u) h,
)

-- The last line may have no end.
pub s_fgets-end :
    (n c : ℕ) (u : Bytes)
    → IsLine (c ∷ u)
    → length (c ∷ u) < n
    → s_fgets n (c ∷ u) ≡ some (c ∷ u, [])
unfolding s_fgets fgets
s_fgets-end n c u h fits = rw (
  read_line-end (n - 1) (c ∷ u) h (omega arith),
  before_newline_all (c ∷ u) h,
  before_nul-line (c ∷ u) h,
)

before_newline_lem : (line : Bytes) → All (λ c. c ≢ newline) (before_newline line)
unfolding before_newline
before_newline_lem [] = tt
before_newline_lem (c ∷ line) = elim (Bool-cases (c == newline)) [
  | inl e ↦ rw e tt
  | inr e ↦ rw e (ground arith, before_newline_lem line)
]

before_nul-IsLine : (line : Bytes) → All (λ c. c ≢ newline) line → IsLine (before_nul line)
unfolding before_nul
before_nul-IsLine [] h = tt
before_nul-IsLine (c ∷ line) (hc, h) = elim (Bool-cases (c == 0)) [
  | inl e ↦ rw e tt
  | inr e ↦ rw e ((ground arith, hc), before_nul-IsLine line h)
]

pub length-before_newline : (line : Bytes) → length (before_newline line) ≤ length line
unfolding before_newline
length-before_newline [] = omega arith
length-before_newline (c ∷ line) = ground (arith, length-before_newline line)

pub length-before_nul : (line : Bytes) → length (before_nul line) ≤ length line
unfolding before_nul
length-before_nul [] = omega arith
length-before_nul (c ∷ line) = ground (arith, length-before_nul line)

-- What a call of `s_fgets` gives.
data Line (n : ℕ) (input : Bytes) (r : Option (Bytes × Bytes)) : Type 0 where
  at_end : r ≡ none → Line n input r
  a_line :
      (text rest : Bytes)
      → r ≡ some (text, rest)
      → IsLine text
      → length text + 1 ≤ n
      → length rest < length input
      → Line n input r

s_fgets-Line : (n : ℕ) (input : Bytes) → 2 ≤ n → Line n input (s_fgets n input)
unfolding s_fgets fgets read_line
s_fgets-Line n [] h = at_end refl
s_fgets-Line n (c ∷ input) h =
    let (line, rest) = read_line (n - 1) (c ∷ input) in
    let (short, sum) = read_line_lem (n - 1) (c ∷ input) in
    let text = before_nul (before_newline line) in
    let l1 = length-before_newline line in
    let l2 = length-before_nul (before_newline line) in
    a_line text rest refl (before_nul-IsLine (before_newline line) (before_newline_lem line))
      (omega arith) (read_line-less (n - 1) c input (omega arith))

-- What the loop adds to `size` characters.
pub data Read (min max size : ℕ) (r : Outcome (Option Bytes × Bytes)) : Type 0 where
  too_short : (rest : Bytes) → r ≡ ok (none, rest) → Read min max size r
  read :
      (text rest : Bytes)
      → r ≡ ok (some text, rest)
      → IsLine text
      → min ≤ size + length text
      → size + length text ≤ max
      → Read min max size r

range_loop-Read :
    (fuel min max size : ℕ) (input : Bytes)
    → min ≤ max
    → size ≤ max
    → length input + 1 < fuel
    → Read min max size (range_loop fuel min max size input)
unfolding range_loop
range_loop-Read zero min max size input hm hs hf = absurd (omega arith)
range_loop-Read (suc fuel) min max size input hm hs hf = elim (Bool-cases (ltb size min)) [
  | inr e ↦
      let enough : min ≤ size = ground (arith, e) in
      read [] input (rw (range_loop, e)) tt (omega arith) (omega arith)
  | inl e ↦
      let few : size < min = ground (arith, e) in
      elim (s_fgets-Line (max + 1 - size) input (omega arith)) [
        | at_end r ↦ too_short input (rw (range_loop, e, r))
        | a_line text rest r line fits less ↦
            elim (range_loop-Read fuel min max (size + length text) rest hm (omega arith)
              (omega arith)) [
                | too_short rest' r' ↦ too_short rest' (rw (range_loop, e, r, r'))
                | read more rest' r' line' lo hi ↦
                    read (text ++ more) rest' (rw (range_loop, e, r, r'))
                      (All-append (λ c. (c ≢ 0) × (c ≢ newline)) text more line line')
                      (omega (arith, length-append text more))
                      (omega (arith, length-append text more))
              ]
      ]
]

pub s_fgets_range_lem :
    (min max : ℕ) (input : Bytes) → min ≤ max → Read min max 0 (s_fgets_range min max input)
unfolding s_fgets_range
s_fgets_range_lem min max input h =
    range_loop-Read (length input + 2) min max 0 input h (omega arith) (omega arith)
