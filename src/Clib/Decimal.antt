-- ===== src/Clib/Decimal.antt =====
-- Decimal numbers as the C library prints and reads them: "%" PRIu64, "%hd", strtoull, atoi and the
-- "%hd" of sscanf. Numbers with a sign are given in two's complement.
pub mod RoundTrip
use le_forum.Common.{
  ℕ, zero, suc, ◌+◌, ◌-◌, ◌*◌, ◌/◌, ◌%◌, ◌^◌, List, [], ◌∷◌, ◌++◌, Bool, true, false, ◌&&◌, ◌||◌,
  Option, none, some, ltb, leb, ◌==◌, if◌then◌else◌, Outcome, ok, fault,
}
use le_forum.Clib.Strings.{Bytes}

abbrev pub minus : ℕ
minus = 45

-- The last `k` digits at most, without zeros in front.
unfoldable pub digits : ℕ → ℕ → Bytes
digits zero n = []
digits (suc k) n =
    let rest = digits k (n / 10) in if ltb n 10 then (48 + n) ∷ [] else rest ++ ((48 + n % 10) ∷ [])

-- 2 ^ 64 is below 10 ^ 20.
unfoldable pub print_u64 : ℕ → Bytes
print_u64 n = digits 20 n

-- A 16-bit number is printed as a signed one.
unfoldable pub print_hd : ℕ → Bytes
print_hd n = if ltb n (2 ^ 15) then digits 5 n else minus ∷ digits 5 (2 ^ 16 - n)

abbrev pub is_digit : ℕ → Bool
is_digit c = leb 48 c && leb c 57

unfoldable pub read_digits : ℕ → Bytes → ℕ
read_digits v [] = v
read_digits v (c ∷ s) =
    let more = read_digits (v * 10 + (c - 48)) s in if is_digit c then more else v

abbrev pub is_space : ℕ → Bool
is_space c = c == 32 || leb 9 c && leb c 13

unfoldable pub skip_spaces : Bytes → Bytes
skip_spaces [] = []
skip_spaces (c ∷ s) = let rest = skip_spaces s in if is_space c then rest else c ∷ s

-- A sign, if there is one, and the rest.
unfoldable pub read_sign : Bytes → Bool × Bytes
read_sign [] = (false, [])
read_sign (c ∷ s) =
    if c == minus then (true, s) else (if c == 43 then (false, s) else (false, c ∷ s))

unfoldable pub strtoull : Bytes → ℕ
unfolding read_digits skip_spaces read_sign
strtoull text =
    let (negative, s) = read_sign (skip_spaces text) in
    let v = read_digits 0 s in
    if leb (2 ^ 64) v then 2 ^ 64 - 1 else (if negative then (2 ^ 64 - v) % 2 ^ 64 else v)

-- The behaviour on a number that is no `int` is undefined.
unfoldable pub atoi : Bytes → Outcome ℕ
unfolding read_digits skip_spaces read_sign
atoi text =
    let (negative, s) = read_sign (skip_spaces text) in
    let v = read_digits 0 s in
    if negative
    then (if leb v (2 ^ 31) then ok ((2 ^ 32 - v) % 2 ^ 32) else fault)
    else (if ltb v (2 ^ 31) then ok v else fault)

abbrev pub starts_digit : Bytes → Bool
starts_digit [] = false
starts_digit (c ∷ s) = is_digit c

-- `none` where there is no number.
unfoldable pub scan_hd : Bytes → Option ℕ
unfolding read_digits skip_spaces read_sign
scan_hd text =
    let (negative, s) = read_sign (skip_spaces text) in
    let v = read_digits 0 s % 2 ^ 16 in
    if starts_digit s then some (if negative then (2 ^ 16 - v) % 2 ^ 16 else v) else none
