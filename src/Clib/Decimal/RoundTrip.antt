-- ===== src/Clib/Decimal/RoundTrip.antt =====
-- What is printed is read back.
use le_forum.Common.{
  ℕ, zero, suc, ◌+◌, ◌-◌, ◌*◌, ◌/◌, ◌%◌, ◌^◌, ◌≤◌, ◌<◌, ◌≡◌, refl, sym, ap, ◌∙◌, [], ◌∷◌, ◌++◌,
  arith, true, false, some, ltb, leb, Bool-cases, inl, inr, All, All-append,
}
use native.Mathlib.Nat.{pow-suc}
use le_forum.Clib.Strings.{Bytes}
use le_forum.Clib.Decimal.{
  digits, print_u64, print_hd, is_digit, read_digits, skip_spaces, read_sign, strtoull, scan_hd,
  starts_digit,
}

abbrev pub IsDigit : ℕ → Type 0
IsDigit c = (48 ≤ c) × (c ≤ 57)

pub digits-IsDigit : (k n : ℕ) → All IsDigit (digits k n)
unfolding digits
digits-IsDigit zero n = tt
digits-IsDigit (suc k) n = elim (Bool-cases (ltb n 10)) [
  | inl e ↦ rw e ((omega arith, ground (arith, e)), tt)
  | inr e ↦ rw e (
      All-append IsDigit (digits k (n / 10)) ((48 + n % 10) ∷ []) (digits-IsDigit k (n / 10))
        ((omega arith, omega arith), tt))
]

is_digit_lem : (c : ℕ) → IsDigit c → is_digit c ≡ true
is_digit_lem c (lo, hi) = ground arith

read_digits-append :
    (v : ℕ) (u s : Bytes) → All IsDigit u → read_digits v (u ++ s) ≡ read_digits (read_digits v u) s
unfolding read_digits
read_digits-append v [] s h = refl
read_digits-append v (c ∷ u) s (hc, h) =
    rw (is_digit_lem c hc) (read_digits-append (v * 10 + (c - 48)) u s h)

pub read_digits-digits : (k n : ℕ) → n < 10 ^ k → read_digits 0 (digits k n) ≡ n
unfolding digits read_digits
read_digits-digits zero n h = omega arith
read_digits-digits (suc k) n h = elim (Bool-cases (ltb n 10)) [
  | inl e ↦
      let few : n < 10 = ground (arith, e) in
      rw (e, is_digit_lem (48 + n) (omega arith, omega arith)) (omega arith)
  | inr e ↦
      rw
        (
          e,
          read_digits-append 0 (digits k (n / 10)) ((48 + n % 10) ∷ []) (digits-IsDigit k (n / 10)),
          read_digits-digits k (n / 10) (omega (arith, pow-suc 10 k)),
          is_digit_lem (48 + n % 10) (omega arith, omega arith),
        )
        (omega arith)
]

-- Different numbers are printed differently.
pub print_u64_inj : (n m : ℕ) → n < 2 ^ 64 → m < 2 ^ 64 → print_u64 n ≡ print_u64 m → n ≡ m
unfolding print_u64
print_u64_inj n m hn hm e =
    sym (read_digits-digits 20 n (omega arith))
    ∙ (ap (λ (u : Bytes). read_digits 0 u) e ∙ read_digits-digits 20 m (omega arith))

-- A number starts with a digit.
data Starts : Bytes → Type 0 where
  starts : (c : ℕ) (s : Bytes) → IsDigit c → Starts (c ∷ s)

Starts-append : {u : Bytes} (v : Bytes) → Starts u → Starts (u ++ v)
Starts-append v (starts c s h) = starts c (s ++ v) h

digits-Starts : (k n : ℕ) → Starts (digits (suc k) n)
unfolding digits
digits-Starts zero n = elim (Bool-cases (ltb n 10)) [
  | inl e ↦ rw e (starts (48 + n) [] (omega arith, ground (arith, e)))
  | inr e ↦ rw e (starts (48 + n % 10) [] (omega arith, omega arith))
]
digits-Starts (suc k) n = elim (Bool-cases (ltb n 10)) [
  | inl e ↦ rw e (starts (48 + n) [] (omega arith, ground (arith, e)))
  | inr e ↦ rw e (Starts-append ((48 + n % 10) ∷ []) (digits-Starts k (n / 10)))
]

read_sign-Starts : (u : Bytes) → Starts u → read_sign (skip_spaces u) ≡ (false, u)
unfolding read_sign skip_spaces
read_sign-Starts _ (starts c s (lo, hi)) = ground arith

starts_digit-Starts : (u : Bytes) → Starts u → starts_digit u ≡ true
starts_digit-Starts _ (starts c s h) = is_digit_lem c h

module _ (n : ℕ) (fits : n < 2 ^ 16) where
  pub scan_hd-print_hd : scan_hd (32 ∷ print_hd n) ≡ some n
  unfolding scan_hd print_hd skip_spaces read_sign
  scan_hd-print_hd = elim (Bool-cases (ltb n (2 ^ 15))) [
    | inl e ↦
        rw
          (
            e,
            read_sign-Starts (digits 5 n) (digits-Starts 4 n),
            read_digits-digits 5 n (omega arith),
            starts_digit-Starts (digits 5 n) (digits-Starts 4 n),
          )
          (ap (λ (v : ℕ). some v) (omega arith))
    | inr e ↦
        let big : 2 ^ 15 ≤ n = ground (arith, e) in
        rw
          (
            e,
            read_digits-digits 5 (2 ^ 16 - n) (omega arith),
            starts_digit-Starts (digits 5 (2 ^ 16 - n)) (digits-Starts 4 (2 ^ 16 - n)),
          )
          (ap (λ (v : ℕ). some v) (omega arith))
  ]

pub strtoull-print_u64 : (n : ℕ) → n < 2 ^ 64 → strtoull (print_u64 n) ≡ n
unfolding strtoull print_u64
strtoull-print_u64 n fits =
    let small : leb (2 ^ 64) n ≡ false = ground arith in
    rw (
      read_sign-Starts (digits 20 n) (digits-Starts 19 n),
      read_digits-digits 20 n (omega arith),
      small,
    )
