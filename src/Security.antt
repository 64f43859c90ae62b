-- ===== src/Security.antt =====
-- Random values: src/lib/security.c. The bytes that /dev/urandom will give are a list; when the list
-- is used up, the read waits.
use le_forum.Common.{
  ℕ, zero, suc, ◌+◌, ◌%◌, ◌≡◌, ◌≤◌, List, [], ◌∷◌, arith, length, ltb, if◌then◌else◌, drop, All, ap,
  refl, Outcome, ok, fault, hang,
}
use le_forum.Common.Result.{◌>>=◌, >>=-eq-ok}
use le_forum.Clib.Strings.{Bytes}
use le_forum.Clib.Words.{le_value, le_value_safe}

abbrev pub Entropy : Type 0
Entropy = List ℕ

abbrev allowed_symbols : ℕ
allowed_symbols = 94

abbrev min_symbol : ℕ
min_symbol = 0x21

-- The `while (tmp < MIN_SYMBOL)` loop for one character.
unfoldable pub rand_char : Entropy → Outcome (ℕ × Entropy)
rand_char [] = hang
rand_char (tmp ∷ e) =
    let again = rand_char e in
    if ltb tmp min_symbol then again else ok (tmp % allowed_symbols + min_symbol, e)

unfoldable pub rand_string : ℕ → Entropy → Outcome (Bytes × Entropy)
unfolding rand_char
rand_string zero e = ok ([], e)
rand_string (suc n) e = do (c, e) ← rand_char e; (str, e) ← rand_string n e; ok (c ∷ str, e)

wait : {A : Type 0} → Outcome A → Outcome A
wait (ok a) = ok a
wait fault = hang
wait hang = hang

unfoldable pub rand_uint64_t : Entropy → Outcome (ℕ × Entropy)
unfolding wait
rand_uint64_t e = do tmp ← wait (le_value 8 e); ok (tmp, drop 8 e)

-- A printable ASCII character other than the space.
abbrev pub IsPrintable : ℕ → Type 0
IsPrintable c = (33 ≤ c) × (c ≤ 126)

rand_char-IsPrintable :
    (e : Entropy) (c : ℕ) (e' : Entropy) → rand_char e ≡ ok (c, e') → IsPrintable c
unfolding rand_char
rand_char-IsPrintable [] c e' h = cc
rand_char-IsPrintable (tmp ∷ e) c e' h = ground (arith, rand_char-IsPrintable e c e')

-- Every string that `rand_string` returns has the size asked for, and each of its characters is
-- from 33 to 126.
pub rand_string-IsPrintable :
    (n : ℕ) (e : Entropy) (str : Bytes) (e' : Entropy)
    → rand_string n e ≡ ok (str, e')
    → (length str ≡ n) × All IsPrintable str
unfolding rand_string
rand_string-IsPrintable zero e str e' h = let p : [] ≡ str = cc in rw (← p) (refl, tt)
rand_string-IsPrintable (suc n) e str e' h =
    let ((c, e1), hc, h1) = >>=-eq-ok (rand_char e) _ h in
    let ((s, e2), hs, h2) = >>=-eq-ok (rand_string n e1) _ h1 in
    let p : c ∷ s ≡ str = cc in
    let (l, a) = rand_string-IsPrintable n e1 s e2 hs in
    rw (← p) (ap suc l, (rand_char-IsPrintable e c e1 hc, a))

-- Eight bytes are enough for a number.
pub draw : (e : Entropy) → 8 ≤ length e → (r : ℕ) × (rand_uint64_t e ≡ ok (r, drop 8 e))
unfolding rand_uint64_t wait
draw e h = let (v, d) = le_value_safe 8 e h in (v, rw d)
