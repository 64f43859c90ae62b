-- ===== src/Clib/Strings.antt =====
-- strlen, strncmp, strncpy and strstr of the C library.
use Prim.Native.Char.{code}
use Prim.Native.String.{String}
use le_forum.Common.{
  ℕ, zero, suc, ◌≡◌, ◌≢◌, refl, Bool, true, false, List, [], ◌∷◌, ◌++◌, arith, ◌==◌, ◌≤◌, ◌&&◌,
  ◌||◌, length-replicate, if◌then◌else◌, ==_self, ==_of_ne, Bool-cases, inl, inr, length, All,
  replicate, Outcome, ok, fault, ap,
}
use le_forum.Common.Result.{◌>>=◌}

abbrev pub Bytes : Type 0
Bytes = List ℕ

-- The characters of a literal, without its terminator.
abbrev pub codes : String → Bytes
codes String.[] = []
codes (String.◌∷◌ c s) = code c ∷ codes s

abbrev pub IsChar : ℕ → Type 0
IsChar c = c ≢ 0

-- The text of a C string: no byte of it is the terminator.
abbrev pub IsText : Bytes → Type 0
IsText = All IsChar

unfoldable pub strlen : Bytes → Outcome ℕ
strlen [] = fault
strlen (c ∷ p) = if c == 0 then ok 0 else (do n ← strlen p; ok (suc n))

-- `strncmp(p, q, n) == 0`
unfoldable pub strncmp_eq : Bytes → Bytes → ℕ → Outcome Bool
strncmp_eq p q zero = ok true
strncmp_eq [] q (suc n) = fault
strncmp_eq (a ∷ p) [] (suc n) = fault
strncmp_eq (a ∷ p) (b ∷ q) (suc n) =
    if a == b then (if a == 0 then ok true else strncmp_eq p q n) else ok false

-- The `n` bytes that `strncpy(_, p, n)` writes.
unfoldable pub strncpy : Bytes → ℕ → Outcome Bytes
strncpy p zero = ok []
strncpy [] (suc n) = fault
strncpy (c ∷ p) (suc n) =
    if c == 0 then ok (replicate (suc n) 0) else (do cs ← strncpy p n; ok (c ∷ cs))

-- The characters before the terminator.
unfoldable pub text_of : Bytes → Outcome Bytes
text_of [] = fault
text_of (c ∷ p) = if c == 0 then ok [] else (do t ← text_of p; ok (c ∷ t))

unfoldable pub is_prefix : Bytes → Bytes → Bool
is_prefix [] t = true
is_prefix (a ∷ u) [] = false
is_prefix (a ∷ u) (b ∷ t) = a == b && is_prefix u t

unfoldable pub is_infix : Bytes → Bytes → Bool
unfolding is_prefix
is_infix u [] = is_prefix u []
is_infix u (b ∷ t) = is_prefix u (b ∷ t) || is_infix u t

-- `strstr(p, q) != NULL`
unfoldable pub strstr_found : Bytes → Bytes → Outcome Bool
unfolding text_of is_infix
strstr_found p q = do t ← text_of p; u ← text_of q; ok (is_infix u t)

pub strlen-text : (t r : Bytes) → IsText t → strlen (t ++ (0 ∷ r)) ≡ ok (length t)
unfolding strlen
strlen-text [] r h = refl
strlen-text (c ∷ t) r (hc, h) = rw (==_of_ne hc, strlen-text t r h)

pub text_of-text : (t r : Bytes) → IsText t → text_of (t ++ (0 ∷ r)) ≡ ok t
unfolding text_of
text_of-text [] r h = refl
text_of-text (c ∷ t) r (hc, h) = rw (==_of_ne hc, text_of-text t r h)

pub strncmp_eq_self : (t p q : Bytes) → IsText t → strncmp_eq (t ++ p) (t ++ q) (length t) ≡ ok true
unfolding strncmp_eq
strncmp_eq_self [] p q h = refl
strncmp_eq_self (c ∷ t) p q (hc, h) = rw (==_self, ==_of_ne hc) (strncmp_eq_self t p q h)

pub strncpy-text : (t r : Bytes) → IsText t → strncpy (t ++ r) (length t) ≡ ok t
unfolding strncpy
strncpy-text [] r h = refl
strncpy-text (c ∷ t) r (hc, h) = rw (==_of_ne hc, strncpy-text t r h)

-- No access outside the object, if that many bytes are there.
pub strncpy_safe :
    (p : Bytes) (n : ℕ) → n ≤ length p → (cs : Bytes) × (strncpy p n ≡ ok cs) × (length cs ≡ n)
unfolding strncpy
strncpy_safe p zero h = ([], refl, refl)
strncpy_safe [] (suc n) h = absurd (omega arith)
strncpy_safe (c ∷ p) (suc n) h = elim (Bool-cases (c == 0)) [
  | inl e ↦ (replicate (suc n) 0, rw e, length-replicate (suc n) 0)
  | inr e ↦ let (cs, q, l) = strncpy_safe p n (omega arith) in (c ∷ cs, rw (e, q), ap suc l)
]

pub strncmp_eq_safe :
    (p q : Bytes) (n : ℕ) → n ≤ length p → n ≤ length q → (b : Bool) × (strncmp_eq p q n ≡ ok b)
unfolding strncmp_eq
strncmp_eq_safe p q zero h k = (true, refl)
strncmp_eq_safe [] q (suc n) h k = absurd (omega arith)
strncmp_eq_safe (a ∷ p) [] (suc n) h k = absurd (omega arith)
strncmp_eq_safe (a ∷ p) (b ∷ q) (suc n) h k = elim (Bool-cases (a == b)) [
  | inl e ↦ elim (Bool-cases (a == 0)) [
    | inl z ↦ (true, rw (e, z))
    | inr z ↦ let (r, s) = strncmp_eq_safe p q n (omega arith) (omega arith) in (r, rw (e, z) s)
  ]
  | inr e ↦ (false, rw e)
]
