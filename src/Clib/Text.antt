-- ===== src/Clib/Text.antt =====
-- The text of a C string, as a function of the memory that a pointer points to.
use le_forum.Common.{
  ◌≡◌, refl, Bool, true, false, [], ◌∷◌, ◌++◌, arith, ◌==◌, ◌||◌, if◌then◌else◌, ==_of_ne,
  Bool-cases, inl, inr, length, ok,
}
use le_forum.Clib.Strings.{
  Bytes, IsText, strlen, strncpy, text_of, text_of-text, is_infix, strstr_found,
}

-- The bytes before the first zero.
unfoldable pub before_nul : Bytes → Bytes
before_nul [] = []
before_nul (c ∷ p) = if c == 0 then [] else c ∷ before_nul p

unfoldable pub has_nul : Bytes → Bool
has_nul [] = false
has_nul (c ∷ p) = c == 0 || has_nul p

-- The memory holds a C string.
abbrev pub IsString : Bytes → Type 0
IsString p = has_nul p ≡ true

pub strlen-before_nul : (p : Bytes) → IsString p → strlen p ≡ ok (length (before_nul p))
unfolding strlen before_nul has_nul
strlen-before_nul [] h = cc
strlen-before_nul (c ∷ p) h = elim (Bool-cases (c == 0)) [
  | inl e ↦ rw e
  | inr e ↦ rw (e, strlen-before_nul p (rw e at h))
]

pub strncpy-before_nul : (p : Bytes) → strncpy p (length (before_nul p)) ≡ ok (before_nul p)
unfolding strncpy before_nul
strncpy-before_nul [] = refl
strncpy-before_nul (c ∷ p) = ground (arith, strncpy-before_nul p)

pub before_nul-IsText : (p : Bytes) → IsText (before_nul p)
unfolding before_nul
before_nul-IsText [] = tt
before_nul-IsText (c ∷ p) = elim (Bool-cases (c == 0)) [
  | inl e ↦ rw e tt
  | inr e ↦ rw e (ground arith, before_nul-IsText p)
]

pub before_nul-text : (t r : Bytes) → IsText t → before_nul (t ++ (0 ∷ r)) ≡ t
unfolding before_nul
before_nul-text [] r h = refl
before_nul-text (c ∷ t) r (hc, h) = rw (==_of_ne hc, before_nul-text t r h)

pub has_nul-text : (t r : Bytes) → IsString (t ++ (0 ∷ r))
unfolding has_nul
has_nul-text [] r = refl
has_nul-text (c ∷ t) r = rw (has_nul-text t r) (ground arith)

pub text_of-before_nul : (p : Bytes) → IsString p → text_of p ≡ ok (before_nul p)
unfolding text_of before_nul has_nul
text_of-before_nul [] h = cc
text_of-before_nul (c ∷ p) h = elim (Bool-cases (c == 0)) [
  | inl e ↦ rw e
  | inr e ↦ rw (e, text_of-before_nul p (rw e at h))
]

-- `strstr` looks for the text in what stands before the terminator.
pub strstr_found_lem :
    (p u : Bytes)
    → IsString p
    → IsText u
    → strstr_found p (u ++ (0 ∷ [])) ≡ ok (is_infix u (before_nul p))
unfolding strstr_found
strstr_found_lem p u str h = rw (text_of-before_nul p str, text_of-text u [] h)

pub before_nul_all : (t : Bytes) → IsText t → before_nul t ≡ t
unfolding before_nul
before_nul_all [] h = refl
before_nul_all (c ∷ t) (hc, h) = rw (==_of_ne hc, before_nul_all t h)
