-- ===== src/Clib/Infix.antt =====
-- When `strstr` finds a text.
use le_forum.Common.{
  ◌≡◌, refl, ap, true, false, [], ◌∷◌, ◌++◌, ◌==◌, ==_self, eq_of_==, Bool-cases, inl, inr, ◌↔◌,
}
use le_forum.Clib.Strings.{Bytes, is_prefix, is_infix}

is_prefix-append : (u b : Bytes) → is_prefix u (u ++ b) ≡ true
unfolding is_prefix
is_prefix-append [] b = refl
is_prefix-append (c ∷ u) b = rw (==_self c, is_prefix-append u b)

split_of_prefix : (u t : Bytes) → is_prefix u t ≡ true → (b : Bytes) × (t ≡ u ++ b)
unfolding is_prefix
split_of_prefix [] t h = (t, refl)
split_of_prefix (a ∷ u) [] h = cc
split_of_prefix (a ∷ u) (c ∷ t) h = elim (Bool-cases (a == c)) [
  | inl e ↦
      let (b, k) = split_of_prefix u t (rw e at h) in let same : a ≡ c = eq_of_== a c e in (b, cc)
  | inr e ↦ let f : false ≡ true = rw e at h in cc
]

split_of_infix :
    (u t : Bytes) → is_infix u t ≡ true → (a : Bytes) × (b : Bytes) × (t ≡ a ++ (u ++ b))
unfolding is_infix
split_of_infix u [] h = let (b, e) = split_of_prefix u [] h in ([], b, e)
split_of_infix u (c ∷ t) h = elim (Bool-cases (is_prefix u (c ∷ t))) [
  | inl e ↦ let (b, k) = split_of_prefix u (c ∷ t) e in ([], b, k)
  | inr e ↦
      let (a, b, k) = split_of_infix u t (rw e at h) in (c ∷ a, b, ap (λ (l : Bytes). c ∷ l) k)
]

infix_of_prefix : (u t : Bytes) → is_prefix u t ≡ true → is_infix u t ≡ true
unfolding is_infix
infix_of_prefix u [] h = h
infix_of_prefix u (c ∷ t) h = rw h

is_infix-append : (u a b : Bytes) → is_infix u (a ++ (u ++ b)) ≡ true
unfolding is_infix
is_infix-append u [] b = infix_of_prefix u (u ++ b) (is_prefix-append u b)
is_infix-append u (c ∷ a) b =
    let h = is_infix-append u a b in
    elim (Bool-cases (is_prefix u ((c ∷ a) ++ (u ++ b)))) [ inl e ↦ rw e | inr e ↦ rw e h ]

-- A text is found exactly if the other has it in it.
pub is_infix_iff :
    (u t : Bytes) → (is_infix u t ≡ true) ↔ ((a : Bytes) × (b : Bytes) × (t ≡ a ++ (u ++ b)))
is_infix_iff u t = (split_of_infix u t, λ (a, b, e). rw e (is_infix-append u a b))
