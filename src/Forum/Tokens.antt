-- ===== src/Forum/Tokens.antt =====
-- Whether a token is that of the author.
use le_forum.Common.{
  append-nil, ℕ, ◌-◌, ◌≡◌, refl, [], ◌∷◌, ◌++◌, arith, some, none, Bool, true, false, ok, length,
  ◌↔◌, inl, inr, ◌==◌, ==_of_ne, eq_of_==, Bool-cases, if◌then◌else◌, ◌≢◌,
}
use le_forum.Clib.Strings.{Bytes, IsText, strncmp_eq}
use le_forum.Clib.Words.{u32_mod}
use le_forum.Forum.{LeThread, LeAuthor, is_token_valid, token_size}

-- Texts of one length compare equal exactly if they are equal.
pub strncmp_eq_iff :
    (t u p q : Bytes)
    → IsText t
    → length t ≡ length u
    → (b : Bool) × (strncmp_eq (t ++ p) (u ++ q) (length t) ≡ ok b) × ((b ≡ true) ↔ (t ≡ u))
unfolding strncmp_eq
strncmp_eq_iff [] [] p q ht l = (true, refl, ((λ _. refl), (λ _. refl)))
strncmp_eq_iff [] (b ∷ u) p q ht l = absurd (omega arith)
strncmp_eq_iff (a ∷ t) [] p q ht l = absurd (omega arith)
strncmp_eq_iff (a ∷ t) (b ∷ u) p q (ha, ht) l = elim (Bool-cases (a == b)) [
  | inl e ↦
      let (r, s, i) = strncmp_eq_iff t u p q ht (omega arith) in
      let same : a ≡ b = eq_of_== a b e in
      (r, rw (e, ==_of_ne ha) s, ((λ h. cc (same, i.0 h)), (λ h. i.1 (ground (arith, h)))))
  | inr e ↦ (false, rw e, ((λ h. cc), (λ h. ground (arith, h))))
]

module _ (t : LeThread) (author : LeAuthor) (known : t.author ≡ some author) where
  -- For a thread with a known author whose token has 24 characters, `is_token_valid` on 24 bytes,
  -- whatever stands behind them, is 1 or 0, and is 1 if and only if they are the author's token.
  pub is_token_valid_iff :
      (token r : Bytes)
      → IsText author.token
      → length author.token ≡ token_size
      → length token ≡ token_size
      → (b : Bool) × (is_token_valid t (token ++ r) ≡ ok (if b then 1 else 0))
        × ((b ≡ true) ↔ (author.token ≡ token))
  unfolding is_token_valid
  is_token_valid_iff token r h e f =
      let (b, s, i) = strncmp_eq_iff author.token token [] r h (omega arith) in
      let s' : strncmp_eq author.token (token ++ r) token_size ≡ ok b = rw (append-nil, e) at s in
      (b, rw (known, s'), i)

-- For a thread with no author in memory, `is_token_valid` returns a value that is not 0 for every
-- token, which a caller takes as true.
pub is_token_valid_unknown :
    (t : LeThread) (token : Bytes)
    → t.author ≡ none
    → (flag : ℕ) × (is_token_valid t token ≡ ok flag) × (flag ≢ 0)
unfolding is_token_valid
is_token_valid_unknown t token e = (u32_mod - 7, rw e, omega arith)
