-- ===== src/Util/Joining.antt =====
-- The joined strings.
use le_forum.Common.{
  ℕ, zero, suc, ◌+◌, ◌≤◌, ◌<◌, ◌≡◌, refl, [], ◌∷◌, ◌++◌, arith, ==_of_ne, ok, length, take, drop,
}
use le_forum.Clib.Strings.{Bytes, IsText}
use le_forum.Util.{copy_string, le_strcat, copy_some, le_strncat}

-- What `le_strncat` copies `n` characters of at most.
copy_some_lem :
    (n : ℕ) (u src room : Bytes)
    → IsText u
    → length (take n u) < length room
    → copy_some n room (u ++ (0 ∷ src))
      ≡ ok (length (take n u), take n u ++ (0 ∷ drop (suc (length (take n u))) room))
unfolding copy_some
copy_some_lem n u src [] h fits = absurd (omega arith)
copy_some_lem zero u src (d ∷ room) h fits = refl
copy_some_lem (suc n) [] src (d ∷ room) h fits = refl
copy_some_lem (suc n) (c ∷ u) src (d ∷ room) (hc, h) fits =
    rw (copy_some, ==_of_ne hc, copy_some_lem n u src room h (omega arith))

copy_string_lem :
    (u src room : Bytes)
    → IsText u
    → length u < length room
    → copy_string room (u ++ (0 ∷ src)) ≡ ok (length u, u ++ (0 ∷ drop (suc (length u)) room))
unfolding copy_string
copy_string_lem u src [] h fits = absurd (omega arith)
copy_string_lem [] src (d ∷ room) h fits = refl
copy_string_lem (c ∷ u) src (d ∷ room) (hc, h) fits =
    rw (copy_string, ==_of_ne hc, copy_string_lem u src room h (omega arith))

-- For two terminated strings, the first with room for the second behind it: `le_strcat` ends
-- without a fault, leaves the first string followed by the second and a terminator, changes nothing
-- behind it, and returns the offset of the terminator.
pub le_strcat_lem :
    (t u src room : Bytes)
    → IsText t
    → IsText u
    → length u ≤ length room
    → le_strcat (t ++ (0 ∷ room)) (u ++ (0 ∷ src))
      ≡ ok (length t + length u, t ++ (u ++ (0 ∷ drop (length u) room)))
unfolding le_strcat
le_strcat_lem [] u src room ht hu fits =
    let z : 0 + length u ≡ length u = omega arith in
    rw z (copy_string_lem u src (0 ∷ room) hu (omega arith))
le_strcat_lem (c ∷ t) u src room (hc, ht) hu fits =
    let z : suc (length t) + length u ≡ suc (length t + length u) = omega arith in
    rw (le_strcat, ==_of_ne hc, z, le_strcat_lem t u src room ht hu fits)

-- For two terminated strings, the first with room for the first `n` characters of the second behind
-- it: `le_strncat` ends without a fault, leaves the first string followed by those characters and a
-- terminator, changes nothing behind it, and returns the offset of the terminator.
pub le_strncat_lem :
    (t u src room : Bytes) (n : ℕ)
    → IsText t
    → IsText u
    → length (take n u) ≤ length room
    → le_strncat (t ++ (0 ∷ room)) (u ++ (0 ∷ src)) n
      ≡ ok (length t + length (take n u), t ++ (take n u ++ (0 ∷ drop (length (take n u)) room)))
unfolding le_strncat
le_strncat_lem [] u src room n ht hu fits =
    let z : 0 + length (take n u) ≡ length (take n u) = omega arith in
    rw z (copy_some_lem n u src (0 ∷ room) hu (omega arith))
le_strncat_lem (c ∷ t) u src room n (hc, ht) hu fits =
    let k = length (take n u) in
    let z : suc (length t) + k ≡ suc (length t + k) = omega arith in
    rw (le_strncat, ==_of_ne hc, z, le_strncat_lem t u src room n ht hu fits)
