-- ===== src/Clib/Words.antt =====
-- Fixed-width integers in memory: `*(uint64_t *)p` and the like, in little-endian order.
use le_forum.Common.{
  ℕ, zero, suc, ◌+◌, ◌*◌, ◌/◌, ◌%◌, ◌^◌, ◌≤◌, ◌<◌, ◌≡◌, refl, List, [], ◌∷◌, ◌++◌, arith, length,
  Outcome, ok, fault, ap,
}
use native.Mathlib.Nat.{pow-suc}
use le_forum.Common.Result.{◌>>=◌}

-- The `k` bytes of an unsigned integer, lowest first.
unfoldable pub le_bytes : ℕ → ℕ → List ℕ
le_bytes zero n = []
le_bytes (suc k) n = (n % 256) ∷ le_bytes k (n / 256)

-- The integer in the `k` bytes that a pointer points to.
unfoldable pub le_value : ℕ → List ℕ → Outcome ℕ
le_value zero p = ok 0
le_value (suc k) [] = fault
le_value (suc k) (b ∷ p) = do v ← le_value k p; ok (b + 256 * v)

abbrev pub u64_mod : ℕ
u64_mod = 2 ^ 64

abbrev pub u32_mod : ℕ
u32_mod = 2 ^ 32

pub length-le_bytes : (k n : ℕ) → length (le_bytes k n) ≡ k
unfolding le_bytes
length-le_bytes zero n = refl
length-le_bytes (suc k) n = ap suc (length-le_bytes k (n / 256))

-- An integer that fits its width is read back.
pub le_value-le_bytes :
    (k n : ℕ) (rest : List ℕ) → n < 256 ^ k → le_value k (le_bytes k n ++ rest) ≡ ok n
unfolding le_value le_bytes
le_value-le_bytes zero n rest h = ap ok (omega arith)
le_value-le_bytes (suc k) n rest h =
    rw (le_value-le_bytes k (n / 256) rest (omega (arith, pow-suc 256 k))) (ap ok (omega arith))

pub le_value_safe : (k : ℕ) (p : List ℕ) → k ≤ length p → (v : ℕ) × (le_value k p ≡ ok v)
unfolding le_value
le_value_safe zero p h = (0, refl)
le_value_safe (suc k) [] h = absurd (omega arith)
le_value_safe (suc k) (b ∷ p) h =
    let (v, e) = le_value_safe k p (omega arith) in (b + 256 * v, rw e)
