-- ===== src/Server/Response/Growth.antt =====
-- The growth of the allocation that a response is written into: it ends, and makes enough room.
use le_forum.Common.{
  ℕ, zero, suc, ◌*◌, ◌%◌, ◌^◌, ◌≤◌, ◌<◌, ◌≡◌, arith, leb, Outcome, ok, Bool-cases, inl, inr,
}
use native.Mathlib.Nat.{pow-suc}
use le_forum.Clib.Strings.{Bytes}
use le_forum.Clib.Words.{u64_mod}
use le_forum.Clib.Writer.{Buffer, buffer}
use le_forum.Server.Response.{reserve}

-- The loop ends within a round for each doubling, keeps what is written, and leaves more than
-- `size` bytes of room.
abbrev pub Reserved : Bytes → ℕ → Outcome (ℕ × Buffer) → Type 0
Reserved w size r =
    (chunk : ℕ) × (capacity : ℕ) × (r ≡ ok (chunk, buffer w capacity))
    × (size < chunk)
    × (chunk ≤ capacity)

pow_step : (fuel chunk : ℕ) → chunk * 2 ^ suc fuel ≡ chunk * 2 * 2 ^ fuel
pow_step fuel chunk = rw pow-suc (grind arith)

pub reserve_lem :
    (fuel size chunk : ℕ) (w : Bytes) (capacity : ℕ)
    → 0 < chunk
    → chunk ≤ capacity
    → size < 2 ^ 62
    → size < chunk * 2 ^ fuel
    → Reserved w size (reserve (suc fuel) size chunk (buffer w capacity))
unfolding reserve
reserve_lem zero size chunk w capacity hc hb hs hf =
    (chunk, capacity, ground arith, omega arith, hb)
reserve_lem (suc fuel) size chunk w capacity hc hb hs hf = elim (Bool-cases (leb chunk size)) [
  | inl e ↦
      let small : chunk ≤ size = ground arith in
      let same : chunk * 2 % u64_mod ≡ chunk * 2 = omega arith in
      rw (e, same)
        (reserve_lem fuel size (chunk * 2) w (chunk * 2) (omega arith) (omega arith) hs
          (omega (arith, pow_step fuel chunk)))
  | inr e ↦ (chunk, capacity, rw e, ground arith, hb)
]
