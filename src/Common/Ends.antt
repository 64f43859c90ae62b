-- ===== src/Common/Ends.antt =====
-- What holds where a command ends: a rule for each way to build one. A fault and a wait that never ends
-- are no ends.
use mathlib.Core.Path.{◌≡◌, refl}
use le_forum.Common.Result.{Outcome, ok}
use le_forum.Common.Command.{Run, done, exit, Cmd, and_then, lift}

-- Where the run returns, `Q` holds of the value and the state; where it leaves early, `P` holds.
pub data Ends {E S A : Type 0} (Q : A → S → Type 0) (P : S → Type 0) : Run E S A → Type 0 where
  ends_done : (a : A) (s : S) → Q a s → Ends Q P (done a s)
  ends_exit : (e : E) (s : S) → P s → Ends Q P (exit e s)
  ends_fault : Ends Q P Run.fault
  ends_hang : Ends Q P Run.hang

-- The state is the one before.
abbrev pub Stays : {E S A : Type 0} → S → Run E S A → Type 0
Stays {E} {S} {A} s r = Ends (λ (a : A) (s' : S). s' ≡ s) (λ (s' : S). s' ≡ s) r

module _ {E S A B : Type 0} where
  pub Ends-bind :
      {Q : A → S → Type 0} {R : B → S → Type 0} {P : S → Type 0} (r : Run E S A) (f : A → Cmd E S B)
      → Ends Q P r
      → ((a : A) (s : S) → Q a s → Ends R P (f a s))
      → Ends R P (and_then r f)
  Ends-bind _ f (ends_done a s q) k = k a s q
  Ends-bind _ f (ends_exit e s p) k = ends_exit e s p
  Ends-bind _ f ends_fault k = ends_fault
  Ends-bind _ f ends_hang k = ends_hang

  -- A step that leaves the state, and the rest from that state.
  pub Ends-step :
      {R : B → S → Type 0} {P : S → Type 0} (s : S) (r : Run E S A) (f : A → Cmd E S B)
      → Stays s r
      → P s
      → ((a : A) → Ends R P (f a s))
      → Ends R P (and_then r f)
  Ends-step {R} {P} s _ f (ends_done a s' same) p k = rw same (k a)
  Ends-step {R} {P} s _ f (ends_exit e s' same) p k = ends_exit e s' (rw same p)
  Ends-step s _ f ends_fault p k = ends_fault
  Ends-step s _ f ends_hang p k = ends_hang

  -- A step on memory alone.
  pub Ends-lift :
      {R : B → S → Type 0} {P : S → Type 0} (s : S) (o : Outcome A) (f : A → Cmd E S B)
      → ((a : A) → o ≡ ok a → Ends R P (f a s))
      → Ends R P (and_then (lift o s) f)
  Ends-lift s (ok a) f k = k a refl
  Ends-lift s Outcome.fault f k = ends_fault
  Ends-lift s Outcome.hang f k = ends_hang

module _ {E S A : Type 0} where
  pub Ends-weaken :
      {Q R : A → S → Type 0} {P T : S → Type 0} {r : Run E S A}
      → ((a : A) (s : S) → Q a s → R a s)
      → ((s : S) → P s → T s)
      → Ends Q P r
      → Ends R T r
  Ends-weaken f g (ends_done a s q) = ends_done a s (f a s q)
  Ends-weaken f g (ends_exit e s p) = ends_exit e s (g s p)
  Ends-weaken f g ends_fault = ends_fault
  Ends-weaken f g ends_hang = ends_hang

  pub Stays-lift : (s : S) (o : Outcome A) → Stays {E = E} s (lift o s)
  Stays-lift s (ok a) = ends_done a s refl
  Stays-lift s Outcome.fault = ends_fault
  Stays-lift s Outcome.hang = ends_hang
