-- ===== src/Common/Result.antt =====
-- The outcome of C code that works on memory.
use mathlib.Core.Path.{◌≡◌, refl}

-- `fault` is undefined behaviour: an access outside an object, or the use of a value that was never
-- written. `hang` is a loop that has not come to its end.
pub data Outcome (A : Type 0) : Type 0 where
  ok : A → Outcome A
  fault : Outcome A
  hang : Outcome A

infixl 5 ◌>>=◌
abbrev pub ◌>>=◌ : {A B : Type 0} → Outcome A → (A → Outcome B) → Outcome B
ok a >>= f = f a
fault >>= f = fault
hang >>= f = hang

-- A sequence that gives a value: its first step gives one, and the rest gives the value.
pub >>=-eq-ok :
    {A B : Type 0} (step : Outcome A) (rest : A → Outcome B) {b : B}
    → (step >>= rest) ≡ ok b
    → (a : A) × (step ≡ ok a) × (rest a ≡ ok b)
>>=-eq-ok (ok a) rest given = (a, refl, given)
>>=-eq-ok fault rest given = cc
>>=-eq-ok hang rest given = cc
