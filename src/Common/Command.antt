-- ===== src/Common/Command.antt =====
-- Commands on a state that may return early with a status.
use le_forum.Common.Result.{Outcome, ok}

-- `exit e s` is `return e;` on the way through a function, in the state `s`.
pub data Run (E S A : Type 0) : Type 0 where
  done : A → S → Run E S A
  exit : E → S → Run E S A
  fault : Run E S A
  hang : Run E S A

abbrev pub Cmd : Type 0 → Type 0 → Type 0 → Type 0
Cmd E S A = S → Run E S A

module _ {E S : Type 0} where
  abbrev pub and_then : {A B : Type 0} → Run E S A → (A → Cmd E S B) → Run E S B
  and_then (done a s) f = f a s
  and_then (exit e s) f = exit e s
  and_then fault f = fault
  and_then hang f = hang

  infixl 5 ◌>>=◌ ◌>>◌
  abbrev pub ◌>>=◌ : {A B : Type 0} → Cmd E S A → (A → Cmd E S B) → Cmd E S B
  m >>= f = λ s. and_then (m s) f

  abbrev pub ◌>>◌ : {A B : Type 0} → Cmd E S A → Cmd E S B → Cmd E S B
  m >> k = m >>= λ _. k

  abbrev pub pure : {A : Type 0} → A → Cmd E S A
  pure = done

  abbrev pub get : Cmd E S S
  get s = done s s

  abbrev pub put : S → Cmd E S (Unit {0})
  put s _ = done tt s

  -- A step on memory alone.
  abbrev pub lift : {A : Type 0} → Outcome A → Cmd E S A
  lift (ok a) s = done a s
  lift Outcome.fault s = fault
  lift Outcome.hang s = hang
