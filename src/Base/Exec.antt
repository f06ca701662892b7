-- ===== src/Base/Exec.antt =====
-- Methods on `&mut self` that may return an error. What was written before the error stays
-- written, so the state comes back beside the error too.
use ton_net.Base.Result.{Result, ok, err}
use mathlib.Core.Bool.{Bool, true, false}

abbrev pub Exec : Type 0 → Type 0 → Type 0 → Type 0
Exec E S A = S → Result E A × S

module _ {E S A : Type 0} where
  abbrev pub pure : A → Exec E S A
  pure a s = (ok a, s)

  abbrev pub raise : E → Exec E S A
  raise e s = (err e, s)

  abbrev pub lift : Result E A → Exec E S A
  lift r s = (r, s)

-- `if refused { return Err(e); }`
abbrev pub refuse_if : {E S : Type 0} → Bool → E → Exec E S (Unit {0})
refuse_if true e s = (err e, s)
refuse_if false e s = (ok tt, s)

-- What follows a step that ended in a result and a state.
abbrev pub then_do : {E S A B : Type 0} → Result E A × S → (A → Exec E S B) → Result E B × S
then_do (ok a, s) f = f a s
then_do (err e, s) f = (err e, s)

infixl 5 ◌>>=◌ ◌>>◌
abbrev pub ◌>>=◌ : {E S A B : Type 0} → Exec E S A → (A → Exec E S B) → Exec E S B
◌>>=◌ m f s = then_do (m s) f

abbrev pub ◌>>◌ : {E S B : Type 0} → Exec E S (Unit {0}) → Exec E S B → Exec E S B
m >> k = m >>= λ _. k
