-- ===== src/Adnl/Call.antt =====
-- Calls that wait: a future may be dropped at any point where it waits, and then it returns nothing
-- and leaves the state as it stood there.
use ton_net.Base.{Option, none, some}
use ton_net.Base.Result.{Result, ok, err}

-- none for a call that was dropped.
abbrev pub Call : Type 0 → Type 0 → Type 0 → Type 0
Call E S A = S → Option (Result E A) × S

module _ {E S A : Type 0} where
  abbrev pub pure : A → Call E S A
  pure a s = (some (ok a), s)

  abbrev pub raise : E → Call E S A
  raise e s = (some (err e), s)

-- What follows a step.
unfoldable pub then_call :
    {E S A B : Type 0} → Option (Result E A) × S → (A → Call E S B) → Option (Result E B) × S
then_call (none, s) f = (none, s)
then_call (some (err e), s) f = (some (err e), s)
then_call (some (ok a), s) f = f a s

infixl 5 ◌>>=◌ ◌>>◌
abbrev pub ◌>>=◌ : {E S A B : Type 0} → Call E S A → (A → Call E S B) → Call E S B
◌>>=◌ m f s = then_call (m s) f

abbrev pub ◌>>◌ : {E S B : Type 0} → Call E S (Unit {0}) → Call E S B → Call E S B
m >> k = m >>= λ _. k
