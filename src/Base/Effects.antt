-- ===== src/Base/Effects.antt =====
-- Python exceptions over a mutated object: a call returns a value and the object, or raises with the
-- object as it stood when the exception was raised.
use mathlib.Core.Bool.{Bool, true, false}

pub data Outcome (S E A : Type 0) : Type 0 where
  done : A → S → Outcome S E A
  raised : E → S → Outcome S E A

-- A method that mutates a state `S`, may raise `E` and returns `A`.
abbrev pub Method : Type 0 → Type 0 → Type 0 → Type 0
Method S E A = S → Outcome S E A

module _ {S E : Type 0} where
  infixl 5 ◌>>=◌ ◌>>◌
  abbrev pub ◌>>=◌ : {A B : Type 0} → Method S E A → (A → Method S E B) → Method S E B
  ◌>>=◌ m f s = elim (m s) [ done a t ↦ f a t | raised e t ↦ raised e t ]

  abbrev pub ◌>>◌ : {B : Type 0} → Method S E (Unit {0}) → Method S E B → Method S E B
  m >> k = m >>= λ _. k

  abbrev pub pure : {A : Type 0} → A → Method S E A
  pure a s = done a s

  abbrev pub raise : {A : Type 0} → E → Method S E A
  raise e s = raised e s

  -- `if not test: raise e`.
  abbrev pub require : Bool → E → Method S E (Unit {0})
  require true e s = done tt s
  require false e s = raised e s

  abbrev pub get : Method S E S
  get s = done s s

  abbrev pub modify : (S → S) → Method S E (Unit {0})
  modify f s = done tt (f s)
