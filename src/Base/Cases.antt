-- ===== src/Base/Cases.antt =====
-- Splits on optional values and conjunctions, and what two different values cannot equal.
use mathlib.Core.Path.{◌≡◌, refl}
use mathlib.Core.Logic.{◌≢◌, ◌⊎◌, inl, inr}
use mathlib.Core.Bool.{Bool, true, false, ◌&&◌}
use mathlib.Core.Option.{Option, none, some}
use native.Mathlib.Omega.{arith}

pub no : false ≢ true
no h = cc

pub both : (a b : Bool) → (a && b) ≡ true → (a ≡ true) × (b ≡ true)
both a b h = ground arith

module _ {A : Type 0} where
  -- `some`, at a type that is known.
  abbrev pub given : A → Option A
  given a = some a

  pub absent : {a : A} → none ≢ given a
  absent h = cc

  pub some_eq : {a b : A} → given a ≡ given b → a ≡ b
  some_eq h = cc

  pub some_or_none : (o : Option A) → (o ≡ none) ⊎ ((a : A) × (o ≡ some a))
  some_or_none none = inl refl
  some_or_none (some a) = inr (a, refl)
