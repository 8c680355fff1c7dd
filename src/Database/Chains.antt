-- ===== src/Database/Chains.antt =====
-- Chains of calls that may raise, for every type of errors, and what a result says of their parts.
use tms32010_sv.Base.{◌≡◌, ◌≢◌, ◌⊎◌, inl, inr, refl}
use tms32010_sv.Database.{Checked, ok, failed}

infixl 5 ◌>>=◌
unfoldable pub ◌>>=◌ : {E A B : Type 0} → Checked E A → (A → Checked E B) → Checked E B
m >>= f = elim m [ ok a ↦ f a | failed e ↦ failed e ]

module _ {E A : Type 0} where
  abbrev pub returns : A → Checked E A
  returns a = ok a

  abbrev pub raises : E → Checked E A
  raises e = failed e

  pub not_raised : {e : E} {a : A} → raises e ≢ returns a
  not_raised h = cc

  pub same_value : {a b : A} → returns a ≡ returns b → a ≡ b
  same_value h = cc

  pub outcome_cases : (d : Checked E A) → ((e : E) × (d ≡ failed e)) ⊎ ((a : A) × (d ≡ ok a))
  outcome_cases (failed e) = inl (e, refl)
  outcome_cases (ok a) = inr (a, refl)

pub bind-ok :
    {E A B : Type 0} {m : Checked E A} {f : A → Checked E B} {b : B}
    → (m >>= f) ≡ ok b
    → (a : A) × (m ≡ ok a) × (f a ≡ ok b)
unfolding ◌>>=◌
bind-ok {m = ok a} h = (a, refl, h)
bind-ok {m = failed e} h = absurd (not_raised h)
