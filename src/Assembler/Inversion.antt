-- ===== src/Assembler/Inversion.antt =====
-- What a result of the assembler's chains says of their parts.
use tms32010_sv.Base.{◌≡◌, ◌≢◌, refl, Bool, true, false}
use tms32010_sv.Database.{ok, failed}
use tms32010_sv.Assembler.Source.{SourceLine, AssemblyError, Asm, Reason, ◌>>=◌, require}

module _ {A : Type 0} where
  abbrev returns : A → Asm A
  returns a = ok a

  abbrev raises : AssemblyError → Asm A
  raises e = failed e

  pub not_raised : {e : AssemblyError} {a : A} → raises e ≢ returns a
  not_raised h = cc

  pub same_value : {a b : A} → returns a ≡ returns b → a ≡ b
  same_value h = cc

pub bind-ok :
    {A B : Type 0} {m : Asm A} {f : A → Asm B} {b : B}
    → (m >>= f) ≡ ok b
    → (a : A) × (m ≡ ok a) × (f a ≡ ok b)
unfolding ◌>>=◌
bind-ok {m = ok a} h = (a, refl, h)
bind-ok {m = failed e} h = absurd (not_raised h)

pub require-ok :
    (line : SourceLine) {test : Bool} (reason : Reason) {u : Unit {0}}
    → require line test reason ≡ ok u
    → test ≡ true
unfolding require
require-ok line {test = true} reason h = refl
require-ok line {test = false} reason h = absurd (not_raised h)

pub ok-bind :
    {A B : Type 0} {m : Asm A} (f : A → Asm B) {a : A} {b : B}
    → m ≡ ok a
    → f a ≡ ok b
    → (m >>= f) ≡ ok b
unfolding ◌>>=◌
ok-bind {m = ok x} f first second = rw (same_value first) second
ok-bind {m = failed e} f first second = absurd (not_raised first)
