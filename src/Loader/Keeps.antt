-- ===== src/Loader/Keeps.antt =====
-- The models that the loader of sim/reference_models/tms32010_model.py leaves behind, whatever words it
-- is given.
use tms32010_sv.Base.{
  ℕ, suc, ◌≡◌, refl, sym, ap, ◌∙◌, arith, Bool, true, false, List, [], ◌∷◌, ltb, leb, leb→le,
  ltb→lt, Outcome, done, raised, require, ◌>>◌,
}
use tms32010_sv.Base.Int.{ℤ, pos, negsuc}
use tms32010_sv.Machine.{Model, State, program_words}
use tms32010_sv.WellFormed.{IsWellFormed, Kept, Kept-refl, Kept-trans, Kept-program}
use tms32010_sv.Interrupt.Laws.{IsScheduled}
use tms32010_sv.Loader.{LoadError, L, load_word, load_from, load_words}
use tms32010_sv.Loader.Laws.{assign-eq}

-- The object as a call leaves it, whether it returned or raised.
abbrev pub left_by : {E A : Type 0} → Outcome Model E A → Model
left_by (done _ m) = m
left_by (raised _ m) = m

-- A load leaves the registers as they are, and keeps what an instruction keeps.
abbrev pub LoadKept : Model → Model → Type 0
LoadKept m m' = Kept m m' × (m'.state ≡ m.state)

LoadKept-refl : {m : Model} → IsWellFormed m → LoadKept m m
LoadKept-refl h = (Kept-refl h, refl)

LoadKept-trans : {a b c : Model} → LoadKept a b → LoadKept b c → LoadKept a c
LoadKept-trans h k = (Kept-trans h.0 k.0, k.1 ∙ h.1)

-- One part of a load after another.
bind-Kept :
    {m : Model} (o : Outcome Model LoadError (Unit {0})) (k : L (Unit {0}))
    → LoadKept m (left_by o)
    → ((m' : Model) → LoadKept m m' → LoadKept m (left_by (k m')))
    → LoadKept m (left_by (elim o [ done a t ↦ k t | raised e t ↦ raised e t ]))
bind-Kept (done a t) k kept next = next t kept
bind-Kept (raised e t) k kept next = kept

require-Kept :
    {m : Model} (b : Bool) (e : LoadError) (k : L (Unit {0}))
    → IsWellFormed m
    → (b ≡ true → LoadKept m (left_by (k m)))
    → LoadKept m (left_by ((require b e >> k) m))
require-Kept true e k h next = next refl
require-Kept false e k h next = LoadKept-refl h

-- One word of a load, whatever it is.
load_word-Kept :
    {m : Model} (i : ℕ) (word : ℤ) → IsWellFormed m → LoadKept m (left_by (load_word i word m))
unfolding load_word
load_word-Kept {m} i (negsuc n) h = require-Kept (ltb i program_words) _ _ h (λ _. LoadKept-refl h)
load_word-Kept {m} i (pos n) h = require-Kept (ltb i program_words) _ _ h (λ below.
    require-Kept (leb n 0xFFFF) _ _ h (λ small.
      rw (assign-eq h i n (ltb→lt i program_words below))
        (Kept-program h i n (omega (arith, leb→le n 0xFFFF small)), refl)))

load_from-Kept :
    {m : Model} (words : List ℤ) (i : ℕ)
    → IsWellFormed m
    → LoadKept m (left_by (load_from words i m))
unfolding load_from
load_from-Kept [] i h = LoadKept-refl h
load_from-Kept {m} (word ∷ words) i h =
    bind-Kept (load_word i word m) (load_from words (suc i)) (load_word-Kept i word h)
      (λ m' kept. LoadKept-trans kept (load_from-Kept words (suc i) kept.0.well_formed))

pub load_words-Kept :
    {m : Model} (words : List ℤ) (origin : ℤ)
    → IsWellFormed m
    → LoadKept m (left_by (load_words words origin m))
unfolding load_words
load_words-Kept words (negsuc n) h = LoadKept-refl h
load_words-Kept words (pos origin) h =
    require-Kept (ltb origin program_words) _ _ h (λ _. load_from-Kept words origin h)

-- A load keeps the interrupt pipeline's invariant, since it keeps all that it speaks of.
pub LoadKept-IsScheduled : {m m' : Model} → LoadKept m m' → IsScheduled m → IsScheduled m'
LoadKept-IsScheduled {m} {m'} kept h =
    let same = kept.0.same in
    let pending = ap (λ (s : State). s.interrupt_pending) kept.1 in
    let mask = ap (λ (s : State). s.status.intm) kept.1 in
    record {
      delay_requested = λ e. pending ∙ h.delay_requested (sym same.delay_same ∙ e);
      entry_requested = λ e. pending ∙ h.entry_requested (sym same.entry_same ∙ e);
      entry_enabled = λ e. mask ∙ h.entry_enabled (sym same.entry_same ∙ e);
      entry_alone = λ e. same.delay_same ∙ h.entry_alone (sym same.entry_same ∙ e);
    }
