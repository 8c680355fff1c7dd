-- ===== src/Mame/Compare/Laws.antt =====
-- tools/reference/mame_trace.py: when `compare_steps` finds no mismatch.
use tms32010_sv.Base.Cases.{no}
use tms32010_sv.Base.{
  ℕ, suc, ◌+◌, ◌<◌, ◌≡◌, ◌⊎◌, ◌↔◌, inl, inr, refl, ap, ◌∙◌, arith, Bool, true, false, not, ◌&&◌,
  Bool-cases, List, [], ◌∷◌, ◌++◌, ltb, ◌==◌, ==_iff, length,
}
use tms32010_sv.Database.{ok}
use tms32010_sv.Database.Chains.{◌>>=◌, returns, not_raised, same_value, bind-ok}
use tms32010_sv.Mame.{MameState, ModelStep}
use tms32010_sv.Mame.Records.{model_state_view, mame_state_view}
use tms32010_sv.Mame.Compare.{ComparisonResult, pc_difference, compare_from, compare_steps}
use tms32010_sv.Mame.Compare.Views.{
  cells-Matching, no_differences, differences_self, cells-injective, some_left,
}

-- Each step starts where a state is, and its state afterwards is the following one.
pub data Aligned : List ModelStep → List MameState → Type 0 where
  at_end : {states : List MameState} → Aligned [] states
  in_step :
      {step : ModelStep} {steps : List ModelStep} {before after : MameState} {rest : List MameState}
      → step.pc ≡ before.pc
      → model_state_view step ≡ ok (mame_state_view after)
      → Aligned steps (after ∷ rest)
      → Aligned (step ∷ steps) (before ∷ after ∷ rest)

append-empty : {A : Type 0} (xs ys : List A) → xs ++ ys ≡ [] → (xs ≡ []) × (ys ≡ [])
append-empty [] ys h = (refl, h)
append-empty (_ ∷ _) ys h = absurd (some_left h)

pc_difference-empty :
    (index : ℕ) (step : ModelStep) (before : MameState)
    → pc_difference index step before ≡ []
    → step.pc ≡ before.pc
pc_difference-empty index step before h = elim (Bool-cases (step.pc == before.pc)) [
  | inl same ↦ (==_iff step.pc before.pc).0 same
  | inr differ ↦ absurd (some_left (rw differ at h))
]

compare_from-Aligned :
    (index : ℕ) (steps : List ModelStep) (states : List MameState)
    → compare_from index steps states ≡ ok []
    → Aligned steps states
unfolding compare_from
compare_from-Aligned index [] states h = at_end
compare_from-Aligned index (step ∷ steps) [] h = absurd (not_raised h)
compare_from-Aligned index (step ∷ steps) (before ∷ []) h = absurd (not_raised h)
compare_from-Aligned index (step ∷ steps) (before ∷ after ∷ rest) h =
    let (view, viewed, comparing) = bind-ok h in
    let (later, others, collected) = bind-ok comparing in
    let (front, none_later) =
      append-empty (pc_difference index step before ++ _) later (same_value collected) in
    let (same_pc, same_view) = append-empty (pc_difference index step before) _ front in
    let equal =
      cells-injective
        (no_differences index step after (cells-Matching view (mame_state_view after)) same_view) in
    in_step (pc_difference-empty index step before same_pc) (viewed ∙ ap ok equal)
      (compare_from-Aligned (suc index) steps (after ∷ rest) (others ∙ ap ok none_later))

Aligned-compare_from :
    (index : ℕ) {steps : List ModelStep} {states : List MameState}
    → Aligned steps states
    → compare_from index steps states ≡ ok []
unfolding compare_from ◌>>=◌
Aligned-compare_from index at_end = refl
Aligned-compare_from index
      (in_step {step = step} {before = before} {after = after} same_pc viewed more) =
    let view = mame_state_view after in
    rw
      (
        viewed,
        Aligned-compare_from (suc index) more,
        (==_iff step.pc before.pc).1 same_pc,
        differences_self index step after (cells-Matching view view),
      )
      refl

-- A trace of one state more than the steps, or of yet more where these are allowed.
abbrev pub FitsSteps : List ModelStep → List MameState → Bool → Type 0
FitsSteps steps states allow_trailing =
    (length steps < length states) × ((allow_trailing ≡ true) ⊎ (length states ≡ length steps + 1))

long_enough : (m n : ℕ) → ltb m (n + 1) ≡ false → n < m
long_enough m n h = ground arith

not_longer :
    (allow : Bool) (m n : ℕ)
    → (not allow && ltb (n + 1) m) ≡ false
    → n < m
    → (allow ≡ true) ⊎ (m ≡ n + 1)
not_longer true m n h short = inl refl
not_longer false m n h short = inr (ground arith)

tests_pass :
    (steps : List ModelStep) (states : List MameState) (allow_trailing : Bool)
    → FitsSteps steps states allow_trailing
    → (ltb (length states) (length steps + 1) ≡ false)
      × ((not allow_trailing && ltb (length steps + 1) (length states)) ≡ false)
tests_pass steps states true (enough, either) = (ground arith, refl)
tests_pass steps states false (enough, inl h) = absurd (no h)
tests_pass steps states false (enough, inr same) = (ground arith, ground (arith, same))

-- `compare_steps` returns a result without a mismatch exactly for traces of fitting lengths in which
-- each step starts where its state is, and leaves the values that the following state has.
pub compare_steps-Aligned :
    (steps : List ModelStep) (states : List MameState) (allow_trailing : Bool)
    → ((result : ComparisonResult) × (compare_steps steps states allow_trailing ≡ ok result)
        × (result.mismatches ≡ []))
      ↔ (FitsSteps steps states allow_trailing × Aligned steps states)
unfolding compare_steps ◌>>=◌
compare_steps-Aligned steps states allow_trailing = (
  λ (result, e, none_found). elim (Bool-cases (ltb (length states) (length steps + 1))) [
    | inl short ↦ absurd (not_raised (rw short at e))
    | inr long ↦ elim (Bool-cases (not allow_trailing && ltb (length steps + 1) (length states))) [
      | inl longer ↦ absurd (not_raised (rw (long, longer) at e))
      | inr fits ↦
          (let (mismatches, compared, end) = bind-ok (rw (long, fits) at e) in
            let enough = long_enough (length states) (length steps) long in
            let empty = ap (λ (r : ComparisonResult). r.mismatches) (same_value end) ∙ none_found in
            (
              (enough, not_longer allow_trailing (length states) (length steps) fits enough),
              compare_from-Aligned 0 steps states (compared ∙ ap returns empty),
            ))
    ]
  ],
  λ (fits, aligned).
      (let (long, short) = tests_pass steps states allow_trailing fits in
        rw (long, short, Aligned-compare_from 0 aligned, ◌>>=◌) (_, refl, refl)),
)
