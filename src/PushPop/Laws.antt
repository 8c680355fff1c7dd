-- ===== src/PushPop/Laws.antt =====
-- tools/trace/push_pop_capture.py: what the report of a capture says of its runs.
use tms32010_sv.Base.{
  ℕ, zero, suc, ◌≤◌, ◌≡◌, ◌↔◌, inl, inr, refl, ap, arith, Bool, true, false, ◌&&◌, Bool-cases, List,
  [], ◌∷◌, leb, leb→le, le→leb, ◌==◌, length, get_elem?, ◌+◌,
}
use tms32010_sv.Base.Cases.{some_or_none}
use tms32010_sv.Base.Int.{pos}
use tms32010_sv.Base.Text.{Text}
use tms32010_sv.Database.{ok}
use tms32010_sv.Database.Chains.{not_raised, same_value, outcome_cases}
use tms32010_sv.PushPop.{
  EdgeSample, InstructionSpec, Observation, push_spec, pop_spec, anchors_from, observe_at,
  observe_one, observe, analyze_runs,
}
use tms32010_sv.PushPop.Report.{
  CaptureReport, one_value, first_known, classes_of, report_of, build_report,
}
use tms32010_sv.PushPop.Classes.{AllAgree, agreed, agreed_back}

module _ {Time : Type 0} where
  observe_at-mnemonic :
      (run : Text) (samples : List (EdgeSample Time)) (spec : InstructionSpec) (anchor : ℕ)
      {o : Observation Time}
      → observe_at run samples spec anchor ≡ ok o
      → o.mnemonic ≡ spec.mnemonic
  unfolding observe_at
  observe_at-mnemonic run samples spec anchor h =
      elim (Bool-cases (leb (length samples) (anchor + 4))) [
        | inl short ↦ absurd (not_raised (rw (observe_at, short) at h))
        | inr long ↦ elim (some_or_none (get_elem? samples anchor)) [
          | inl absent_fetch ↦ absurd (not_raised (rw (observe_at, long, absent_fetch) at h))
          | inr (fetch, e0) ↦ elim (some_or_none (get_elem? samples (anchor + 1))) [
            | inl absent_first ↦ absurd (not_raised (rw (observe_at, long, e0, absent_first) at h))
            | inr (first, e1) ↦ elim (some_or_none (get_elem? samples (anchor + 2))) [
              | inl absent_second ↦
                  absurd (not_raised (rw (observe_at, long, e0, e1, absent_second) at h))
              | inr (second, e2) ↦ rw (← (same_value (rw (observe_at, long, e0, e1, e2) at h))) refl
            ]
          ]
        ]
      ]

  observe_one-mnemonic :
      (run : Text) (samples : List (EdgeSample Time)) (spec : InstructionSpec) (anchors : List ℕ)
      {o : Observation Time}
      → observe_one run samples spec anchors ≡ ok o
      → o.mnemonic ≡ spec.mnemonic
  unfolding observe_one
  observe_one-mnemonic run samples spec [] h = absurd (not_raised h)
  observe_one-mnemonic run samples spec (anchor ∷ []) h =
      observe_at-mnemonic run samples spec anchor h
  observe_one-mnemonic run samples spec (_ ∷ _ ∷ _) h = absurd (not_raised h)

-- One class of each instruction for each run.
IsPerRun : {Time : Type 0} → List (Observation Time) → ℕ → Type 0
IsPerRun observations n =
    (length (classes_of push_spec.mnemonic observations) ≡ n)
    × (length (classes_of pop_spec.mnemonic observations) ≡ n)

module _ {Time : Type 0} where
  analyze_runs-IsPerRun :
      (runs : List (Text × List (EdgeSample Time))) {observations : List (Observation Time)}
      → analyze_runs runs ≡ ok observations
      → IsPerRun observations (length runs)
  unfolding analyze_runs observe classes_of IsPerRun
  analyze_runs-IsPerRun [] h = rw (← (same_value h)) (refl, refl)
  analyze_runs-IsPerRun ((run, samples) ∷ runs) h =
      elim (outcome_cases (observe run samples push_spec)) [
        | inl (e, fails) ↦ absurd (not_raised (rw (analyze_runs, fails) at h))
        | inr (push, pushed) ↦ elim (outcome_cases (observe run samples pop_spec)) [
          | inl (e, fails) ↦ absurd (not_raised (rw (analyze_runs, pushed, fails) at h))
          | inr (pop, popped) ↦ elim (outcome_cases (analyze_runs runs)) [
            | inl (e, fails) ↦ absurd (not_raised (rw (analyze_runs, pushed, popped, fails) at h))
            | inr (more, analyzed) ↦
                (let (pushes, pops) = analyze_runs-IsPerRun runs analyzed in
                  let push_name =
                    observe_one-mnemonic run samples push_spec (anchors_from 0 samples 1) pushed in
                  let pop_name =
                    observe_one-mnemonic run samples pop_spec (anchors_from 0 samples 4) popped in
                  rw
                    (
                      ← (same_value (rw (analyze_runs, pushed, popped, analyzed) at h)),
                      push_name,
                      pop_name,
                    )
                    (ap suc pushes, ap suc pops))
          ]
        ]
      ]

positive : (n m : ℕ) → (n == 0) ≡ false → n ≤ m → (k : ℕ) × (m ≡ suc k)
positive n zero h fits = absurd (ground arith)
positive n (suc k) h fits = (k, refl)

ready_parts :
    (enough o q f g c : Bool)
    → (enough && ((o && q) && (((o && q) && (f && g)) && c))) ≡ true
    → (enough ≡ true) × (o ≡ true) × (q ≡ true) × (f ≡ true) × (g ≡ true) × (c ≡ true)
ready_parts enough o q f g c h = ground arith

report_of-review_ready :
    {Time : Type 0} (n minimum : ℕ) (complete : Bool) (observations : List (Observation Time))
    → IsPerRun observations n
    → (minimum == 0) ≡ false
    → let report = report_of n minimum complete observations in
      (report.review_ready ≡ true) ↔ (
        (minimum ≤ n)
        × (complete ≡ true)
        × AllAgree report.push_classes n
        × AllAgree report.pop_classes n)
unfolding report_of IsPerRun
report_of-review_ready n minimum complete observations per_run not_zero =
    let pushes = classes_of push_spec.mnemonic observations in
    let pops = classes_of pop_spec.mnemonic observations in
    (
      λ ready.
          (let (enough, o, q, f, g, c) =
              ready_parts (leb minimum n) (one_value pushes) (one_value pops) (first_known pushes)
                (first_known pops) complete ready in
            (
              leb→le minimum n enough,
              c,
              rw per_run.0 at (agreed pushes o f),
              rw per_run.1 at (agreed pops q g),
            )),
      λ (enough, c, agree_push, agree_pop).
          (let (k, some_runs) = positive minimum n not_zero enough in
            let (o, f) = agreed_back pushes k (rw some_runs at agree_push) in
            let (q, g) = agreed_back pops k (rw some_runs at agree_pop) in
            rw (le→leb minimum n enough, o, q, f, g, c) refl),
    )

-- A report is ready for review exactly if the runs are enough, the evidence package is complete, and
-- both instructions were classified in every run, all runs agreeing on one of the three hypotheses.
pub build_report-review_ready :
    {Time : Type 0} (runs : List (Text × List (EdgeSample Time))) (minimum : ℕ) (complete : Bool)
    (report : CaptureReport Time)
    → build_report runs (pos minimum) complete ≡ ok report
    → (report.review_ready ≡ true) ↔ (
        (minimum ≤ length runs)
        × (complete ≡ true)
        × AllAgree report.push_classes (length runs)
        × AllAgree report.pop_classes (length runs))
unfolding build_report
build_report-review_ready runs minimum complete report h = elim (Bool-cases (minimum == 0)) [
  | inl none_asked ↦ absurd (not_raised (rw (build_report, none_asked) at h))
  | inr asked ↦ elim (outcome_cases (analyze_runs runs)) [
    | inl (e, fails) ↦ absurd (not_raised (rw (build_report, asked, fails) at h))
    | inr (observations, analyzed) ↦ rw (← (same_value (rw (build_report, asked, analyzed) at h))) (
        report_of-review_ready (length runs) minimum complete observations
          (analyze_runs-IsPerRun runs analyzed) asked)
  ]
]
