-- ===== src/PushPop/Report.antt =====
-- tools/trace/push_pop_capture.py: `build_report` from the runs of a capture, with the verdict on the
-- evidence package.
use Prim.Native.String.{String}
use tms32010_sv.Base.{
  ℕ, Bool, false, ◌&&◌, ◌||◌, List, [], ◌∷◌, leb, ◌==◌, same_text, if◌then◌else◌, length,
}
use tms32010_sv.Base.Int.{ℤ, pos, negsuc}
use tms32010_sv.Base.Text.{Text}
use tms32010_sv.Database.{Checked, ok, failed}
use tms32010_sv.PushPop.{
  EdgeSample, IntervalClass, h1_idle, same_class, is_known, Warning, is_source_conflict,
  Observation, CaptureError, minimum_not_positive, push_spec, pop_spec, analyze_runs,
}

-- `len(set(values))` counts these.
abbrev pub holds_class : IntervalClass → List IntervalClass → Bool
holds_class value [] = false
holds_class value (other ∷ rest) = same_class value other || holds_class value rest

unfoldable pub distinct_classes : List IntervalClass → List IntervalClass
distinct_classes [] = []
distinct_classes (value ∷ values) =
    let rest = distinct_classes values in if holds_class value rest then rest else value ∷ rest

abbrev pub one_value : List IntervalClass → Bool
one_value values = length (distinct_classes values) == 1

-- `values and values[0] in KNOWN_HYPOTHESES`.
abbrev pub first_known : List IntervalClass → Bool
first_known [] = false
first_known (value ∷ _) = is_known value

abbrev any_conflict : List Warning → Bool
any_conflict [] = false
any_conflict (warning ∷ rest) = is_source_conflict warning || any_conflict rest

-- The parts of the class `CaptureReport` that the analysis decides.
pub record CaptureReport (Time : Type 0) : Type 0 where
  pub run_count : ℕ
  pub minimum_runs : ℕ
  pub minimum_runs_met : Bool
  pub repeatable : Bool
  pub hypotheses_resolved : Bool
  pub primary_source_conflict_observed : Bool
  pub review_ready : Bool
  pub acceptance_complete : Bool
  pub push_classes : List IntervalClass
  pub pop_classes : List IntervalClass
  pub observations : List (Observation Time)

module _ {Time : Type 0} where
  -- The classifications of one mnemonic.
  unfoldable pub classes_of : String → List (Observation Time) → List IntervalClass
  classes_of mnemonic [] = []
  classes_of mnemonic (observation ∷ rest) =
      let later = classes_of mnemonic rest in
      if same_text observation.mnemonic mnemonic then observation.classification ∷ later else later

  -- `primary_conflict`.
  unfoldable pub any_primary_conflict : List (Observation Time) → Bool
  any_primary_conflict [] = false
  any_primary_conflict (observation ∷ rest) =
      (same_class observation.classification h1_idle || any_conflict observation.warnings)
      || any_primary_conflict rest

  -- The report of the observations of some runs.
  unfoldable pub report_of : ℕ → ℕ → Bool → List (Observation Time) → CaptureReport Time
  unfolding distinct_classes classes_of any_primary_conflict
  report_of run_count minimum_runs complete observations =
      let push_classes = classes_of push_spec.mnemonic observations in
      let pop_classes = classes_of pop_spec.mnemonic observations in
      let repeatable = one_value push_classes && one_value pop_classes in
      let resolved = repeatable && (first_known push_classes && first_known pop_classes) in
      let minimum_runs_met = leb minimum_runs run_count in
      record {
        run_count = run_count;
        minimum_runs = minimum_runs;
        minimum_runs_met = minimum_runs_met;
        repeatable = repeatable;
        hypotheses_resolved = resolved;
        primary_source_conflict_observed = any_primary_conflict observations;
        review_ready = minimum_runs_met && (repeatable && (resolved && complete));
        acceptance_complete = false;
        push_classes = push_classes;
        pop_classes = pop_classes;
        observations = observations;
      }

  -- `build_report`, once the capture is read.
  unfoldable pub build_report :
      List (Text × List (EdgeSample Time)) → ℤ → Bool → Checked CaptureError (CaptureReport Time)
  unfolding analyze_runs report_of
  build_report runs (negsuc n) complete = failed minimum_not_positive
  build_report runs (pos minimum_runs) complete =
      if minimum_runs == 0 then failed minimum_not_positive else (elim (analyze_runs runs) [
        | failed e ↦ failed e
        | ok observations ↦ ok (report_of (length runs) minimum_runs complete observations)
      ])
