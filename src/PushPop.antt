-- ===== src/PushPop.antt =====
-- tools/trace/push_pop_capture.py: the classification of captures and its report. The time of a sample,
-- a decimal number that only `read_normalized_capture` looks at, is of a type that is a parameter, and
-- so is the evidence package, of which the report takes the verdict.
pub mod Report
pub mod Reader
pub mod Order
pub mod Classes
pub mod Runs
pub mod Laws
use Prim.Native.String.{String}
use tms32010_sv.Base.{
  ℕ, suc, ◌+◌, bit_and, Bool, true, false, not, ◌&&◌, ◌||◌, List, [], ◌∷◌, ◌++◌, Option, none, some,
  leb, ◌==◌, same_text, if◌then◌else◌, length, get_elem?,
}
use tms32010_sv.Base.Int.{ℤ, pos, negsuc}
use tms32010_sv.Base.Text.{Text}
use tms32010_sv.Database.{Checked, ok, failed}

-- FIXTURE_WORDS.
abbrev pub fixture_words : List (ℕ × ℕ)
fixture_words =
    (0x000, 0x7E55)
    ∷ (0x001, 0x7F9C)
    ∷ (0x002, 0x7F80)
    ∷ (0x003, 0x7EAA)
    ∷ (0x004, 0x7F9D)
    ∷ (0x005, 0x7F80)
    ∷ (0x006, 0xF900)
    ∷ (0x007, 0x0006)
    ∷ []

abbrev find_word : List (ℕ × ℕ) → ℕ → Option ℕ
find_word [] address = none
find_word ((other, word) ∷ rest) address =
    let later = find_word rest address in if other == address then some word else later

-- The word of the fixture at an address.
unfoldable pub fixture_word : ℕ → Option ℕ
fixture_word address = find_word fixture_words address

-- The class `EdgeSample`.
pub record EdgeSample (Time : Type 0) : Type 0 where
  pub run : Text
  pub sample : ℕ
  pub time_ns : Time
  pub rs_n : ℕ
  pub men_n : ℕ
  pub we_n : ℕ
  pub den_n : ℕ
  pub address : ℕ
  pub data_word : ℕ

-- The class `InstructionSpec` with its two addresses, and INSTRUCTIONS.
pub record InstructionSpec : Type 0 where
  pub mnemonic : String
  pub opcode_address : ℕ

abbrev pub next_address : InstructionSpec → ℕ
next_address spec = bit_and (spec.opcode_address + 1) 0xFFF

abbrev pub advance_address : InstructionSpec → ℕ
advance_address spec = bit_and (spec.opcode_address + 2) 0xFFF

abbrev pub push_spec : InstructionSpec
push_spec = record { mnemonic = "PUSH"; opcode_address = 0x001 }

abbrev pub pop_spec : InstructionSpec
pop_spec = record { mnemonic = "POP"; opcode_address = 0x004 }

-- The four classes; the first three are KNOWN_HYPOTHESES.
pub data IntervalClass : Type 0 where
  h1_idle h2_repeat h3_advance unclassified : IntervalClass

abbrev pub same_class : IntervalClass → IntervalClass → Bool
same_class h1_idle h1_idle = true
same_class h2_repeat h2_repeat = true
same_class h3_advance h3_advance = true
same_class unclassified unclassified = true
same_class _ _ = false

abbrev pub is_known : IntervalClass → Bool
is_known unclassified = false
is_known _ = true

pub data Ordinal : Type 0 where
  first_interval second_interval : Ordinal

-- What the texts of the warnings say.
pub data Warning : Type 0 where
  rs_active unexpected_strobe : Ordinal → Warning
  data_mismatch : Ordinal → ℕ → ℕ → ℕ → Warning
  idle_conflict no_hypothesis : Warning

-- `"source conflict" in warning`.
abbrev pub is_source_conflict : Warning → Bool
is_source_conflict (unexpected_strobe _) = true
is_source_conflict _ = false

pub record Observation (Time : Type 0) : Type 0 where
  pub run : Text
  pub mnemonic : String
  pub opcode_sample : ℕ
  pub classification : IntervalClass
  pub first : EdgeSample Time
  pub second : EdgeSample Time
  pub warnings : List Warning

-- The messages of a `CaptureError` of the analysis; an index out of range is Python's own.
pub data CaptureError : Type 0 where
  fetch_count : Text → InstructionSpec → ℕ → CaptureError
  too_short : Text → InstructionSpec → CaptureError
  minimum_not_positive index_error : CaptureError

abbrev warn_if : Bool → Warning → List Warning
warn_if test warning = if test then warning ∷ [] else []

module _ {Time : Type 0} where
  -- `_matches_program_read`, whose addresses are those of the fixture.
  unfoldable pub matches_program_read : EdgeSample Time → ℕ → Bool
  unfolding fixture_word
  matches_program_read sample address =
      sample.rs_n == 1
      && (sample.men_n == 0
          && (sample.we_n == 1
              && (sample.den_n == 1
                  && (sample.address == address && (elim (fixture_word address) [
                    | none ↦ false
                    | some word ↦ sample.data_word == word
                  ])))))

  -- The warnings on one interval.
  unfoldable pub interval_warnings : Ordinal → EdgeSample Time → List Warning
  unfolding fixture_word
  interval_warnings ordinal sample =
      warn_if (sample.rs_n == 0) (rs_active ordinal)
      ++ warn_if (sample.we_n == 0 || sample.den_n == 0) (unexpected_strobe ordinal)
      ++ (if sample.men_n == 0
          then (elim (fixture_word sample.address) [
            | none ↦ []
            | some expected ↦
                (warn_if (not (sample.data_word == expected))
                  (data_mismatch ordinal sample.data_word expected sample.address))
          ])
          else [])

  -- `controls_inactive_first`.
  abbrev pub controls_inactive : EdgeSample Time → Bool
  controls_inactive sample =
      sample.rs_n == 1 && (sample.men_n == 1 && (sample.we_n == 1 && sample.den_n == 1))

  -- `_classify_intervals`.
  unfoldable pub classify_intervals :
      InstructionSpec → EdgeSample Time → EdgeSample Time → IntervalClass × List Warning
  unfolding matches_program_read interval_warnings
  classify_intervals spec first second =
      let warnings =
        interval_warnings first_interval first ++ interval_warnings second_interval second in
      let next_read_first = matches_program_read first (next_address spec) in
      let next_read_second = matches_program_read second (next_address spec) in
      let advance_read_second = matches_program_read second (advance_address spec) in
      if controls_inactive first && next_read_second
      then (h1_idle, warnings ++ (idle_conflict ∷ []))
      else if next_read_first && next_read_second
      then (h2_repeat, warnings)
      else if next_read_first && advance_read_second
      then (h3_advance, warnings)
      else (unclassified, warnings ++ (no_hypothesis ∷ []))

  -- The indices of the samples that fetch an opcode, from an index on.
  unfoldable pub anchors_from : ℕ → List (EdgeSample Time) → ℕ → List ℕ
  unfolding matches_program_read
  anchors_from index [] address = []
  anchors_from index (sample ∷ samples) address =
      let later = anchors_from (suc index) samples address in
      if matches_program_read sample address then index ∷ later else later

  -- The observation behind an anchor.
  unfoldable pub observe_at :
      Text → List (EdgeSample Time) → InstructionSpec → ℕ → Checked CaptureError (Observation Time)
  unfolding classify_intervals
  observe_at run samples spec anchor =
      if leb (length samples) (anchor + 4)
      then failed (too_short run spec)
      else (elim (get_elem? samples anchor) [
        | none ↦ failed index_error
        | some fetch ↦ elim (get_elem? samples (anchor + 1)) [
          | none ↦ failed index_error
          | some first ↦ elim (get_elem? samples (anchor + 2)) [
            | none ↦ failed index_error
            | some second ↦
                (let classified = classify_intervals spec first second in
                  ok record {
                    run = run;
                    mnemonic = spec.mnemonic;
                    opcode_sample = fetch.sample;
                    classification = classified.0;
                    first = first;
                    second = second;
                    warnings = classified.1;
                  })
          ]
        ]
      ])

  -- The observation of one instruction in one run, which fetches it once.
  unfoldable pub observe_one :
      Text
      → List (EdgeSample Time)
      → InstructionSpec
      → List ℕ
      → Checked CaptureError (Observation Time)
  unfolding observe_at
  observe_one run samples spec (anchor ∷ []) = observe_at run samples spec anchor
  observe_one run samples spec anchors = failed (fetch_count run spec (length anchors))

  unfoldable pub observe :
      Text → List (EdgeSample Time) → InstructionSpec → Checked CaptureError (Observation Time)
  unfolding anchors_from observe_one
  observe run samples spec =
      observe_one run samples spec (anchors_from 0 samples spec.opcode_address)

  -- `analyze_runs`, over the runs in the order of their dictionary.
  unfoldable pub analyze_runs :
      List (Text × List (EdgeSample Time)) → Checked CaptureError (List (Observation Time))
  unfolding observe
  analyze_runs [] = ok []
  analyze_runs ((run, samples) ∷ runs) = elim (observe run samples push_spec) [
    | failed e ↦ failed e
    | ok push ↦ elim (observe run samples pop_spec) [
      | failed e ↦ failed e
      | ok pop ↦ elim (analyze_runs runs) [ failed e ↦ failed e | ok more ↦ ok (push ∷ pop ∷ more) ]
    ]
  ]
