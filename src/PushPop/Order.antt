-- ===== src/PushPop/Order.antt =====
-- tools/trace/push_pop_capture.py: the order of the samples that `read_normalized_capture` returns.
use tms32010_sv.Base.Cases.{absent, some_eq}
use mathlib.Core.Path.{subst}
use tms32010_sv.Base.{
  ℕ, suc, ◌<◌, ◌≡◌, inl, inr, refl, ap, ◌∙◌, arith, Bool, false, not, Bool-cases, List, [], ◌∷◌,
  ◌++◌, Option, none, some, leb,
}
use tms32010_sv.Base.Text.{Text, same_codes, same_codes-eq, same_codes_self}
use tms32010_sv.Database.{ok}
use tms32010_sv.Database.Chains.{returns, not_raised, same_value, bind-ok}
use tms32010_sv.PushPop.{EdgeSample}
use tms32010_sv.PushPop.Reader.{
  Row, ReadError, Reading, last_of, add_sample, sample_falls, time_falls, sample_of, read_row,
  read_rows, read_normalized_capture, same_header, capture_columns, some_runs,
}
use tms32010_sv.PushPop.Runs.{
  passed, with_sample, last_of-add_sample_self, last_of-add_sample_other,
}

module _ {Time : Type 0} (decimal : Text → Option Time) (is_valid : Time → Bool)
    (at_most : Time → Time → Bool) where
  -- Samples with rising numbers, each at a time that is not at most the one before, and the last of them.
  pub data IsIncreasing : List (EdgeSample Time) → EdgeSample Time → Type 0 where
    only : {sample : EdgeSample Time} → IsIncreasing (sample ∷ []) sample
    and_then :
        {samples : List (EdgeSample Time)} {last next : EdgeSample Time}
        → IsIncreasing samples last
        → last.sample < next.sample
        → at_most next.time_ns last.time_ns ≡ false
        → IsIncreasing (samples ++ (next ∷ [])) next

  -- What the three dictionaries have of a run.
  data Tracks : Option (List (EdgeSample Time)) → Option ℕ → Option Time → Type 0 where
    unseen : Tracks none none none
    seen :
        {samples : List (EdgeSample Time)} {last : EdgeSample Time}
        → IsIncreasing samples last
        → Tracks (some samples) (some last.sample) (some last.time_ns)

  abbrev TracksAt : Reading Time → Text → Type 0
  TracksAt reading key =
      Tracks (last_of key reading.runs) (last_of key reading.last_sample)
        (last_of key reading.last_time)

  Tracked : Reading Time → Type 0
  Tracked reading = (key : Text) → TracksAt reading key

  grown :
      {samples : Option (List (EdgeSample Time))} {sample : Option ℕ} {time : Option Time}
      (next : EdgeSample Time)
      → Tracks samples sample time
      → sample_falls decimal is_valid at_most sample next.sample ≡ false
      → time_falls decimal is_valid at_most time next.time_ns ≡ false
      → Tracks (some (with_sample samples next)) (some next.sample) (some next.time_ns)
  grown next unseen rises later = seen only
  grown next (seen {last = last} increasing) rises later =
      seen (and_then increasing (above last.sample next.sample rises) later)
    where
      above : (a b : ℕ) → leb b a ≡ false → a < b
      above a b h = ground arith

  -- The run, the number and the time of a sample are those of its row.
  sample_of-same :
      (row_number : ℕ) (row : Row) (run : Text) (sample : ℕ) (time : Time) {edge : EdgeSample Time}
      → sample_of decimal is_valid at_most row_number row run sample time ≡ ok edge
      → (edge.sample ≡ sample) × (edge.time_ns ≡ time)
  unfolding sample_of
  sample_of-same row_number row run sample time h =
      let (_, _, h1) = bind-ok h in
      let (_, _, h2) = bind-ok h1 in
      let (_, _, h3) = bind-ok h2 in
      let (_, _, h4) = bind-ok h3 in
      let (_, _, h5) = bind-ok h4 in
      let (_, _, h6) = bind-ok h5 in rw (← (same_value h6)) (refl, refl)

  abbrev added : Reading Time → Text → EdgeSample Time → Reading Time
  added reading run edge = record {
    runs = add_sample run edge reading.runs;
    last_sample = (run, edge.sample) ∷ reading.last_sample;
    last_time = (run, edge.time_ns) ∷ reading.last_time;
  }

  added-Tracked :
      (reading : Reading Time) (run : Text) (edge : EdgeSample Time)
      → Tracked reading
      → sample_falls decimal is_valid at_most (last_of run reading.last_sample) edge.sample ≡ false
      → time_falls decimal is_valid at_most (last_of run reading.last_time) edge.time_ns ≡ false
      → Tracked (added reading run edge)
  unfolding Tracked last_of
  added-Tracked reading run edge tracked rises later key = elim (Bool-cases (same_codes run key)) [
    | inr other ↦
        rw (last_of-add_sample_other run key edge reading.runs other, last_of, other) (tracked key)
    | inl same ↦
        (let at_run : TracksAt (added reading run edge) run =
            rw (last_of-add_sample_self run edge reading.runs, last_of, same_codes_self run)
              (grown edge (tracked run) rises later) in
          subst (TracksAt (added reading run edge)) (same_codes-eq run key same) at_run)
  ]

  made-Tracked :
      (reading : Reading Time) (run : Text) (sample : ℕ) (time : Time) (edge : EdgeSample Time)
      → Tracked reading
      → sample_falls decimal is_valid at_most (last_of run reading.last_sample) sample ≡ false
      → time_falls decimal is_valid at_most (last_of run reading.last_time) time ≡ false
      → (edge.sample ≡ sample) × (edge.time_ns ≡ time)
      → Tracked record {
        runs = add_sample run edge reading.runs;
        last_sample = (run, sample) ∷ reading.last_sample;
        last_time = (run, time) ∷ reading.last_time;
      }
  made-Tracked reading run sample time edge tracked rises later (same_sample, same_time) =
      rw (← same_sample, ← same_time)
        (added-Tracked reading run edge tracked (rw same_sample rises) (rw same_time later))

  returned-Tracked :
      {reading next : Reading Time}
      → returns {E = ReadError} reading ≡ returns next
      → Tracked reading
      → Tracked next
  returned-Tracked same tracked = rw (← (same_value same)) tracked

  read_row-Tracked :
      (row_number : ℕ) (row : Row) (reading : Reading Time) {next : Reading Time}
      → Tracked reading
      → read_row decimal is_valid at_most row_number row reading ≡ ok next
      → Tracked next
  unfolding read_row
  read_row-Tracked row_number row reading tracked h =
      let (run, _, h1) = bind-ok h in
      let (_, _, h2) = bind-ok h1 in
      let (_, _, h3) = bind-ok h2 in
      let (sample, _, h4) = bind-ok h3 in
      let (_, _, h5) = bind-ok h4 in
      let (time, _, h6) = bind-ok h5 in
      let (_, rises, h7) = bind-ok h6 in
      let (_, later, h8) = bind-ok h7 in
      let (edge, made, end) = bind-ok h8 in
      returned-Tracked end (
        made-Tracked reading run sample time edge tracked (passed _ rises) (passed _ later)
          (sample_of-same row_number row run sample time made))

  read_rows-Tracked :
      (row_number : ℕ) (rows : List Row) (reading : Reading Time) {last : Reading Time}
      → Tracked reading
      → read_rows decimal is_valid at_most row_number rows reading ≡ ok last
      → Tracked last
  unfolding read_rows
  read_rows-Tracked row_number [] reading tracked h = rw (← (same_value h)) tracked
  read_rows-Tracked row_number (row ∷ rows) reading tracked h =
      let (next, one, others) = bind-ok h in
      read_rows-Tracked (suc row_number) rows next
        (read_row-Tracked row_number row reading tracked one) others

  Tracks-IsIncreasing :
      {found : Option (List (EdgeSample Time))} {sample : Option ℕ} {time : Option Time}
      {samples : List (EdgeSample Time)}
      → Tracks found sample time
      → found ≡ some samples
      → (last : EdgeSample Time) × IsIncreasing samples last
  Tracks-IsIncreasing unseen h = absurd (absent h)
  Tracks-IsIncreasing (seen {last = last} increasing) h = (last, rw (← (some_eq h)) increasing)

  started : Tracked record { runs = []; last_sample = []; last_time = [] }
  unfolding Tracked last_of
  started key = unseen

  at_key : (reading : Reading Time) → Tracked reading → (key : Text) → TracksAt reading key
  unfolding Tracked
  at_key reading tracked key = tracked key

  kept_runs :
      (found : List (Text × List (EdgeSample Time))) {runs : List (Text × List (EdgeSample Time))}
      → some_runs decimal is_valid at_most found ≡ ok runs
      → found ≡ runs
  kept_runs [] h = absurd (not_raised h)
  kept_runs (run ∷ more) h = same_value h

  -- The samples of every run that `read_normalized_capture` returns have rising numbers, and each has
  -- a time that is not at most that of the one before.
  pub read_normalized_capture-IsIncreasing :
      (header : Option (List Text)) (rows : List Row) (runs : List (Text × List (EdgeSample Time)))
      (run : Text) (samples : List (EdgeSample Time))
      → read_normalized_capture decimal is_valid at_most header rows ≡ ok runs
      → last_of run runs ≡ some samples
      → (last : EdgeSample Time) × IsIncreasing samples last
  unfolding read_normalized_capture
  read_normalized_capture-IsIncreasing none rows runs run samples h e = absurd (not_raised h)
  read_normalized_capture-IsIncreasing (some header) rows runs run samples h e =
      elim (Bool-cases (not (same_header header capture_columns))) [
        | inl other ↦ absurd (not_raised (rw other at h))
        | inr same ↦
            (let (reading, read, end) = bind-ok (rw same at h) in
              let tracked =
                read_rows-Tracked 2 rows record { runs = []; last_sample = []; last_time = [] }
                  started read in
              Tracks-IsIncreasing (at_key reading tracked run) (
                ap (λ (rs : List (Text × List (EdgeSample Time))). last_of run rs)
                  (kept_runs reading.runs end)
                ∙ e))
      ]
