-- ===== src/Tests/PushPop.antt =====
-- A capture of one run in which both instructions read the next word twice, with times that are whole
-- numbers.
use tms32010_sv.Base.{ℕ, ◌≤◌, ◌≡◌, ◌↔◌, refl, Bool, true, List, [], ◌∷◌, Option, some, leb, length}
use tms32010_sv.Base.Int.{pos}
use tms32010_sv.Base.Text.{Text, codes}
use tms32010_sv.Database.{ok, failed}
use tms32010_sv.Database.Chains.{◌>>=◌}
use tms32010_sv.PushPop.{EdgeSample, Observation, h2_repeat, too_short, push_spec, analyze_runs}
use tms32010_sv.PushPop.Report.{CaptureReport, report_of, build_report}
use tms32010_sv.PushPop.Classes.{AllAgree}
use tms32010_sv.PushPop.Laws.{build_report-review_ready}
use tms32010_sv.PushPop.Reader.{
  Row, at_row, sample_not_increasing, last_of, decimal_digits, read_normalized_capture,
}
use tms32010_sv.PushPop.Order.{IsIncreasing, read_normalized_capture-IsIncreasing}

abbrev fetch : ℕ → ℕ → ℕ → EdgeSample ℕ
fetch number address word = record {
  run = codes "a";
  sample = number;
  time_ns = number;
  rs_n = 1;
  men_n = 0;
  we_n = 1;
  den_n = 1;
  address = address;
  data_word = word;
}

abbrev samples : List (EdgeSample ℕ)
samples =
    fetch 0 1 0x7F9C
    ∷ fetch 1 2 0x7F80
    ∷ fetch 2 2 0x7F80
    ∷ fetch 3 4 0x7F9D
    ∷ fetch 4 5 0x7F80
    ∷ fetch 5 5 0x7F80
    ∷ fetch 6 6 0xF900
    ∷ fetch 7 7 6
    ∷ []

abbrev runs : List (Text × List (EdgeSample ℕ))
runs = (codes "a", samples) ∷ []

abbrev push_observed : Observation ℕ
push_observed = record {
  run = codes "a";
  mnemonic = "PUSH";
  opcode_sample = 0;
  classification = h2_repeat;
  first = fetch 1 2 0x7F80;
  second = fetch 2 2 0x7F80;
  warnings = [];
}

abbrev pop_observed : Observation ℕ
pop_observed = record {
  run = codes "a";
  mnemonic = "POP";
  opcode_sample = 3;
  classification = h2_repeat;
  first = fetch 4 5 0x7F80;
  second = fetch 5 5 0x7F80;
  warnings = [];
}

abbrev report : CaptureReport ℕ
report = report_of 1 1 true (push_observed ∷ pop_observed ∷ [])

reported : build_report runs (pos 1) true ≡ ok report
unfolding build_report
reported = refl

build_report-review_ready_example : (report.review_ready ≡ true) ↔ (
    (1 ≤ length runs)
    × (true ≡ true)
    × AllAgree report.push_classes (length runs)
    × AllAgree report.pop_classes (length runs))
build_report-review_ready_example = build_report-review_ready runs 1 true report reported

cut_short :
    analyze_runs ((codes "a", fetch 0 1 0x7F9C ∷ []) ∷ [])
    ≡ failed (too_short (codes "a") push_spec)
unfolding analyze_runs
cut_short = refl

abbrev whole_number : Text → Option ℕ
whole_number text = decimal_digits 0 text

abbrev all_valid : ℕ → Bool
all_valid _ = true

abbrev row_at : Text → Text → Row
row_at number address = record {
  run = some (codes "a");
  sample = some number;
  time_ns = some number;
  rs_n = some (codes "1");
  men_n = some (codes " 0 ");
  we_n = some (codes "1");
  den_n = some (codes "1");
  address = some address;
  data_word = some (codes "0x7f80");
}

abbrev header : Option (List Text)
header = some (
    codes "run"
    ∷ codes "sample"
    ∷ codes "time_ns"
    ∷ codes "rs_n"
    ∷ codes "men_n"
    ∷ codes "we_n"
    ∷ codes "den_n"
    ∷ codes "address"
    ∷ codes "data"
    ∷ [])

abbrev rows : List Row
rows = row_at (codes "8") (codes "0x2") ∷ row_at (codes "10") (codes "0x002") ∷ []

abbrev two_reads : List (EdgeSample ℕ)
two_reads = fetch 8 2 0x7F80 ∷ fetch 10 2 0x7F80 ∷ []

read :
    read_normalized_capture whole_number all_valid leb header rows
    ≡ ok ((codes "a", two_reads) ∷ [])
unfolding read_normalized_capture decimal_digits ◌>>=◌
read = refl

found : last_of (codes "a") ((codes "a", two_reads) ∷ []) ≡ some two_reads
unfolding last_of
found = refl

read_normalized_capture-IsIncreasing_example :
    (last : EdgeSample ℕ) × IsIncreasing whole_number all_valid leb two_reads last
read_normalized_capture-IsIncreasing_example =
    read_normalized_capture-IsIncreasing whole_number all_valid leb header rows
      ((codes "a", two_reads) ∷ []) (codes "a") two_reads read found

repeated :
    read_normalized_capture whole_number all_valid leb header
      (row_at (codes "8") (codes "0x2") ∷ row_at (codes "8") (codes "0x2") ∷ [])
    ≡ failed (at_row 3 sample_not_increasing)
unfolding read_normalized_capture decimal_digits ◌>>=◌
repeated = refl
