-- ===== src/PushPop/Reader.antt =====
-- tools/trace/push_pop_capture.py: `read_normalized_capture` over the header and the rows that
-- `csv.DictReader` gives. Parameters are `Decimal` of a text, or none where it raises, the test
-- `is_finite() and value >= 0` of a decimal, and `<=` of two.
use Prim.Native.String.{String}
use tms32010_sv.Base.{
  ℕ, suc, ◌+◌, ◌-◌, ◌*◌, Bool, true, false, not, ◌&&◌, List, [], ◌∷◌, ◌++◌, Option, none, some, leb,
  ◌==◌, if◌then◌else◌, length,
}
use tms32010_sv.Base.Text.{Text, is, is_empty, same_codes, strip, is_hex_digit}
use tms32010_sv.Database.{Checked, ok, failed}
use tms32010_sv.Database.Chains.{◌>>=◌}
use tms32010_sv.PushPop.{EdgeSample}

-- A row: a field that the row lacks is none.
pub record Row : Type 0 where
  pub run : Option Text
  pub sample : Option Text
  pub time_ns : Option Text
  pub rs_n : Option Text
  pub men_n : Option Text
  pub we_n : Option Text
  pub den_n : Option Text
  pub address : Option Text
  pub data_word : Option Text

-- The messages of a `CaptureError` about a row.
pub data RowReason : Type 0 where
  empty_run sample_not_increasing time_not_increasing not_a_decimal not_finite : RowReason
  not_an_integer not_binary not_hexadecimal : String → RowReason

-- Those errors and the others; `strip` of a field that is none is Python's own.
pub data ReadError : Type 0 where
  at_row : ℕ → RowReason → ReadError
  no_header bad_header no_samples attribute_error : ReadError

abbrev raise_if : Bool → ℕ → RowReason → Checked ReadError (Unit {0})
raise_if test row_number reason = if test then failed (at_row row_number reason) else ok tt

unfoldable pub stripped : Option Text → Checked ReadError Text
unfolding strip
stripped none = failed attribute_error
stripped (some field) = ok (strip field)

abbrev is_digit : ℕ → Bool
is_digit c = leb 48 c && leb c 57

-- The value of decimal digits, and of hexadecimal digits.
unfoldable pub decimal_digits : ℕ → Text → Option ℕ
decimal_digits value [] = some value
decimal_digits value (c ∷ text) = elim (is_digit c) [
  | true ↦ decimal_digits (value * 10 + (c - 48)) text
  | false ↦ none
]

abbrev hex_value : ℕ → ℕ
hex_value c = if leb c 57 then c - 48 else if leb c 70 then c - 55 else c - 87

unfoldable pub hex_number : ℕ → Text → Option ℕ
unfolding is_hex_digit
hex_number value [] = some value
hex_number value (c ∷ text) = elim (is_hex_digit c) [
  | true ↦ hex_number (value * 16 + hex_value c) text
  | false ↦ none
]

-- `0|[1-9][0-9]*`.
abbrev plain_decimal : Text → Option ℕ
plain_decimal [] = none
plain_decimal (c ∷ text) =
    if c == 48 && not (is_empty text) then none else decimal_digits 0 (c ∷ text)

abbrev prefixed_hex : ℕ → Text → Option ℕ
prefixed_hex digits (z ∷ x ∷ c ∷ text) =
    if z == 48 && (x == 120 && leb (length (c ∷ text)) digits)
    then hex_number 0 (c ∷ text)
    else none
prefixed_hex digits _ = none

abbrev value_or : Option ℕ → ℕ → RowReason → Checked ReadError ℕ
value_or none row_number reason = failed (at_row row_number reason)
value_or (some n) row_number reason = ok n

-- `_parse_decimal_integer`, `_parse_binary` and `_parse_hex`.
unfoldable pub parse_decimal_integer : Text → String → ℕ → Checked ReadError ℕ
unfolding decimal_digits
parse_decimal_integer token name row_number =
    value_or (plain_decimal token) row_number (not_an_integer name)

unfoldable pub parse_binary : Text → String → ℕ → Checked ReadError ℕ
parse_binary token name row_number =
    if is token "0"
    then ok 0
    else if is token "1"
    then ok 1
    else failed (at_row row_number (not_binary name))

unfoldable pub parse_hex : Text → ℕ → String → ℕ → Checked ReadError ℕ
unfolding hex_number
parse_hex token digits name row_number =
    value_or (prefixed_hex digits token) row_number (not_hexadecimal name)

-- A dictionary that a later value of a key hides an earlier one of.
unfoldable pub last_of : {A : Type 0} → Text → List (Text × A) → Option A
last_of key [] = none
last_of key ((other, value) ∷ rest) = elim (same_codes other key) [
  | true ↦ some value
  | false ↦ last_of key rest
]

-- `runs.setdefault(run, []).append(sample)`.
unfoldable pub add_sample : {A : Type 0} → Text → A → List (Text × List A) → List (Text × List A)
add_sample run sample [] = (run, sample ∷ []) ∷ []
add_sample run sample ((other, samples) ∷ rest) = elim (same_codes other run) [
  | true ↦ (other, samples ++ (sample ∷ [])) ∷ rest
  | false ↦ (other, samples) ∷ add_sample run sample rest
]

-- CAPTURE_COLUMNS.
abbrev pub capture_columns : List String
capture_columns =
    "run" ∷ "sample" ∷ "time_ns" ∷ "rs_n" ∷ "men_n" ∷ "we_n" ∷ "den_n" ∷ "address" ∷ "data" ∷ []

abbrev pub same_header : List Text → List String → Bool
same_header [] [] = true
same_header (name ∷ names) (column ∷ columns) = is name column && same_header names columns
same_header _ _ = false

-- The three dictionaries of the loop.
pub record Reading (Time : Type 0) : Type 0 where
  pub runs : List (Text × List (EdgeSample Time))
  pub last_sample : List (Text × ℕ)
  pub last_time : List (Text × Time)

module _ {Time : Type 0} (decimal : Text → Option Time) (is_valid : Time → Bool)
    (at_most : Time → Time → Bool) where
  unfoldable pub parse_time : Text → ℕ → Checked ReadError Time
  parse_time token row_number = elim (decimal token) [
    | none ↦ failed (at_row row_number not_a_decimal)
    | some time ↦ if is_valid time then ok time else failed (at_row row_number not_finite)
  ]

  -- `sample <= last_sample[run]`, and `time_ns <= last_time[run]`, for a run that has been seen.
  abbrev pub sample_falls : Option ℕ → ℕ → Bool
  sample_falls none sample = false
  sample_falls (some last) sample = leb sample last

  abbrev pub time_falls : Option Time → Time → Bool
  time_falls none time = false
  time_falls (some last) time = at_most time last

  abbrev bit_of : Option Text → String → ℕ → Checked ReadError ℕ
  bit_of field name row_number = stripped field >>= λ token. parse_binary token name row_number

  abbrev hex_of : Option Text → ℕ → String → ℕ → Checked ReadError ℕ
  hex_of field digits name row_number =
      stripped field >>= λ token. parse_hex token digits name row_number

  -- The sample of a row, from its run, its number and its time on.
  unfoldable pub sample_of : ℕ → Row → Text → ℕ → Time → Checked ReadError (EdgeSample Time)
  unfolding stripped parse_binary parse_hex
  sample_of row_number row run sample time = bit_of row.rs_n "rs_n" row_number >>= λ rs_n.
      bit_of row.men_n "men_n" row_number >>= λ men_n. bit_of row.we_n "we_n" row_number >>= λ we_n.
      bit_of row.den_n "den_n" row_number >>= λ den_n.
      hex_of row.address 3 "address" row_number >>= λ address.
      hex_of row.data_word 4 "data" row_number >>= λ data_word. ok record {
        run = run;
        sample = sample;
        time_ns = time;
        rs_n = rs_n;
        men_n = men_n;
        we_n = we_n;
        den_n = den_n;
        address = address;
        data_word = data_word;
      }

  -- One round of the loop.
  unfoldable pub read_row : ℕ → Row → Reading Time → Checked ReadError (Reading Time)
  unfolding stripped parse_decimal_integer parse_time last_of sample_of add_sample
  read_row row_number row reading = stripped row.run >>= λ run.
      raise_if (is_empty run) row_number empty_run >>= λ _. stripped row.sample >>= λ sample_token.
      parse_decimal_integer sample_token "sample" row_number >>= λ sample.
      stripped row.time_ns >>= λ time_token. parse_time time_token row_number >>= λ time.
      raise_if (sample_falls (last_of run reading.last_sample) sample) row_number
        sample_not_increasing
      >>= λ _.
          raise_if (time_falls (last_of run reading.last_time) time) row_number time_not_increasing
          >>= λ _. sample_of row_number row run sample time >>= λ edge. ok record {
            runs = add_sample run edge reading.runs;
            last_sample = (run, sample) ∷ reading.last_sample;
            last_time = (run, time) ∷ reading.last_time;
          }

  unfoldable pub read_rows : ℕ → List Row → Reading Time → Checked ReadError (Reading Time)
  unfolding read_row
  read_rows row_number [] reading = ok reading
  read_rows row_number (row ∷ rows) reading =
      read_row row_number row reading >>= λ next. read_rows (suc row_number) rows next

  -- `if not runs: raise …`.
  abbrev pub some_runs :
      List (Text × List (EdgeSample Time))
      → Checked ReadError (List (Text × List (EdgeSample Time)))
  some_runs [] = failed no_samples
  some_runs (run ∷ more) = ok (run ∷ more)

  -- `read_normalized_capture`.
  unfoldable pub read_normalized_capture :
      Option (List Text) → List Row → Checked ReadError (List (Text × List (EdgeSample Time)))
  unfolding read_rows
  read_normalized_capture none rows = failed no_header
  read_normalized_capture (some header) rows =
      if not (same_header header capture_columns)
      then failed bad_header
      else (read_rows 2 rows record { runs = []; last_sample = []; last_time = [] } >>= λ reading.
          some_runs reading.runs)
