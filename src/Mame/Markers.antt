-- ===== src/Mame/Markers.antt =====
-- tools/reference/mame_trace.py: `parse_mame_lines` and the regular expression of its markers.
use Prim.Native.String.{String}
use tms32010_sv.Base.{
  ℕ, zero, suc, ◌+◌, ◌-◌, ◌*◌, ◌/◌, ◌^◌, bit_and, Bool, true, false, not, List, [], ◌∷◌, Option,
  none, some, ltb, leb, ◌==◌, if◌then◌else◌,
}
use tms32010_sv.Base.Text.{Text, codes, is_space, is_hex_digit, is_empty}
use tms32010_sv.Database.{Checked, ok, failed}
use tms32010_sv.Mame.{
  MameState, TraceError, mame_line, malformed_marker, pc_exceeds, stack_exceeds, no_markers,
}

-- The text behind a literal.
unfoldable pub behind : Text → Text → Option Text
behind [] text = some text
behind (_ ∷ _) [] = none
behind (letter ∷ letters) (c ∷ text) = elim (letter == c) [
  | true ↦ behind letters text
  | false ↦ none
]

-- `MARKER in line`.
unfoldable pub contains : Text → Text → Bool
unfolding behind
contains literal [] = is_empty literal
contains literal (c ∷ text) =
    let later = contains literal text in
    elim (behind literal (c ∷ text)) [ some _ ↦ true | none ↦ later ]

-- `int(value, 16)` of a hexadecimal digit.
unfoldable pub hex_value : ℕ → ℕ
hex_value c = if leb c 57 then c - 48 else if leb c 70 then c - 55 else c - 87

-- `([0-9A-Fa-f]{width})` and its value, and the text behind it.
unfoldable pub hex_digits : ℕ → ℕ → Text → Option (ℕ × Text)
unfolding is_hex_digit hex_value
hex_digits zero value text = some (value, text)
hex_digits (suc width) value [] = none
hex_digits (suc width) value (c ∷ text) = elim (is_hex_digit c) [
  | true ↦ hex_digits width (value * 16 + hex_value c) text
  | false ↦ none
]

-- The literals of the pattern, each with the width of the field behind it.
unfoldable pub pattern_fields : List (String × ℕ)
pattern_fields =
    ("TMS32010_STATE PC=", 4)
    ∷ (" ACC=", 8)
    ∷ (" P=", 8)
    ∷ (" T=", 4)
    ∷ (" AR0=", 4)
    ∷ (" AR1=", 4)
    ∷ (" STR=", 4)
    ∷ (" STK0=", 4)
    ∷ (" STK1=", 4)
    ∷ (" STK2=", 4)
    ∷ (" STK3=", 4)
    ∷ []

-- `(?=\s|$)`.
abbrev ends_field : Text → Bool
ends_field [] = true
ends_field (c ∷ _) = is_space c

-- The fields of a match at the start of a text.
unfoldable pub match_fields : List (String × ℕ) → Text → Option (List ℕ)
unfolding behind hex_digits is_space
match_fields [] text = if ends_field text then some [] else none
match_fields ((literal, width) ∷ fields) text = elim (behind (codes literal) text) [
  | none ↦ none
  | some rest ↦ elim (hex_digits width 0 rest) [
    | none ↦ none
    | some (value, after) ↦ elim (match_fields fields after) [
      | none ↦ none
      | some values ↦ some (value ∷ values)
    ]
  ]
]

-- `_MAME_STATE_PATTERN.search`.
unfoldable pub search_fields : Text → Option (List ℕ)
unfolding match_fields pattern_fields
search_fields [] = none
search_fields (c ∷ text) =
    let later = search_fields text in
    elim (match_fields pattern_fields (c ∷ text)) [ some values ↦ some values | none ↦ later ]

abbrev test_bit : ℕ → ℕ → Bool
test_bit status mask = not (bit_and status mask == 0)

-- `if value > 0x0FFF: raise …`, over the four words of the stack.
unfoldable pub check_stack : ℕ → List (String × ℕ) → Checked TraceError (Unit {0})
check_stack line_number [] = ok tt
check_stack line_number ((name, value) ∷ rest) =
    let later = check_stack line_number rest in
    if ltb 0x0FFF value then failed (mame_line line_number (stack_exceeds name value)) else later

-- The state of the fields of a marker.
unfoldable pub state_of : ℕ → List ℕ → Checked TraceError MameState
unfolding check_stack
state_of line_number (pc ∷ acc ∷ p ∷ t ∷ ar0 ∷ ar1 ∷ status ∷ stk0 ∷ stk1 ∷ stk2 ∷ stk3 ∷ []) =
    if ltb 0x0FFF pc
    then failed (mame_line line_number (pc_exceeds pc))
    else (elim (check_stack line_number
        (("STK0", stk0) ∷ ("STK1", stk1) ∷ ("STK2", stk2) ∷ ("STK3", stk3) ∷ [])) [
          | failed e ↦ failed e
          | ok _ ↦ ok record {
            line_number = line_number;
            pc = pc;
            acc = acc;
            p = p;
            t = t;
            ar = (ar0, ar1);
            stack = (stk3, stk2, stk1, stk0);
            ov = test_bit status 0x8000;
            ovm = test_bit status 0x4000;
            intm = test_bit status 0x2000;
            arp = bit_and (status / 2 ^ 8) 1;
            dp = bit_and status 1;
            raw_str = status;
          }
        ])
state_of line_number _ = failed (mame_line line_number malformed_marker)

-- The marker of a line, if it has one.
unfoldable pub parse_line : ℕ → Text → Checked TraceError (Option MameState)
unfolding contains search_fields state_of
parse_line line_number line =
    if contains (codes "TMS32010_STATE") line
    then (elim (search_fields line) [
      | none ↦ failed (mame_line line_number malformed_marker)
      | some values ↦ elim (state_of line_number values) [
        | failed e ↦ failed e
        | ok state ↦ ok (some state)
      ]
    ])
    else ok none

abbrev pub with_state : Option MameState → List MameState → List MameState
with_state none states = states
with_state (some state) states = state ∷ states

-- The loop, from a line number on.
unfoldable pub parse_lines : ℕ → List Text → Checked TraceError (List MameState)
unfolding parse_line
parse_lines line_number [] = ok []
parse_lines line_number (line ∷ lines) = elim (parse_line line_number line) [
  | failed e ↦ failed e
  | ok found ↦ elim (parse_lines (suc line_number) lines) [
    | failed e ↦ failed e
    | ok states ↦ ok (with_state found states)
  ]
]

-- `parse_mame_lines`.
unfoldable pub parse_mame_lines : List Text → Checked TraceError (List MameState)
unfolding parse_lines
parse_mame_lines lines = elim (parse_lines 1 lines) [
  | failed e ↦ failed e
  | ok [] ↦ failed no_markers
  | ok (state ∷ states) ↦ ok (state ∷ states)
]
