-- ===== src/Mame/Records.antt =====
-- tools/reference/mame_trace.py: `parse_model_lines` over JSON records, and `_model_state_view`.
-- `json.loads` is a parameter that returns a value, or none where it raises a `JSONDecodeError`.
use Prim.Native.String.{String}
use tms32010_sv.Base.{ℕ, suc, Bool, List, [], ◌∷◌, Option, none, some, leb, if◌then◌else◌}
use tms32010_sv.Base.Int.{ℤ, pos, negsuc}
use tms32010_sv.Base.Text.{Text, is, is_empty, strip}
use tms32010_sv.Database.{Checked, ok, failed}
use tms32010_sv.Database.Chains.{◌>>=◌}
use tms32010_sv.Mame.{
  Json, Members, boolean, integer, text, array, object, no_item, item, no_member, member, MameState,
  ModelStep, TraceError, LineReason, model_line, invalid_json, not_an_object, mnemonic_not_text,
  interrupt_step, state_not_an_object, malformed_state_after, not_an_integer, not_boolean,
  out_of_range, no_records,
}

-- `record.get(key)`: of two members of one name, the dictionary keeps the later.
unfoldable pub get : Members → String → Option Json
get no_member key = none
get (member name value rest) key = elim (get rest key) [
  | some later ↦ some later
  | none ↦ if is name key then some value else none
]

abbrev pub fails : {A : Type 0} → ℕ → LineReason → Checked TraceError A
fails line_number reason = failed (model_line line_number reason)

-- `_require_int`.
unfoldable pub require_int : Members → String → ℕ → Checked TraceError ℤ
unfolding get
require_int entry key line_number = elim (get entry key) [
  | some (integer value) ↦ ok value
  | _ ↦ fails line_number (not_an_integer key)
]

-- `if not 0 <= value <= limit: raise …`.
unfoldable pub check_range : ℕ → String → ℕ → ℤ → Checked TraceError ℕ
check_range line_number name limit (pos n) =
    if leb n limit then ok n else fails line_number (out_of_range name (pos n))
check_range line_number name limit (negsuc n) = fails line_number (out_of_range name (negsuc n))

-- `isinstance(mnemonic, str)` and not empty, and no `INTERRUPT`.
unfoldable pub mnemonic_of : ℕ → Option Json → Checked TraceError Text
mnemonic_of line_number (some (text name)) =
    if is_empty name
    then fails line_number mnemonic_not_text
    else if is name "INTERRUPT"
    then fails line_number interrupt_step
    else ok name
mnemonic_of line_number _ = fails line_number mnemonic_not_text

unfoldable pub state_after_of : ℕ → Option Json → Checked TraceError Members
state_after_of line_number (some (object state)) = ok state
state_after_of line_number _ = fails line_number state_not_an_object

-- The step of a record.
unfoldable pub step_of : ℕ → Json → Checked TraceError ModelStep
unfolding get mnemonic_of state_after_of require_int check_range
step_of line_number (object entry) = mnemonic_of line_number (get entry "mnemonic") >>= λ mnemonic.
    state_after_of line_number (get entry "state_after") >>= λ state_after.
    require_int entry "pc" line_number >>= λ pc.
    require_int entry "opcode" line_number >>= λ opcode.
    check_range line_number "PC" 0x0FFF pc >>= λ pc_word.
    check_range line_number "opcode" 0xFFFF opcode >>= λ opcode_word. ok record {
      line_number = line_number;
      pc = pc_word;
      opcode = opcode_word;
      mnemonic = mnemonic;
      state_after = state_after;
    }
step_of line_number _ = fails line_number not_an_object

module _ (loads : Text → Option Json) where
  -- The step of a line, if it is not blank.
  unfoldable pub parse_step : ℕ → Text → Checked TraceError (Option ModelStep)
  unfolding strip step_of
  parse_step line_number line = if is_empty (strip line) then ok none else (elim (loads line) [
    | none ↦ fails line_number invalid_json
    | some value ↦ step_of line_number value >>= λ step. ok (some step)
  ])

  unfoldable pub parse_steps : ℕ → List Text → Checked TraceError (List ModelStep)
  unfolding parse_step
  parse_steps line_number [] = ok []
  parse_steps line_number (line ∷ lines) = parse_step line_number line >>= λ found.
      parse_steps (suc line_number) lines >>= λ steps. elim found [
        | none ↦ ok steps
        | some step ↦ ok (step ∷ steps)
      ]

  -- `parse_model_lines`.
  unfoldable pub parse_model_lines : List Text → Checked TraceError (List ModelStep)
  unfolding parse_steps
  parse_model_lines lines = parse_steps 1 lines >>= λ steps. elim steps [
    | [] ↦ failed no_records
    | step ∷ more ↦ ok (step ∷ more)
  ]

-- The dictionary of a view: the names of its keys are `pc`, `acc`, `p`, `t`, `ar[0]`, `ar[1]`,
-- `stack[0]` to `stack[3]`, `status.ov`, `status.ovm`, `status.intm`, `status.arp` and `status.dp`.
pub record View : Type 0 where
  pub pc : ℕ
  pub acc : ℕ
  pub p : ℕ
  pub t : ℕ
  pub ar : ℕ × ℕ
  pub stack : ℕ × ℕ × ℕ × ℕ
  pub ov : Bool
  pub ovm : Bool
  pub intm : Bool
  pub arp : ℕ
  pub dp : ℕ

-- The values of the dictionary before their kinds are checked.
pub record RawView : Type 0 where
  pub pc : Json
  pub acc : Json
  pub p : Json
  pub t : Json
  pub ar : Json × Json
  pub stack : Json × Json × Json × Json
  pub ov : Json
  pub ovm : Json
  pub intm : Json
  pub arp : Json
  pub dp : Json

module _ (line_number : ℕ) where
  -- `state[key]`, and the lists and the object in a state: the `except` clause gives their errors one
  -- class.
  unfoldable pub value_at : Members → String → Checked TraceError Json
  unfolding get
  value_at state key = elim (get state key) [
    | none ↦ fails line_number malformed_state_after
    | some value ↦ ok value
  ]

  unfoldable pub two_values : Json → Checked TraceError (Json × Json)
  two_values (array (item a (item b no_item))) = ok (a, b)
  two_values _ = fails line_number malformed_state_after

  unfoldable pub four_values : Json → Checked TraceError (Json × Json × Json × Json)
  four_values (array (item a (item b (item c (item d no_item))))) = ok (a, b, c, d)
  four_values _ = fails line_number malformed_state_after

  unfoldable pub object_members : Json → Checked TraceError Members
  object_members (object members) = ok members
  object_members _ = fails line_number malformed_state_after

  unfoldable pub raw_view : Members → Checked TraceError RawView
  unfolding value_at two_values four_values object_members
  raw_view state = value_at state "ar" >>= two_values >>= λ ar.
      value_at state "stack" >>= four_values >>= λ stack.
      value_at state "status" >>= object_members >>= λ status. value_at state "pc" >>= λ pc.
      value_at state "acc" >>= λ acc. value_at state "p" >>= λ p. value_at state "t" >>= λ t.
      value_at status "ov" >>= λ ov. value_at status "ovm" >>= λ ovm.
      value_at status "intm" >>= λ intm. value_at status "arp" >>= λ arp.
      value_at status "dp" >>= λ dp. ok record {
        pc = pc;
        acc = acc;
        p = p;
        t = t;
        ar = ar;
        stack = stack;
        ov = ov;
        ovm = ovm;
        intm = intm;
        arp = arp;
        dp = dp;
      }

  -- `isinstance(view[name], bool)`, and the limit of a number.
  unfoldable pub flag : String → Json → Checked TraceError Bool
  flag name (boolean value) = ok value
  flag name _ = fails line_number (not_boolean name)

  unfoldable pub limited : String → ℕ → Json → Checked TraceError ℕ
  unfolding check_range
  limited name limit (integer value) = check_range line_number name limit value
  limited name limit _ = fails line_number (not_an_integer name)

  -- The checks of the values.
  unfoldable pub checked_view : RawView → Checked TraceError View
  unfolding flag limited
  checked_view raw = flag "status.ov" raw.ov >>= λ ov. flag "status.ovm" raw.ovm >>= λ ovm.
      flag "status.intm" raw.intm >>= λ intm. limited "pc" 0x0FFF raw.pc >>= λ pc.
      limited "acc" 0xFFFF_FFFF raw.acc >>= λ acc. limited "p" 0xFFFF_FFFF raw.p >>= λ p.
      limited "t" 0xFFFF raw.t >>= λ t. limited "ar[0]" 0xFFFF raw.ar.0 >>= λ ar0.
      limited "ar[1]" 0xFFFF raw.ar.1 >>= λ ar1. limited "stack[0]" 0x0FFF raw.stack.0 >>= λ stack0.
      limited "stack[1]" 0x0FFF raw.stack.1 >>= λ stack1.
      limited "stack[2]" 0x0FFF raw.stack.2 >>= λ stack2.
      limited "stack[3]" 0x0FFF raw.stack.3 >>= λ stack3. limited "status.arp" 1 raw.arp >>= λ arp.
      limited "status.dp" 1 raw.dp >>= λ dp. ok record {
        pc = pc;
        acc = acc;
        p = p;
        t = t;
        ar = (ar0, ar1);
        stack = (stack0, stack1, stack2, stack3);
        ov = ov;
        ovm = ovm;
        intm = intm;
        arp = arp;
        dp = dp;
      }

-- `_model_state_view`.
unfoldable pub model_state_view : ModelStep → Checked TraceError View
unfolding raw_view checked_view
model_state_view step = raw_view step.line_number step.state_after >>= checked_view step.line_number

-- `_mame_state_view`.
abbrev pub mame_state_view : MameState → View
mame_state_view state = record {
  pc = state.pc;
  acc = state.acc;
  p = state.p;
  t = state.t;
  ar = state.ar;
  stack = state.stack;
  ov = state.ov;
  ovm = state.ovm;
  intm = state.intm;
  arp = state.arp;
  dp = state.dp;
}
