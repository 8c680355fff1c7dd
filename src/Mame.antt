-- ===== src/Mame.antt =====
-- tools/reference/mame_trace.py: the states and steps that are compared, and the errors. A line of a file
-- is its text with its line end.
pub mod Markers
pub mod Records
pub mod Compare
pub mod Command
use Prim.Native.String.{String}
use tms32010_sv.Base.{ℕ, Bool}
use tms32010_sv.Base.Int.{ℤ}
use tms32010_sv.Base.Text.{Text}

-- The values of JSON. A number that is no integer is not told apart further.
mutual
  pub data Json : Type 0 where
    null other_number : Json
    boolean : Bool → Json
    integer : ℤ → Json
    text : Text → Json
    array : Items → Json
    object : Members → Json

  pub data Items : Type 0 where
    no_item : Items
    item : Json → Items → Items

  pub data Members : Type 0 where
    no_member : Members
    member : Text → Json → Members → Members

-- The class `MameState`.
pub record MameState : Type 0 where
  pub line_number : ℕ
  pub pc : ℕ
  pub acc : ℕ
  pub p : ℕ
  pub t : ℕ
  pub ar : ℕ × ℕ
  pub stack : ℕ × ℕ × ℕ × ℕ
  pub ov : Bool
  pub ovm : Bool
  pub intm : Bool
  pub arp : ℕ
  pub dp : ℕ
  pub raw_str : ℕ

-- The class `ModelStep`. The program counter and the opcode are never negative.
pub record ModelStep : Type 0 where
  pub line_number : ℕ
  pub pc : ℕ
  pub opcode : ℕ
  pub mnemonic : Text
  pub state_after : Members

-- The messages of a `TraceFormatError` about a line of a trace.
pub data LineReason : Type 0 where
  malformed_marker invalid_json not_an_object mnemonic_not_text interrupt_step : LineReason
  state_not_an_object malformed_state_after : LineReason
  pc_exceeds : ℕ → LineReason
  stack_exceeds : String → ℕ → LineReason
  not_an_integer not_boolean : String → LineReason
  out_of_range : String → ℤ → LineReason

-- Those errors, and the others; an index out of range is Python's own.
pub data TraceError : Type 0 where
  mame_line model_line : ℕ → LineReason → TraceError
  no_markers no_records : TraceError
  missing_sentinel trailing_rows : ℕ → ℕ → TraceError
  index_error : TraceError
