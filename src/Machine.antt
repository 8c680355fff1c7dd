-- ===== src/Machine.antt =====
-- sim/reference_models/tms32010_model.py: the classes `Status`, `State`, `Transaction`, `StepTrace`,
-- the exceptions, and the object `Tms32010Model` with its constructor, its reset and its snapshot.
-- `ar` and `stack` are lists of 2 and of 4 in the source and never change their length: tuples here.
use Prim.Native.String.{String}
use tms32010_sv.Base.{ℕ, List, Bool, true, false, replicate, Method}
use tms32010_sv.Isa.{Operands}

-- PROGRAM_WORDS, DATA_WORDS and IO_PORTS.
abbrev pub program_words : ℕ
program_words = 4096

abbrev pub data_words : ℕ
data_words = 144

abbrev pub io_ports : ℕ
io_ports = 8

-- `UnsupportedOpcode(pc, opcode)` and the others; `index_error` is Python's `IndexError`.
pub data Fault : Type 0 where
  unsupported_opcode : ℕ → ℕ → Fault
  unsupported_data_address : ℕ → ℕ → ℕ → Fault
  unsupported_program_operand : ℕ → ℕ → ℕ → ℕ → Fault
  index_error : Fault

pub record Status : Type 0 where
  pub ov : Bool
  pub ovm : Bool
  pub intm : Bool
  pub arp : ℕ
  pub dp : ℕ

pub record State : Type 0 where
  pub pc : ℕ
  pub acc : ℕ
  pub p : ℕ
  pub t : ℕ
  pub ar : ℕ × ℕ
  pub stack : ℕ × ℕ × ℕ × ℕ
  pub status : Status
  pub interrupt_pending : Bool

pub record Transaction : Type 0 where
  pub cycle : ℕ
  pub space : String
  pub operation : String
  pub address : ℕ
  pub value : ℕ

-- The result of `architectural_state`.
pub record Snapshot : Type 0 where
  pub state : State
  pub interrupt_delay_one : Bool
  pub interrupt_entry_pending : Bool
  pub cycle_count : ℕ

pub record StepTrace : Type 0 where
  pub pc : ℕ
  pub opcode : ℕ
  pub mnemonic : String
  pub operands : Operands
  pub cycles : ℕ
  pub transactions : List Transaction
  pub state_after : Snapshot

-- `data` is a reserved word here: the data memory is `data_memory`.
pub record Model : Type 0 where
  pub state : State
  pub program : List ℕ
  pub data_memory : List ℕ
  pub io_input : List ℕ
  pub io_output : List ℕ
  pub bio_input_high : Bool
  pub interrupt_input_high : Bool
  pub interrupt_delay_one : Bool
  pub interrupt_entry_pending : Bool
  pub cycle_count : ℕ

-- A method of the model: it mutates the object, and may raise.
abbrev pub M : Type 0 → Type 0
M A = Method Model Fault A

unfoldable pub initial_status : Status
initial_status = record { ov = false; ovm = false; intm = false; arp = 0; dp = 0 }

unfoldable pub initial_state : State
unfolding initial_status
initial_state = record {
  pc = 0;
  acc = 0;
  p = 0;
  t = 0;
  ar = (0, 0);
  stack = (0, 0, 0, 0);
  status = initial_status;
  interrupt_pending = false;
}

-- `Tms32010Model.__init__`.
unfoldable pub initial : Model
unfolding initial_state
initial = record {
  state = initial_state;
  program = replicate program_words 0;
  data_memory = replicate data_words 0;
  io_input = replicate io_ports 0;
  io_output = replicate io_ports 0;
  bio_input_high = true;
  interrupt_input_high = true;
  interrupt_delay_one = false;
  interrupt_entry_pending = false;
  cycle_count = 0;
}

unfoldable pub reset_at_instruction_boundary : Model → Model
reset_at_instruction_boundary m =
    let status = record (m.state.status) { intm = true } in
    record m {
      state = record (m.state) { pc = 0; status = status; interrupt_pending = false };
      interrupt_delay_one = false;
      interrupt_entry_pending = false;
    }

unfoldable pub architectural_state : Model → Snapshot
architectural_state m = record {
  state = m.state;
  interrupt_delay_one = m.interrupt_delay_one;
  interrupt_entry_pending = m.interrupt_entry_pending;
  cycle_count = m.cycle_count;
}
