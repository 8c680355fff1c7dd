-- ===== src/Retire.antt =====
-- sim/reference_models/tms32010_model.py: how every instruction of `step` ends, with its cycle total,
-- the interrupt pipeline and the trace; and the transactions that several instructions share.
pub mod Laws
use Prim.Native.String.{String}
use tms32010_sv.Base.{ℕ, ◌+◌, List, done, bit_and}
use tms32010_sv.Isa.{Instruction, Operands, mnemonic}
use tms32010_sv.Machine.{M, Model, Transaction, StepTrace, architectural_state}
use tms32010_sv.Interrupt.{advance_interrupt_pipeline}

-- `(pc + n) & PC_MASK`.
abbrev pub pc_plus : ℕ → ℕ → ℕ
pc_plus pc n = bit_and (pc + n) 0x0FFF

abbrev pub transaction : ℕ → String → String → ℕ → ℕ → Transaction
transaction cycle space operation address value = record {
  cycle = cycle;
  space = space;
  operation = operation;
  address = address;
  value = value;
}

abbrev pub instruction_fetch : Model → ℕ → ℕ → Transaction
instruction_fetch m pc opcode = transaction m.cycle_count "program" "instruction_fetch" pc opcode

-- The machine after the instruction's cycles.
unfoldable pub retire_state : Instruction → ℕ → Model → Model
unfolding advance_interrupt_pipeline
retire_state i cycles m =
    advance_interrupt_pipeline i (record m { cycle_count = m.cycle_count + cycles })

unfoldable pub retire : Instruction → ℕ → ℕ → Operands → ℕ → List Transaction → M StepTrace
unfolding retire_state architectural_state mnemonic
retire i pc opcode operands cycles transactions m =
    let after = retire_state i cycles m in
    done
      (record {
        pc = pc;
        opcode = opcode;
        mnemonic = mnemonic i;
        operands = operands;
        cycles = cycles;
        transactions = transactions;
        state_after = architectural_state after;
      })
      after
