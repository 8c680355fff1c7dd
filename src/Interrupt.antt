-- ===== src/Interrupt.antt =====
-- sim/reference_models/tms32010_model.py: the interrupt-entry cycle of `step`, the latch of the
-- request, and `_advance_interrupt_pipeline`.
pub mod Laws
pub mod Latency
pub mod Names
use tms32010_sv.Base.{ℕ, ◌+◌, Bool, true, false, not, ◌&&◌, [], ◌∷◌, if◌then◌else◌, done}
use tms32010_sv.Base.Int.{pos}
use tms32010_sv.Isa.{Instruction, MemoryOp}
use tms32010_sv.Machine.{M, Model, Transaction, StepTrace, architectural_state}

-- The multiplies, whose next instruction is protected.
unfoldable pub is_multiply : Instruction → Bool
is_multiply (Instruction.memory MemoryOp.mpy _) = true
is_multiply (Instruction.mpyk _) = true
is_multiply _ = false

-- `_advance_interrupt_pipeline`, called with the retired mnemonic.
unfoldable pub advance_interrupt_pipeline : Instruction → Model → Model
unfolding is_multiply
advance_interrupt_pipeline retired m =
    if m.interrupt_delay_one
    then if m.state.status.intm
      then record m { interrupt_delay_one = false }
      else if is_multiply retired
      then record m { interrupt_delay_one = true }
      else record m { interrupt_delay_one = false; interrupt_entry_pending = true }
    else if m.state.interrupt_pending && not m.state.status.intm
    then record m { interrupt_delay_one = true }
    else m

-- `if not self.interrupt_input_high: self.state.interrupt_pending = True`.
unfoldable pub latch_interrupt : Model → Model
latch_interrupt m =
    if not m.interrupt_input_high
    then record m { state = record (m.state) { interrupt_pending = true } }
    else m

-- The machine after the dummy cycle that acknowledges an interrupt.
unfoldable pub enter_interrupt : ℕ → Model → Model
enter_interrupt pc m =
    let s = m.state in
    record m {
      state = record s {
        stack = (pc, s.stack.0, s.stack.1, s.stack.2);
        pc = 0x002;
        status = record (s.status) { intm = true };
        interrupt_pending = false;
      };
      interrupt_delay_one = false;
      interrupt_entry_pending = false;
      cycle_count = m.cycle_count + 1;
    }

unfoldable pub interrupt_entry : ℕ → ℕ → M StepTrace
unfolding enter_interrupt architectural_state
interrupt_entry pc opcode m =
    let transaction : Transaction = record {
      cycle = m.cycle_count;
      space = "program";
      operation = "interrupt_dummy_fetch";
      address = pc;
      value = opcode;
    } in
    let after = enter_interrupt pc m in
    done
      (record {
        pc = pc;
        opcode = opcode;
        mnemonic = "INTERRUPT";
        operands = ("return_address", pos pc) ∷ ("vector", pos 0x002) ∷ [];
        cycles = 1;
        transactions = transaction ∷ [];
        state_after = architectural_state after;
      })
      after
