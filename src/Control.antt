-- ===== src/Control.antt =====
-- sim/reference_models/tms32010_model.py: the branches, calls, returns and stack instructions of
-- `step`, all of which take two cycles.
pub mod Safe
pub mod Stack
use tms32010_sv.Base.{
  ℕ, ◌+◌, bit_and, Bool, false, not, [], ◌∷◌, ◌==◌, if◌then◌else◌, require, get, pure, ◌>>=◌, ◌>>◌,
}
use tms32010_sv.Base.Int.{pos, negsuc}
use tms32010_sv.Isa.{ControlFlow, Instruction, Operands, int_of}
use tms32010_sv.Machine.{M, State, StepTrace, unsupported_program_operand}
use tms32010_sv.Access.{read, read_ar, write_ar, modify_state, modify_status, set_pc}
use tms32010_sv.Alu.{modify_counter, accumulator_branch_taken}
use tms32010_sv.Retire.{pc_plus, transaction, instruction_fetch, retire}

-- The stack with a new top, and with its top removed; `mask` is `& PC_MASK`.
abbrev pub mask : ℕ → ℕ
mask a = bit_and a 0x0FFF

unfoldable pub push_masked : ℕ → State → State
push_masked top s = record s { stack = (top, mask s.stack.0, mask s.stack.1, mask s.stack.2) }

unfoldable pub push_plain : ℕ → State → State
push_plain top s = record s { stack = (top, s.stack.0, s.stack.1, s.stack.2) }

unfoldable pub drop_top : State → State
drop_top s =
    let old_bottom = mask s.stack.3 in
    record s { stack = (mask s.stack.1, mask s.stack.2, old_bottom, old_bottom) }

-- `CALA`, `POP`, `RET` and `PUSH` on the registers, at the program counter `pc`.
unfoldable pub cala_state : ℕ → State → State
unfolding push_masked
cala_state pc s = record (push_masked (pc_plus pc 1) s) { pc = mask s.acc }

unfoldable pub pop_state : ℕ → State → State
unfolding drop_top
pop_state pc s = record (drop_top s) { acc = mask s.stack.0; pc = pc_plus pc 1 }

unfoldable pub ret_state : State → State
unfolding drop_top
ret_state s = record (drop_top s) { pc = mask s.stack.0 }

unfoldable pub push_state : ℕ → State → State
unfolding push_masked
push_state pc s = record (push_masked (mask s.acc) s) { pc = pc_plus pc 1 }

unfoldable pub execute_stack : Instruction → (State → State) → ℕ → ℕ → M StepTrace
execute_stack i change pc opcode = do
  m ← get
  modify_state change
  retire i pc opcode [] 2 (instruction_fetch m pc opcode ∷ [])

abbrev pub branch_target : Bool → ℕ → ℕ → ℕ
branch_target taken target pc = if taken then target else pc_plus pc 2

-- What each two-word instruction does with its target, and the operands that it records.
unfoldable pub perform_control : ControlFlow → ℕ → ℕ → M Operands
perform_control ControlFlow.banz target pc = do
  m ← get
  let selected_arp = m.state.status.arp
  counter ← read_ar selected_arp
  let branch_taken = not (bit_and counter 0x01FF == 0)
  write_ar selected_arp (modify_counter counter (negsuc 0))
  set_pc (branch_target branch_taken target pc)
  pure (("auxiliary_register", pos selected_arp) ∷ ("branch_taken", int_of branch_taken) ∷ [])
perform_control ControlFlow.b target pc = do set_pc target; pure []
perform_control ControlFlow.bv target pc = do
  m ← get
  let branch_taken = m.state.status.ov
  set_pc (branch_target branch_taken target pc)
  modify_status (λ s. if branch_taken then record s { ov = false } else s)
  pure (("branch_taken", int_of branch_taken) ∷ [])
perform_control ControlFlow.bioz target pc = do
  m ← get
  let branch_taken = not m.bio_input_high
  set_pc (branch_target branch_taken target pc)
  pure (("branch_taken", int_of branch_taken) ∷ [])
perform_control ControlFlow.call target pc = do
  modify_state (push_plain (pc_plus pc 2))
  set_pc target
  pure []
perform_control (ControlFlow.accumulator c) target pc = do
  m ← get
  let branch_taken = accumulator_branch_taken c m.state.acc
  set_pc (branch_target branch_taken target pc)
  pure (("branch_taken", int_of branch_taken) ∷ [])

-- A two-word instruction. A following word above the program space raises.
unfoldable pub execute_control : ControlFlow → ℕ → ℕ → M StepTrace
execute_control c pc opcode = do
  m ← get
  let operand_address = pc_plus pc 1
  word ← read m.program operand_address
  let operand_word = bit_and word 0xFFFF
  let target = bit_and operand_word 0x0FFF
  require (bit_and operand_word 0xF000 == 0)
      (unsupported_program_operand pc opcode operand_address operand_word)
  let following =
      transaction (m.cycle_count + 1) "program" "following_word_fetch" operand_address operand_word
  recorded ← perform_control c target pc
  retire (Instruction.control c) pc opcode (("program_address", pos target) ∷ recorded) 2
      (instruction_fetch m pc opcode ∷ following ∷ [])
