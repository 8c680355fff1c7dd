-- ===== src/Step.antt =====
-- sim/reference_models/tms32010_model.py: `step`, one instruction or one interrupt-entry cycle.
pub mod Memory
pub mod Safe
pub mod Total
pub mod Reachable
pub mod Phases
pub mod Delay
pub mod Entry
use tms32010_sv.Base.{
  ℕ, ◌+◌, bit_and, true, false, not, ◌||◌, [], ◌∷◌, ◌++◌, none, some, ltb, if◌then◌else◌, require,
  raise, get, pure, modify, ◌>>=◌, ◌>>◌,
}
use tms32010_sv.Base.Int.{pos}
use tms32010_sv.Isa.{Address, MemoryOp, Instruction, Operands, decoded_operands}
use tms32010_sv.Decode.{decode}
use tms32010_sv.Machine.{M, StepTrace, unsupported_opcode, unsupported_data_address, data_words}
use tms32010_sv.Access.{read, write_ar, modify_state, modify_status, set_acc, set_pc}
use tms32010_sv.Alu.{add_accumulator, subtract_accumulator, multiply_constant, absolute_accumulator}
use tms32010_sv.Interrupt.{latch_interrupt, interrupt_entry}
use tms32010_sv.Retire.{pc_plus, instruction_fetch, retire}
use tms32010_sv.Control.{
  execute_stack, execute_control, cala_state, pop_state, push_state, ret_state,
}
use tms32010_sv.Operand.{effective_address, transaction_data, operand_transactions, moves}
use tms32010_sv.Perform.{perform, post_modify, suppresses_update, is_lst}

-- The entries that an instruction with a data operand adds to its dictionary.
table_entries : MemoryOp → ℕ → Operands
table_entries MemoryOp.tblr acc = ("program_address", pos (bit_and acc 0x0FFF)) ∷ []
table_entries MemoryOp.tblw acc = ("program_address", pos (bit_and acc 0x0FFF)) ∷ []
table_entries _ acc = []

unfoldable pub address_entries : MemoryOp → ℕ → ℕ → Operands
unfolding table_entries
address_entries op ea acc =
    ("effective_address", pos ea)
    ∷ ((if moves op then ("move_address", pos (ea + 1)) ∷ [] else []) ++ table_entries op acc)

-- 3 cycles for a table transfer, 2 for a port, 1 for the rest.
unfoldable pub memory_cycles : MemoryOp → ℕ
memory_cycles MemoryOp.tblr = 3
memory_cycles MemoryOp.tblw = 3
memory_cycles (MemoryOp.in_port _) = 2
memory_cycles (MemoryOp.out_port _) = 2
memory_cycles _ = 1

-- An instruction with an operand in data memory. Both address checks come before any change.
unfoldable pub execute_memory : MemoryOp → Address → ℕ → ℕ → M StepTrace
unfolding memory_cycles
execute_memory op a pc opcode = do
  m ← get
  ea ← effective_address op a
  require (ltb ea data_words) (unsupported_data_address pc opcode ea)
  require (not (moves op) || ltb (ea + 1) data_words) (unsupported_data_address pc opcode (ea + 1))
  value ← transaction_data op a ea
  transactions ← operand_transactions op pc ea value
  set_pc (pc_plus pc 1)
  perform op a ea value
  if a.indirect
      then post_modify a (suppresses_update op m.state.status.arp) (is_lst op) m.state.status.arp
      else pure tt
  retire (Instruction.memory op a) pc opcode
      (decoded_operands (Instruction.memory op a) ++ address_entries op ea m.state.acc)
      (memory_cycles op) (instruction_fetch m pc opcode ∷ transactions)

-- `MAR` reads no data memory: it only modifies the auxiliary register and pointer.
unfoldable pub execute_mar : Address → ℕ → ℕ → M StepTrace
execute_mar a pc opcode = do
  m ← get
  set_pc (pc_plus pc 1)
  if a.indirect then post_modify a false false m.state.status.arp else pure tt
  retire (Instruction.mar a) pc opcode (decoded_operands (Instruction.mar a)) 1
      (instruction_fetch m pc opcode ∷ [])

-- What the instructions without an operand in memory perform.
unfoldable pub perform_register : Instruction → M (Unit {0})
perform_register (Instruction.lack constant) = set_acc (bit_and constant 0xFF)
perform_register (Instruction.mpyk constant) =
    modify_state (λ s. record s { p = multiply_constant s.t constant })
perform_register Instruction.pac = modify_state (λ s. record s { acc = s.p })
perform_register Instruction.apac = modify_state (λ s. add_accumulator s.p s)
perform_register Instruction.spac = modify_state (λ s. subtract_accumulator s.p s)
perform_register (Instruction.lark register constant) = write_ar register (bit_and constant 0xFF)
perform_register (Instruction.larp constant) = modify_status (λ s. record s { arp = constant })
perform_register (Instruction.ldpk constant) = modify_status (λ s. record s { dp = constant })
perform_register Instruction.abs = modify_state absolute_accumulator
perform_register Instruction.zac = set_acc 0
perform_register Instruction.rovm = modify_status (λ s. record s { ovm = false })
perform_register Instruction.sovm = modify_status (λ s. record s { ovm = true })
perform_register Instruction.dint = modify_status (λ s. record s { intm = true })
perform_register Instruction.eint = modify_status (λ s. record s { intm = false })
perform_register _ = pure tt

unfoldable pub execute_register : Instruction → ℕ → ℕ → M StepTrace
execute_register i pc opcode = do
  m ← get
  set_pc (pc_plus pc 1)
  perform_register i
  retire i pc opcode (decoded_operands i) 1 (instruction_fetch m pc opcode ∷ [])

-- The long conditional of `step` on the mnemonic.
unfoldable pub execute : Instruction → ℕ → ℕ → M StepTrace
execute (Instruction.control c) pc opcode = execute_control c pc opcode
execute Instruction.cala pc opcode = execute_stack Instruction.cala (cala_state pc) pc opcode
execute Instruction.pop pc opcode = execute_stack Instruction.pop (pop_state pc) pc opcode
execute Instruction.push pc opcode = execute_stack Instruction.push (push_state pc) pc opcode
execute Instruction.ret pc opcode = execute_stack Instruction.ret ret_state pc opcode
execute (Instruction.memory op a) pc opcode = execute_memory op a pc opcode
execute (Instruction.mar a) pc opcode = execute_mar a pc opcode
execute i pc opcode = execute_register i pc opcode

-- One instruction: the request is latched, then the word is decoded and executed.
unfoldable pub run_instruction : ℕ → ℕ → M StepTrace
run_instruction pc opcode = do
  modify latch_interrupt
  elim (decode opcode) [
    | none ↦ raise (unsupported_opcode pc opcode)
    | some instruction ↦ execute instruction pc opcode
  ]

-- `step`.
unfoldable pub step : M StepTrace
step = do
  m ← get
  let pc = bit_and m.state.pc 0x0FFF
  word ← read m.program pc
  let opcode = bit_and word 0xFFFF
  if m.interrupt_entry_pending then interrupt_entry pc opcode else run_instruction pc opcode
