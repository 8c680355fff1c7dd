-- ===== src/Tests/Programs.antt =====
-- A small program run through `step`.
use tms32010_sv.Base.{ℕ, zero, suc, ◌≡◌, refl, ◌∷◌, done, raised, replicate, Option, none, some}
use tms32010_sv.Machine.{Model, initial}
use tms32010_sv.Access.{read, write_data}
use tms32010_sv.Decode.{decode}
use tms32010_sv.Interrupt.{latch_interrupt}
use tms32010_sv.Retire.{retire}
use tms32010_sv.Alu.{add_accumulator, shifted_operand}
use tms32010_sv.Operand.{effective_address, is_sst, moves, transaction_data, operand_transactions}
use tms32010_sv.Perform.{perform}
use tms32010_sv.Step.{
  step, run_instruction, execute, execute_memory, execute_register, perform_register,
}

-- The accumulator after some steps.
abbrev acc_after : ℕ → Model → Option ℕ
acc_after zero m = some m.state.acc
acc_after (suc n) m = elim (step m) [ done _ m' ↦ acc_after n m' | raised _ _ ↦ none ]

-- `LACK 5`, `SACL 3`, `ADD 3`.
doubled :
    acc_after 3 (record initial { program = 0x7E05 ∷ 0x5003 ∷ 0x0003 ∷ replicate 4093 0 }) ≡ some 10
unfolding step run_instruction execute execute_memory execute_register perform_register decode
    initial read write_data latch_interrupt retire effective_address moves transaction_data
    operand_transactions perform add_accumulator shifted_operand is_sst
doubled = refl
