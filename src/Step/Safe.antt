-- ===== src/Step/Safe.antt =====
-- Every legal instruction of `step`, in a well-formed model with no interrupt entry scheduled.
use tms32010_sv.Base.{ℕ, ◌+◌, bit_and, ◌≡◌, refl, arith, true, false}
use tms32010_sv.Base.Masks.{bit_and-low}
use tms32010_sv.Isa.{Instruction}
use tms32010_sv.Decode.Legal.{IsLegal}
use tms32010_sv.Machine.{Model, State}
use tms32010_sv.WellFormed.{IsStateOk, IsWellFormed, Kept-state, Kept-refl, ends, Ends-bind}
use tms32010_sv.Interrupt.Laws.{IsScheduled}
use tms32010_sv.Retire.{pc_plus}
use tms32010_sv.Retire.Laws.{Completes, retire-Completes}
use tms32010_sv.Perform.Safe.{Safe, Safe-write_ar, Safe-after, mask_pc-lt, Safe-state}
use tms32010_sv.Control.Safe.{
  set_pc-Kept, stack_states, execute_stack-Completes, execute_control-Completes,
}
use tms32010_sv.Step.{perform_register, execute_register, execute}
use tms32010_sv.Alu.{add_accumulator, subtract_accumulator, multiply_constant, absolute_accumulator}
use tms32010_sv.Alu.Fits.{
  add_accumulator-Settled, subtract_accumulator-Settled, absolute_accumulator-Settled,
  multiply_constant-lt,
}
use tms32010_sv.Access.{modify_state}
use tms32010_sv.Control.{push_masked, drop_top, cala_state, pop_state, ret_state, push_state}
use tms32010_sv.Step.Memory.{execute_memory-Completes, execute_mar-Completes}

module _ {m : Model} (h : IsWellFormed m) where
  register_state :
      (f : State → State)
      → IsStateOk (f m.state)
      → (f m.state).interrupt_pending ≡ m.state.interrupt_pending
      → Safe m (modify_state f m)
  register_state f ok same = ends (Kept-state h (f m.state) ok same)

  perform_register-Safe : (i : Instruction) → IsLegal i → Safe m (perform_register i m)
  unfolding perform_register
  perform_register-Safe (Instruction.lack constant) legal =
      register_state (λ s. record s { acc = bit_and constant 0xFF })
        (ground (arith, bit_and-low 8 constant)) refl
  perform_register-Safe (Instruction.mpyk constant) legal =
      register_state (λ s. record s { p = multiply_constant s.t constant })
        (ground (arith, multiply_constant-lt m.state.t constant)) refl
  perform_register-Safe Instruction.pac legal =
      register_state (λ s. record s { acc = s.p }) (ground arith) refl
  perform_register-Safe Instruction.apac legal =
      Safe-state h (λ s. add_accumulator s.p s) (add_accumulator-Settled _ _ h.state_ok)
  perform_register-Safe Instruction.spac legal =
      Safe-state h (λ s. subtract_accumulator s.p s) (subtract_accumulator-Settled _ _ h.state_ok)
  perform_register-Safe (Instruction.lark register constant) legal =
      Safe-write_ar h register (bit_and constant 0xFF) legal.0
        (omega (arith, bit_and-low 8 constant))
  perform_register-Safe (Instruction.larp constant) legal =
      register_state (λ s. record s { status = record (s.status) { arp = constant } })
        (ground arith) refl
  perform_register-Safe (Instruction.ldpk constant) legal =
      register_state (λ s. record s { status = record (s.status) { dp = constant } }) (ground arith)
        refl
  perform_register-Safe Instruction.abs legal =
      Safe-state h absolute_accumulator (absolute_accumulator-Settled _ h.state_ok)
  perform_register-Safe Instruction.zac legal =
      register_state (λ s. record s { acc = 0 }) (ground arith) refl
  perform_register-Safe Instruction.rovm legal =
      register_state (λ s. record s { status = record (s.status) { ovm = false } }) (ground arith)
        refl
  perform_register-Safe Instruction.sovm legal =
      register_state (λ s. record s { status = record (s.status) { ovm = true } }) (ground arith)
        refl
  perform_register-Safe Instruction.dint legal =
      register_state (λ s. record s { status = record (s.status) { intm = true } }) (ground arith)
        refl
  perform_register-Safe Instruction.eint legal =
      register_state (λ s. record s { status = record (s.status) { intm = false } }) (ground arith)
        refl
  perform_register-Safe _ legal = ends (Kept-refl h)

module _ {m : Model} (h : IsWellFormed m) (scheduled : IsScheduled m)
    (idle : m.interrupt_entry_pending ≡ false) where
  execute_register-Completes :
      (i : Instruction) (pc opcode : ℕ) → IsLegal i → Completes m (execute_register i pc opcode m)
  unfolding execute_register
  execute_register-Completes i pc opcode legal =
      let kept₁ = set_pc-Kept (pc_plus pc 1) h (mask_pc-lt (pc + 1)) in
      Ends-bind _ (Safe-after kept₁ (perform_register-Safe kept₁.well_formed i legal))
        (λ _ m₂ kept.
          retire-Completes i pc opcode _ 1 _ scheduled idle (omega arith) (omega arith) kept)
        (λ e m₂ impossible. absurd impossible)

  pub execute-Completes :
      (i : Instruction) (pc opcode : ℕ) → IsLegal i → Completes m (execute i pc opcode m)
  unfolding execute
  execute-Completes (Instruction.control c) pc opcode legal =
      execute_control-Completes h scheduled idle c pc opcode
  execute-Completes Instruction.cala pc opcode legal =
      execute_stack-Completes h scheduled idle Instruction.cala (cala_state pc) pc opcode
        (stack_states pc m.state h.state_ok).0 (unfold cala_state push_masked in refl)
  execute-Completes Instruction.pop pc opcode legal =
      execute_stack-Completes h scheduled idle Instruction.pop (pop_state pc) pc opcode
        (stack_states pc m.state h.state_ok).1 (unfold pop_state drop_top in refl)
  execute-Completes Instruction.push pc opcode legal =
      execute_stack-Completes h scheduled idle Instruction.push (push_state pc) pc opcode
        (stack_states pc m.state h.state_ok).3 (unfold push_state push_masked in refl)
  execute-Completes Instruction.ret pc opcode legal =
      execute_stack-Completes h scheduled idle Instruction.ret ret_state pc opcode
        (stack_states pc m.state h.state_ok).2 (unfold ret_state drop_top in refl)
  execute-Completes (Instruction.memory op a) pc opcode legal =
      execute_memory-Completes h scheduled idle op a pc opcode legal.0 legal.1
  execute-Completes (Instruction.mar a) pc opcode legal =
      execute_mar-Completes h scheduled idle a pc opcode
  execute-Completes i pc opcode legal = execute_register-Completes i pc opcode legal
