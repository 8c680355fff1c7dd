-- ===== src/Control/Safe.antt =====
-- The branches, calls, returns and stack instructions of `step`, in a well-formed model.
use tms32010_sv.Base.{
  ℕ, ◌+◌, ◌<◌, bit_and, ◌≡◌, refl, arith, Bool, true, false, not, ◌==◌, inl, inr, Bool-cases, ◌>>=◌,
}
use tms32010_sv.Base.Int.{negsuc}
use tms32010_sv.Isa.{ControlFlow, Instruction}
use tms32010_sv.Machine.{Model, State}
use tms32010_sv.Access.Laws
use tms32010_sv.WellFormed.{IsStateOk, IsWellFormed, Kept, Kept-state, ends, fails, Ends-bind}
use tms32010_sv.Alu.{modify_counter}
use tms32010_sv.Alu.Fits.{modify_counter-lt}
use tms32010_sv.Interrupt.Laws.{IsScheduled}
use tms32010_sv.Retire.{pc_plus}
use tms32010_sv.Retire.Laws.{Completes, retire-Completes}
use tms32010_sv.Perform.Safe.{Safe, Safe-bind, Safe-write_ar, mask_pc-lt}
use tms32010_sv.Control.{
  push_plain, cala_state, pop_state, ret_state, push_state, execute_stack, branch_target,
  perform_control, execute_control,
}

pub set_pc-Kept :
    {m : Model} (v : ℕ)
    → IsWellFormed m
    → v < 0x1000
    → Kept m (record m { state = record (m.state) { pc = v } })
set_pc-Kept {m} v h fits = Kept-state h (record (m.state) { pc = v }) (ground arith) refl

branch_target-lt :
    (taken : Bool) (target pc : ℕ) → target < 0x1000 → branch_target taken target pc < 0x1000
branch_target-lt true target pc h = h
branch_target-lt false target pc h = mask_pc-lt (pc + 2)

-- The registers after the stack instructions.
pub stack_states :
    (pc : ℕ) (s : State)
    → IsStateOk s
    → IsStateOk (cala_state pc s)
      × IsStateOk (pop_state pc s)
      × IsStateOk (ret_state s)
      × IsStateOk (push_state pc s)
unfolding cala_state pop_state ret_state push_state
stack_states pc s h =
    let m0 = mask_pc-lt s.stack.0 in
    let m1 = mask_pc-lt s.stack.1 in
    let m2 = mask_pc-lt s.stack.2 in
    let m3 = mask_pc-lt s.stack.3 in
    let ma = mask_pc-lt s.acc in
    let mp = mask_pc-lt (pc + 1) in (ground arith, ground arith, ground arith, ground arith)

module _ {m : Model} (h : IsWellFormed m) where
  perform_control-Safe :
      (c : ControlFlow) (target pc : ℕ) → target < 0x1000 → Safe m (perform_control c target pc m)
  unfolding perform_control push_plain
  perform_control-Safe ControlFlow.banz target pc fits =
      let counter = Laws.ar_at m.state.status.arp m.state in
      rw (Laws.read_ar-eq m.state.status.arp m h.state_ok.arp_fits, ◌>>=◌)
        (Safe-bind _
          (Safe-write_ar h m.state.status.arp (modify_counter counter (negsuc 0))
            h.state_ok.arp_fits
            (modify_counter-lt counter (negsuc 0)
              (Laws.ar_at-lt m.state.status.arp m.state h.state_ok)))
          (λ _ m₁ kept. ends (
            set_pc-Kept _ kept.well_formed
              (branch_target-lt (not (bit_and counter 0x01FF == 0)) target pc fits))))
  perform_control-Safe ControlFlow.b target pc fits = ends (set_pc-Kept target h fits)
  perform_control-Safe ControlFlow.bv target pc fits = ends (
      Kept-state h _ (let t = branch_target-lt m.state.status.ov target pc fits in ground arith)
        refl)
  perform_control-Safe ControlFlow.bioz target pc fits =
      ends (set_pc-Kept _ h (branch_target-lt _ target pc fits))
  perform_control-Safe ControlFlow.call target pc fits =
      ends (Kept-state h _ (let t = mask_pc-lt (pc + 2) in ground arith) refl)
  perform_control-Safe (ControlFlow.accumulator c) target pc fits =
      ends (set_pc-Kept _ h (branch_target-lt _ target pc fits))

  module _ (scheduled : IsScheduled m) (idle : m.interrupt_entry_pending ≡ false) where
    pub execute_stack-Completes :
        (i : Instruction) (change : State → State) (pc opcode : ℕ)
        → IsStateOk (change m.state)
        → (change m.state).interrupt_pending ≡ m.state.interrupt_pending
        → Completes m (execute_stack i change pc opcode m)
    unfolding execute_stack
    execute_stack-Completes i change pc opcode ok same =
        retire-Completes i pc opcode _ 2 _ scheduled idle (omega arith) (omega arith)
          (Kept-state h (change m.state) ok same)

    -- A following word with one of its four high bits set raises before anything has changed.
    pub execute_control-Completes :
        (c : ControlFlow) (pc opcode : ℕ) → Completes m (execute_control c pc opcode m)
    unfolding execute_control
    execute_control-Completes c pc opcode =
        let word = Laws.word_at m.program (pc_plus pc 1) in
        rw (Laws.read-eq (pc_plus pc 1) m h.program_ok (mask_pc-lt (pc + 1)), ◌>>=◌)
          (elim (Bool-cases (bit_and (bit_and word 0xFFFF) 0xF000 == 0)) [
            | inl good ↦ rw good (
                Ends-bind _
                  (perform_control-Safe c (bit_and (bit_and word 0xFFFF) 0x0FFF) pc
                    (mask_pc-lt (bit_and word 0xFFFF)))
                  (λ _ m₁ kept.
                    retire-Completes (Instruction.control c) pc opcode _ 2 _ scheduled idle
                      (omega arith) (omega arith) kept)
                  (λ e m₁ impossible. absurd impossible))
            | inr bad ↦ rw bad (fails (record { unsupported = tt; unchanged = refl }))
          ])
