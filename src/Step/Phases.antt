-- ===== src/Step/Phases.antt =====
-- `step` of sim/reference_models/tms32010_model.py with an entry scheduled, and without.
use tms32010_sv.Base.{
  ℕ, bit_and, ◌≡◌, refl, ◌∙◌, ap, arith, true, false, inl, inr, done, raise, ◌>>=◌,
}
use tms32010_sv.Base.Cases.{some_or_none}
use tms32010_sv.Decode.{decode}
use tms32010_sv.Machine.{Model, StepTrace, unsupported_opcode}
use tms32010_sv.Access.Laws
use tms32010_sv.WellFormed.{IsWellFormed}
use tms32010_sv.Interrupt.{latch_interrupt, enter_interrupt, interrupt_entry}
use tms32010_sv.Interrupt.Laws.{latch_interrupt-IsWellFormed, latch_interrupt-entry}
use tms32010_sv.Perform.Safe.{mask_pc-lt}
use tms32010_sv.Step.{execute, run_instruction, step}

-- The step that acknowledges: it stacks the return address, jumps to the vector, masks further
-- interrupts and clears the request.
pub record IsEntry (m : Model) (t : StepTrace) (m' : Model) : Type 0 where
  pub spelled : t.mnemonic ≡ "INTERRUPT"
  pub vector : m'.state.pc ≡ 0x002
  pub return_address : m'.state.stack.0 ≡ bit_and m.state.pc 0x0FFF
  pub masked : m'.state.status.intm ≡ true
  pub acknowledged : m'.state.interrupt_pending ≡ false

-- `step` with an entry scheduled. It fetches a word and does not look at it.
pub step-due :
    {m : Model}
    → IsWellFormed m
    → m.interrupt_entry_pending ≡ true
    → (t : StepTrace) × (after : Model) × (step m ≡ done t after) × IsEntry m t after
unfolding step interrupt_entry enter_interrupt
step-due {m} h due =
    let pc = bit_and m.state.pc 0x0FFF in
    rw (Laws.read-eq pc m h.program_ok (mask_pc-lt m.state.pc), ◌>>=◌, due)
      (
        _,
        _,
        refl,
        record {
          spelled = refl;
          vector = refl;
          return_address = refl;
          masked = refl;
          acknowledged = refl;
        },
      )

latch_interrupt-registers :
    (m : Model)
    → ((latch_interrupt m).program ≡ m.program)
      × ((latch_interrupt m).state.pc ≡ m.state.pc)
      × (latch_interrupt (latch_interrupt m) ≡ latch_interrupt m)
unfolding latch_interrupt
latch_interrupt-registers m = ground arith

run_instruction-latched :
    (pc opcode : ℕ) (m : Model)
    → run_instruction pc opcode (latch_interrupt m) ≡ run_instruction pc opcode m
unfolding run_instruction
run_instruction-latched pc opcode m =
    let twice = (latch_interrupt-registers m).2 in
    elim (some_or_none (decode opcode)) [
      | inl e ↦ rw e (ap (raise (unsupported_opcode pc opcode)) twice)
      | inr (i, e) ↦ rw e (ap (execute i pc opcode) twice)
    ]

-- `step` with no entry scheduled.
step-running :
    {m : Model}
    → IsWellFormed m
    → m.interrupt_entry_pending ≡ false
    → step m
      ≡ run_instruction
          (bit_and m.state.pc 0x0FFF)
          (bit_and (Laws.word_at m.program (bit_and m.state.pc 0x0FFF)) 0xFFFF)
          m
unfolding step
step-running {m} h idle =
    rw
      (Laws.read-eq (bit_and m.state.pc 0x0FFF) m h.program_ok (mask_pc-lt m.state.pc), ◌>>=◌, idle)
      refl

-- Latching the request ahead of the step makes no difference to it.
pub step-latched :
    {m : Model}
    → IsWellFormed m
    → m.interrupt_entry_pending ≡ false
    → step (latch_interrupt m) ≡ step m
unfolding latch_interrupt
step-latched {m} h idle =
    let same = latch_interrupt-registers m in
    rw
      (
        step-running h idle,
        step-running (latch_interrupt-IsWellFormed h) (latch_interrupt-entry m ∙ idle),
        same.0,
        same.1,
      )
      (run_instruction-latched _ _ m)
