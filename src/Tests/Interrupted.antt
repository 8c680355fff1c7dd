-- ===== src/Tests/Interrupted.antt =====
-- An interrupt that is requested on the pin, while a small program runs.
use tms32010_sv.Base.{
  ◌≡◌, refl, false, true, replicate, ◌∷◌, done, ℕ, ◌+◌, ap, arith, cons, length-replicate,
  AllBelow-replicate,
}
use tms32010_sv.Machine.{Model, StepTrace, initial, initial_state, initial_status}
use tms32010_sv.Access.{read}
use tms32010_sv.Decode.{decode}
use tms32010_sv.Alu.{multiply_constant}
use tms32010_sv.Interrupt.{latch_interrupt, is_multiply}
use tms32010_sv.Interrupt.Latency.{IsWaiting}
use tms32010_sv.WellFormed.{IsWellFormed}
use tms32010_sv.Interrupt.Laws.{IsScheduled}
use tms32010_sv.Retire.{retire}
use tms32010_sv.Loader.Keeps.{left_by}
use tms32010_sv.Step.{step, run_instruction, execute, execute_register, perform_register}
use tms32010_sv.Step.Reachable.{initial-IsWellFormed}
use tms32010_sv.Step.Phases.{IsEntry}
use tms32010_sv.Step.Entry.{here, next, EnabledRun-entry_pending, step-IsEntry}

-- `NOP`, `MPYK 3`, `NOP`, with the pin low.
abbrev pulled : Model
pulled = record initial {
  program = 0x7F80 ∷ 0x8003 ∷ 0x7F80 ∷ replicate 4093 0;
  interrupt_input_high = false;
}

abbrev first_left : Model
first_left = left_by (step pulled)

abbrev second_left : Model
second_left = left_by (step first_left)

abbrev third_left : Model
third_left = left_by (step second_left)

pulled-IsWaiting : IsWaiting (latch_interrupt pulled)
unfolding initial initial_state initial_status latch_interrupt
pulled-IsWaiting = record { requested = refl; enabled = refl; no_delay = refl; no_entry = refl }

pulled-IsWellFormed : IsWellFormed pulled
pulled-IsWellFormed = record {
  state_ok = initial-IsWellFormed.state_ok;
  program_ok = record {
    size = ap (λ (n : ℕ). n + 3) (length-replicate {A = ℕ} 4093 0);
    words =
        cons (omega arith)
          (cons (omega arith) (cons (omega arith) (AllBelow-replicate _ 4093 (omega arith))));
  };
  data_ok = initial-IsWellFormed.data_ok;
  input_ok = initial-IsWellFormed.input_ok;
  output_ok = initial-IsWellFormed.output_ok;
}

pulled-IsScheduled : IsScheduled pulled
unfolding initial
pulled-IsScheduled = ground arith

EnabledRun-entry_pending_example : third_left.interrupt_entry_pending ≡ true
unfolding step run_instruction execute execute_register perform_register decode initial
    initial_state initial_status read latch_interrupt retire multiply_constant is_multiply
EnabledRun-entry_pending_example =
    EnabledRun-entry_pending pulled-IsWellFormed pulled-IsScheduled pulled-IsWaiting
      (next refl refl (next refl refl (next refl refl here)))

step-IsEntry_example :
    (v : StepTrace) × (after : Model) × (step third_left ≡ done v after)
    × IsEntry third_left v after
unfolding step run_instruction execute execute_register perform_register decode initial
    initial_state initial_status read latch_interrupt retire multiply_constant is_multiply
step-IsEntry_example =
    step-IsEntry pulled-IsWellFormed pulled-IsScheduled pulled-IsWaiting
      (next refl refl (next refl refl (next refl refl here))) refl
