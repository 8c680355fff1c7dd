-- ===== src/Step/Total.antt =====
-- `step` of sim/reference_models/tms32010_model.py as a whole, in a well-formed model.
use tms32010_sv.Base.{
  ℕ, ◌<◌, bit_and, ◌≡◌, refl, ◌∙◌, sym, arith, Bool, true, false, if◌then◌else◌, inl, inr, ◌⊎◌,
  ◌>>=◌, Outcome, Option, none, some,
}
use tms32010_sv.Base.Cases.{no}
use tms32010_sv.Isa.{Instruction}
use tms32010_sv.Decode.{decode}
use tms32010_sv.Decode.Legal.{decode-IsLegal}
use tms32010_sv.Machine.{M, Model, Fault, StepTrace}
use tms32010_sv.Access.Laws
use tms32010_sv.WellFormed.{IsWellFormed, Ends, ends, fails}
use tms32010_sv.Interrupt.{latch_interrupt, enter_interrupt, interrupt_entry}
use tms32010_sv.Interrupt.Laws.{
  IsScheduled, latch_interrupt-IsScheduled, latch_interrupt-IsWellFormed, latch_interrupt-clock,
  latch_interrupt-entry, latch_interrupt-delay, latch_interrupt-request,
  enter_interrupt-IsWellFormed, enter_interrupt-IsScheduled,
}
use tms32010_sv.Retire.Laws.{Completes, Completed, Rejected, Ending, retired, entered}
use tms32010_sv.Perform.Safe.{mask_pc-lt}
use tms32010_sv.Step.{run_instruction, step}
use tms32010_sv.Step.Safe.{execute-Completes}

-- The decoder rejects a word, or returns an instruction.
decode-cases : (o : Option Instruction) → (o ≡ none) ⊎ ((i : Instruction) × (o ≡ some i))
decode-cases none = inl refl
decode-cases (some i) = inr (i, refl)

run_instruction-Completes :
    {m : Model} (pc opcode : ℕ)
    → IsWellFormed m
    → IsScheduled m
    → m.interrupt_entry_pending ≡ false
    → Completes (latch_interrupt m) (run_instruction pc opcode m)
unfolding run_instruction
run_instruction-Completes {m} pc opcode h scheduled idle = elim (decode-cases (decode opcode)) [
  | inl e ↦ rw e (fails (record { unsupported = tt; unchanged = refl }))
  | inr (i, e) ↦ rw e (
      execute-Completes (latch_interrupt-IsWellFormed h) (latch_interrupt-IsScheduled m scheduled)
        (latch_interrupt-entry m ∙ idle) i pc opcode (decode-IsLegal opcode e))
]

interrupt_entry-Completes :
    {m : Model} (pc opcode : ℕ)
    → IsWellFormed m
    → m.interrupt_entry_pending ≡ true
    → pc < 0x1000
    → Ends (Completed m) (Rejected (latch_interrupt m)) (interrupt_entry pc opcode m)
unfolding interrupt_entry
interrupt_entry-Completes {m} pc opcode h due fits = ends record {
  well_formed = enter_interrupt-IsWellFormed pc fits h;
  scheduled = enter_interrupt-IsScheduled pc m;
  clock = unfold enter_interrupt in refl;
  some_cycles = omega arith;
  few_cycles = omega arith;
  snapshot = refl;
  ending = entered pc due refl refl;
}

-- The latch keeps a request, and does not move the clock or the pipeline.
unlatched-Ending :
    {m : Model} {t : StepTrace} {m' : Model}
    → m.interrupt_entry_pending ≡ false
    → Ending (latch_interrupt m) t m'
    → Ending m t m'
unlatched-Ending {m} idle (retired i k _ spelled kept e) =
    retired i k idle spelled
      (record {
        request_kept = λ requested. kept.request_kept (latch_interrupt-request m requested);
        delay_kept = kept.delay_kept ∙ latch_interrupt-delay m;
        no_entry = kept.no_entry;
      })
      e
unlatched-Ending {m} idle (entered pc due spelled e) =
    absurd (no (sym idle ∙ sym (latch_interrupt-entry m) ∙ due))

unlatched :
    {m : Model} {t : StepTrace} {m' : Model}
    → m.interrupt_entry_pending ≡ false
    → Completed (latch_interrupt m) t m'
    → Completed m t m'
unlatched {m} {t} {m'} idle c = record {
  well_formed = c.well_formed;
  scheduled = c.scheduled;
  clock = rw (latch_interrupt-clock m) at c.clock;
  some_cycles = c.some_cycles;
  few_cycles = c.few_cycles;
  snapshot = c.snapshot;
  ending = unlatched-Ending idle c.ending;
}

relax :
    {m : Model} {o : Outcome Model Fault StepTrace}
    → m.interrupt_entry_pending ≡ false
    → Completes (latch_interrupt m) o
    → Ends (Completed m) (Rejected (latch_interrupt m)) o
relax idle (ends c) = ends (unlatched idle c)
relax idle (fails r) = fails r

-- Two ways to go on, of which the test takes one.
choice :
    {m m' : Model} (b : Bool) (x y : M StepTrace)
    → (b ≡ true → Ends (Completed m) (Rejected m') (x m))
    → (b ≡ false → Ends (Completed m) (Rejected m') (y m))
    → Ends (Completed m) (Rejected m') ((if b then x else y) m)
choice true x y hx hy = hx refl
choice false x y hx hy = hy refl

-- In a well-formed model with a consistent interrupt pipeline, `step` is total: it completes, in
-- one to three cycles, with the registers and memories within their widths, the pipeline
-- consistent, the clock advanced by the cycles of the trace, the trace holding the final snapshot,
-- and the last change that of the pipeline for the instruction named in the trace, or that of the
-- interrupt entry if one was scheduled; or it raises an unsupported opcode, data address or operand word, never an index error,
-- with no change but the latched interrupt request.
pub step-Completes :
    {m : Model}
    → IsWellFormed m
    → IsScheduled m
    → Ends (Completed m) (Rejected (latch_interrupt m)) (step m)
unfolding step
step-Completes {m} h scheduled =
    let pc = bit_and m.state.pc 0x0FFF in
    let word = Laws.word_at m.program pc in
    rw (Laws.read-eq pc m h.program_ok (mask_pc-lt m.state.pc), ◌>>=◌)
      (choice m.interrupt_entry_pending (interrupt_entry pc (bit_and word 0xFFFF))
        (run_instruction pc (bit_and word 0xFFFF))
        (λ due. interrupt_entry-Completes pc (bit_and word 0xFFFF) h due (mask_pc-lt m.state.pc))
        (λ idle. relax idle (run_instruction-Completes pc (bit_and word 0xFFFF) h scheduled idle)))
