-- ===== src/Step/Entry.antt =====
-- Runs of `step` of sim/reference_models/tms32010_model.py from an enabled request to its entry.
use tms32010_sv.Base.{
  ◌≡◌, ◌∙◌, sym, Bool, true, false, not, ◌||◌, inl, inr, Bool-cases, List, [], ◌∷◌, done,
}
use tms32010_sv.Base.Cases.{no}
use tms32010_sv.Machine.{Model, StepTrace}
use tms32010_sv.WellFormed.{IsWellFormed}
use tms32010_sv.Interrupt.{latch_interrupt}
use tms32010_sv.Interrupt.Laws.{
  IsScheduled, latch_interrupt-IsScheduled, latch_interrupt-IsWellFormed, latch_interrupt-entry,
}
use tms32010_sv.Interrupt.Names.{names_multiply}
use tms32010_sv.Interrupt.Latency.{IsWaiting}
use tms32010_sv.Step.{step}
use tms32010_sv.Step.Phases.{IsEntry, step-due, step-latched}
use tms32010_sv.Step.Delay.{IsDelayed, completed, first_step, multiply_step, other_step, due_step}

-- Whether an instruction other than a multiply is among the steps.
abbrev pub any_other : List StepTrace → Bool
any_other [] = false
any_other (t ∷ ts) = not (names_multiply t.mnemonic) || any_other ts

-- Completed steps, with interrupts enabled at the end of each.
pub data EnabledRun : Model → List StepTrace → Model → Type 0 where
  here : {m : Model} → EnabledRun m [] m
  next :
      {m m' m'' : Model} {t : StepTrace} {ts : List StepTrace}
      → step m ≡ done t m'
      → m'.state.status.intm ≡ false
      → EnabledRun m' ts m''
      → EnabledRun m (t ∷ ts) m''

due_run :
    {m m' : Model} {ts : List StepTrace}
    → IsWellFormed m
    → IsScheduled m
    → m.interrupt_entry_pending ≡ true
    → EnabledRun m ts m'
    → m'.interrupt_entry_pending ≡ true
due_run h s due here = due
due_run h s due (next e on rest) = absurd (no (sym on ∙ due_step due (completed h s e).ending))

delayed_run :
    {m m' : Model} {ts : List StepTrace}
    → IsDelayed m
    → EnabledRun m ts m'
    → m'.interrupt_entry_pending ≡ any_other ts
delayed_run h here = h.no_entry
delayed_run h (next {t} e on rest) =
    let c = completed h.well_formed h.scheduled e in
    elim (Bool-cases (names_multiply t.mnemonic)) [
      | inl named ↦ rw named (delayed_run (multiply_step h named c c.ending on) rest)
      | inr named ↦
          rw named (due_run c.well_formed c.scheduled (other_step h named c.ending on) rest)
    ]

waiting_run :
    {m m' : Model} {t : StepTrace} {ts : List StepTrace}
    → IsWellFormed m
    → IsScheduled m
    → IsWaiting m
    → EnabledRun m (t ∷ ts) m'
    → m'.interrupt_entry_pending ≡ any_other ts
waiting_run h scheduled waiting (next e on rest) =
    let c = completed h scheduled e in delayed_run (first_step waiting c c.ending on) rest

EnabledRun-IsWellFormed :
    {m m' : Model} {ts : List StepTrace}
    → IsWellFormed m
    → IsScheduled m
    → EnabledRun m ts m'
    → IsWellFormed m'
EnabledRun-IsWellFormed h s here = h
EnabledRun-IsWellFormed h s (next e on rest) =
    let c = completed h s e in EnabledRun-IsWellFormed c.well_formed c.scheduled rest

latched_run :
    {m m' : Model} {t : StepTrace} {ts : List StepTrace}
    → IsWellFormed m
    → IsWaiting (latch_interrupt m)
    → EnabledRun m (t ∷ ts) m'
    → EnabledRun (latch_interrupt m) (t ∷ ts) m'
latched_run {m} h waiting (next e on rest) =
    next (step-latched h (sym (latch_interrupt-entry m) ∙ waiting.no_entry) ∙ e) on rest

-- Take a run of completed steps with interrupts enabled after each, from an enabled request that
-- is latched or on the pin, and for which neither a delay nor an entry is scheduled. At its end the
-- entry is scheduled exactly if an instruction other than a multiply came after the first.
pub EnabledRun-entry_pending :
    {m m' : Model} {t : StepTrace} {ts : List StepTrace}
    → IsWellFormed m
    → IsScheduled m
    → IsWaiting (latch_interrupt m)
    → EnabledRun m (t ∷ ts) m'
    → m'.interrupt_entry_pending ≡ any_other ts
EnabledRun-entry_pending {m} h scheduled waiting run =
    waiting_run (latch_interrupt-IsWellFormed h) (latch_interrupt-IsScheduled m scheduled) waiting
      (latched_run h waiting run)

-- Take a run of completed steps with interrupts enabled after each, from an enabled request that
-- is latched or on the pin, and for which neither a delay nor an entry is scheduled. As soon as an
-- instruction other than a multiply came after the first, the next step is the interrupt entry, and
-- it does not fail: it stacks the program counter, jumps to address 2, masks further interrupts and
-- clears the request.
pub step-IsEntry :
    {m m' : Model} {t : StepTrace} {ts : List StepTrace}
    → IsWellFormed m
    → IsScheduled m
    → IsWaiting (latch_interrupt m)
    → EnabledRun m (t ∷ ts) m'
    → any_other ts ≡ true
    → (v : StepTrace) × (after : Model) × (step m' ≡ done v after) × IsEntry m' v after
step-IsEntry h scheduled waiting run other =
    step-due (EnabledRun-IsWellFormed h scheduled run)
      (EnabledRun-entry_pending h scheduled waiting run ∙ other)
