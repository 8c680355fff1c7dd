-- ===== src/Step/Delay.antt =====
-- What one completed `step` of sim/reference_models/tms32010_model.py makes of an interrupt request.
use tms32010_sv.Base.{◌≡◌, ◌∙◌, sym, ap, arith, true, false, done}
use tms32010_sv.Base.Cases.{no}
use tms32010_sv.Isa.{Instruction}
use tms32010_sv.Machine.{Model, Fault, StepTrace}
use tms32010_sv.WellFormed.{IsWellFormed, Ends, ends}
use tms32010_sv.Interrupt.{advance_interrupt_pipeline, enter_interrupt}
use tms32010_sv.Interrupt.Laws.{IsScheduled}
use tms32010_sv.Interrupt.Names.{names_multiply, names_multiply-mnemonic}
use tms32010_sv.Interrupt.Latency.{IsWaiting, delayed, first, extended, finished}
use tms32010_sv.Retire.Laws.{Completed, Retiring, Ending, retired, entered}
use tms32010_sv.Step.{step}
use tms32010_sv.Step.Total.{step-Completes}

-- Between the step that found the request and the one that schedules the entry.
pub record IsDelayed (m : Model) : Type 0 where
  pub well_formed : IsWellFormed m
  pub scheduled : IsScheduled m
  pub requested : m.state.interrupt_pending ≡ true
  pub delay : m.interrupt_delay_one ≡ true
  pub no_entry : m.interrupt_entry_pending ≡ false

ended :
    {P : StepTrace → Model → Type 0} {E : Fault → Model → Type 0} {t : StepTrace} {m : Model}
    → Ends P E (done t m)
    → P t m
ended (ends p) = p

pub completed :
    {m : Model} {t : StepTrace} {m' : Model}
    → IsWellFormed m
    → IsScheduled m
    → step m ≡ done t m'
    → Completed m t m'
completed h scheduled e = ended (rw e at (step-Completes h scheduled))

advance_interrupt_pipeline-state :
    (i : Instruction) (k : Model) → (advance_interrupt_pipeline i k).state ≡ k.state
unfolding advance_interrupt_pipeline
advance_interrupt_pipeline-state i k = ground arith

before :
    {m' : Model} (i : Instruction) (k : Model)
    → m' ≡ advance_interrupt_pipeline i k
    → m'.state.status.intm ≡ false
    → k.state.status.intm ≡ false
before i k e on = rw (e, advance_interrupt_pipeline-state i k) at on

-- The object between, with the delay set.
delays :
    {m : Model} {t : StepTrace} {m' k : Model}
    → Completed m t m'
    → Retiring m k
    → m.state.interrupt_pending ≡ true
    → m' ≡ delayed k
    → IsDelayed m'
delays c kept requested e = record {
  well_formed = c.well_formed;
  scheduled = c.scheduled;
  requested = ap (λ (x : Model). x.state.interrupt_pending) e ∙ kept.request_kept requested;
  delay = ap (λ (x : Model). x.interrupt_delay_one) e;
  no_entry = ap (λ (x : Model). x.interrupt_entry_pending) e ∙ kept.no_entry;
}

pub first_step :
    {m : Model} {t : StepTrace} {m' : Model}
    → IsWaiting m
    → Completed m t m'
    → Ending m t m'
    → m'.state.status.intm ≡ false
    → IsDelayed m'
first_step h c (retired i k _ spelled kept e) on = delays c kept h.requested (
    e
    ∙ first i k record {
      requested = kept.request_kept h.requested;
      enabled = before i k e on;
      no_delay = kept.delay_kept ∙ h.no_delay;
      no_entry = kept.no_entry;
    })
first_step h c (entered pc due spelled e) on = absurd (no (sym h.no_entry ∙ due))

-- A multiply holds the entry off for another instruction.
pub multiply_step :
    {m : Model} {t : StepTrace} {m' : Model}
    → IsDelayed m
    → names_multiply t.mnemonic ≡ true
    → Completed m t m'
    → Ending m t m'
    → m'.state.status.intm ≡ false
    → IsDelayed m'
multiply_step h named c (retired i k _ spelled kept e) on = delays c kept h.requested (
    e
    ∙ extended i k (sym (names_multiply-mnemonic i) ∙ (rw spelled at named)) (before i k e on)
        (kept.delay_kept ∙ h.delay))
multiply_step h named c (entered pc due spelled e) on = absurd (no (sym h.no_entry ∙ due))

-- Every other instruction schedules it.
pub other_step :
    {m : Model} {t : StepTrace} {m' : Model}
    → IsDelayed m
    → names_multiply t.mnemonic ≡ false
    → Ending m t m'
    → m'.state.status.intm ≡ false
    → m'.interrupt_entry_pending ≡ true
other_step h named (retired i k _ spelled kept e) on =
    ap (λ (x : Model). x.interrupt_entry_pending) e
    ∙ finished i k (sym (names_multiply-mnemonic i) ∙ (rw spelled at named)) (before i k e on)
        (kept.delay_kept ∙ h.delay)
other_step h named (entered pc due spelled e) on = absurd (no (sym h.no_entry ∙ due))

-- A scheduled entry is the next step, which leaves interrupts masked.
pub due_step :
    {m : Model} {t : StepTrace} {m' : Model}
    → m.interrupt_entry_pending ≡ true
    → Ending m t m'
    → m'.state.status.intm ≡ true
unfolding enter_interrupt
due_step due (retired i k idle spelled kept e) = absurd (no (sym idle ∙ due))
due_step due (entered pc _ spelled e) = ap (λ (x : Model). x.state.status.intm) e
