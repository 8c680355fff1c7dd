-- ===== src/Retire/Laws.antt =====
-- How an instruction ends: with the pipeline, the clock and the trace, or with an exception.
use tms32010_sv.Base.{ℕ, ◌+◌, ◌≤◌, ◌≡◌, refl, ◌∙◌, sym, ap, List, true, false, Outcome}
use tms32010_sv.Isa.{Instruction, Operands, mnemonic}
use tms32010_sv.Interrupt.{advance_interrupt_pipeline, enter_interrupt}
use tms32010_sv.Machine.{Model, Fault, index_error, Transaction, StepTrace, architectural_state}
use tms32010_sv.WellFormed.{IsWellFormed, Kept, Ends, ends}
use tms32010_sv.Interrupt.Laws.{
  IsScheduled, advance_interrupt_pipeline-IsScheduled, advance_interrupt_pipeline-IsWellFormed,
  advance_interrupt_pipeline-clock, flags-IsWellFormed,
}
use tms32010_sv.Retire.{retire_state, retire}

-- The object `k` at the call of the pipeline, in a step from `m`.
pub record Retiring (m k : Model) : Type 0 where
  pub request_kept : m.state.interrupt_pending ≡ true → k.state.interrupt_pending ≡ true
  pub delay_kept : k.interrupt_delay_one ≡ m.interrupt_delay_one
  pub no_entry : k.interrupt_entry_pending ≡ false

-- The two ways a step ends: an instruction retires, or the entry cycle ran.
pub data Ending (m : Model) (t : StepTrace) (m' : Model) : Type 0 where
  retired :
      (i : Instruction) (k : Model)
      → m.interrupt_entry_pending ≡ false
      → t.mnemonic ≡ mnemonic i
      → Retiring m k
      → m' ≡ advance_interrupt_pipeline i k
      → Ending m t m'
  entered :
      (pc : ℕ)
      → m.interrupt_entry_pending ≡ true
      → t.mnemonic ≡ "INTERRUPT"
      → m' ≡ enter_interrupt pc m
      → Ending m t m'

-- A step from `m` that ended in `m'` with the trace `t`.
pub record Completed (m : Model) (t : StepTrace) (m' : Model) : Type 0 where
  pub well_formed : IsWellFormed m'
  pub scheduled : IsScheduled m'
  pub clock : m'.cycle_count ≡ m.cycle_count + t.cycles
  pub some_cycles : 1 ≤ t.cycles
  pub few_cycles : t.cycles ≤ 3
  pub snapshot : t.state_after ≡ architectural_state m'
  pub ending : Ending m t m'

-- The exceptions of the model's own, and not `IndexError`.
abbrev pub IsUnsupported : Fault → Type 0
IsUnsupported index_error = ⊥
IsUnsupported _ = Unit

-- An instruction that raised, and left the model as it was.
pub record Rejected (m : Model) (e : Fault) (m' : Model) : Type 0 where
  pub unsupported : IsUnsupported e
  pub unchanged : m' ≡ m

abbrev pub Completes : Model → Outcome Model Fault StepTrace → Type 0
Completes m = Ends (Completed m) (Rejected m)

-- What runs after a change that keeps `m`, if it does not raise any more.
pub retire-Completes :
    {m m' : Model} (i : Instruction) (pc opcode : ℕ) (operands : Operands) (cycles : ℕ)
    (transactions : List Transaction)
    → IsScheduled m
    → m.interrupt_entry_pending ≡ false
    → 1 ≤ cycles
    → cycles ≤ 3
    → Kept m m'
    → Completes m (retire i pc opcode operands cycles transactions m')
unfolding retire retire_state
retire-Completes {m} {m'} i pc opcode operands cycles transactions h idle some few kept =
    ends record {
      well_formed = advance_interrupt_pipeline-IsWellFormed i (
          flags-IsWellFormed m'.interrupt_delay_one m'.interrupt_entry_pending
            (m'.cycle_count + cycles) kept.well_formed);
      scheduled =
          advance_interrupt_pipeline-IsScheduled i
            (record m' { cycle_count = m'.cycle_count + cycles }) (kept.same.entry_same ∙ idle)
            (λ delayed.
              kept.same.pending_same ∙ h.delay_requested (sym kept.same.delay_same ∙ delayed));
      clock =
          advance_interrupt_pipeline-clock i (record m' { cycle_count = m'.cycle_count + cycles })
          ∙ ap (λ (n : ℕ). n + cycles) kept.same.cycles_same;
      some_cycles = some;
      few_cycles = few;
      snapshot = refl;
      ending =
          retired i (record m' { cycle_count = m'.cycle_count + cycles }) idle refl
            (record {
              request_kept = λ requested. kept.same.pending_same ∙ requested;
              delay_kept = kept.same.delay_same;
              no_entry = kept.same.entry_same ∙ idle;
            })
            refl;
    }
