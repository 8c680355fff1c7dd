-- ===== src/Interrupt/Laws.antt =====
-- The interrupt pipeline: its invariant, and how it moves.
use tms32010_sv.Base.{ℕ, ◌<◌, Bool, true, false, ◌≡◌, arith, not, ◌&&◌, if◌then◌else◌}
use tms32010_sv.Isa.{Instruction}
use tms32010_sv.Machine.{Model}
use tms32010_sv.WellFormed.{IsWellFormed}
use tms32010_sv.Interrupt.{
  is_multiply, advance_interrupt_pipeline, latch_interrupt, enter_interrupt,
}

-- A scheduled delay or entry has a request behind it; an entry is scheduled only with interrupts
-- enabled, and never together with a delay.
pub record IsScheduled (m : Model) : Type 0 where
  pub delay_requested : m.interrupt_delay_one ≡ true → m.state.interrupt_pending ≡ true
  pub entry_requested : m.interrupt_entry_pending ≡ true → m.state.interrupt_pending ≡ true
  pub entry_enabled : m.interrupt_entry_pending ≡ true → m.state.status.intm ≡ false
  pub entry_alone : m.interrupt_entry_pending ≡ true → m.interrupt_delay_one ≡ false

-- The pipeline keeps the invariant after an instruction, which runs only with no entry scheduled.
pub advance_interrupt_pipeline-IsScheduled :
    (i : Instruction) (m : Model)
    → m.interrupt_entry_pending ≡ false
    → (m.interrupt_delay_one ≡ true → m.state.interrupt_pending ≡ true)
    → IsScheduled (advance_interrupt_pipeline i m)
unfolding advance_interrupt_pipeline
advance_interrupt_pipeline-IsScheduled i m idle requested = ground arith

pub latch_interrupt-IsScheduled : (m : Model) → IsScheduled m → IsScheduled (latch_interrupt m)
unfolding latch_interrupt
latch_interrupt-IsScheduled m h = ground arith

either :
    (b : Bool) {m m' : Model}
    → IsWellFormed m
    → IsWellFormed m'
    → IsWellFormed (if b then m else m')
either true h k = h
either false h k = k

-- The flags and the clock are no part of the invariant on the registers and the memories.
pub flags-IsWellFormed :
    {m : Model} (delay entry : Bool) (cycles : ℕ)
    → IsWellFormed m
    → IsWellFormed (record m {
      interrupt_delay_one = delay;
      interrupt_entry_pending = entry;
      cycle_count = cycles;
    })
flags-IsWellFormed delay entry cycles h = record {
  state_ok = h.state_ok;
  program_ok = h.program_ok;
  data_ok = h.data_ok;
  input_ok = h.input_ok;
  output_ok = h.output_ok;
}

pub advance_interrupt_pipeline-IsWellFormed :
    (i : Instruction) {m : Model} → IsWellFormed m → IsWellFormed (advance_interrupt_pipeline i m)
unfolding advance_interrupt_pipeline
advance_interrupt_pipeline-IsWellFormed i {m} h =
    either m.interrupt_delay_one
      (either m.state.status.intm (flags-IsWellFormed _ _ _ h)
        (either (is_multiply i) (flags-IsWellFormed _ _ _ h) (flags-IsWellFormed _ _ _ h)))
      (either (m.state.interrupt_pending && not m.state.status.intm) (flags-IsWellFormed _ _ _ h) h)

pub advance_interrupt_pipeline-clock :
    (i : Instruction) (m : Model) → (advance_interrupt_pipeline i m).cycle_count ≡ m.cycle_count
unfolding advance_interrupt_pipeline
advance_interrupt_pipeline-clock i m = ground arith

-- The latch and the entry cycle change registers within their widths.
pub latch_interrupt-IsWellFormed : {m : Model} → IsWellFormed m → IsWellFormed (latch_interrupt m)
unfolding latch_interrupt
latch_interrupt-IsWellFormed {m} h =
    either (not m.interrupt_input_high)
      (record {
        state_ok = ground arith;
        program_ok = h.program_ok;
        data_ok = h.data_ok;
        input_ok = h.input_ok;
        output_ok = h.output_ok;
      })
      h

pub latch_interrupt-clock : (m : Model) → (latch_interrupt m).cycle_count ≡ m.cycle_count
unfolding latch_interrupt
latch_interrupt-clock m = ground arith

pub latch_interrupt-entry :
    (m : Model) → (latch_interrupt m).interrupt_entry_pending ≡ m.interrupt_entry_pending
unfolding latch_interrupt
latch_interrupt-entry m = ground arith

pub latch_interrupt-delay :
    (m : Model) → (latch_interrupt m).interrupt_delay_one ≡ m.interrupt_delay_one
unfolding latch_interrupt
latch_interrupt-delay m = ground arith

pub latch_interrupt-request :
    (m : Model)
    → m.state.interrupt_pending ≡ true
    → (latch_interrupt m).state.interrupt_pending ≡ true
unfolding latch_interrupt
latch_interrupt-request m requested = ground arith

pub enter_interrupt-IsWellFormed :
    (pc : ℕ) {m : Model} → pc < 0x1000 → IsWellFormed m → IsWellFormed (enter_interrupt pc m)
unfolding enter_interrupt
enter_interrupt-IsWellFormed pc fits h = record {
  state_ok = ground arith;
  program_ok = h.program_ok;
  data_ok = h.data_ok;
  input_ok = h.input_ok;
  output_ok = h.output_ok;
}

pub enter_interrupt-IsScheduled : (pc : ℕ) (m : Model) → IsScheduled (enter_interrupt pc m)
unfolding enter_interrupt
enter_interrupt-IsScheduled pc m = ground arith
