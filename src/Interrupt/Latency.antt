-- ===== src/Interrupt/Latency.antt =====
-- `_advance_interrupt_pipeline` on a request that is enabled, and on one that is masked.
use tms32010_sv.Base.{◌≡◌, arith, true, false}
use tms32010_sv.Isa.{Instruction}
use tms32010_sv.Machine.{Model}
use tms32010_sv.Interrupt.{is_multiply, advance_interrupt_pipeline}

-- A request that is enabled and not yet scheduled.
pub record IsWaiting (m : Model) : Type 0 where
  pub requested : m.state.interrupt_pending ≡ true
  pub enabled : m.state.status.intm ≡ false
  pub no_delay : m.interrupt_delay_one ≡ false
  pub no_entry : m.interrupt_entry_pending ≡ false

abbrev pub delayed : Model → Model
delayed m = record m { interrupt_delay_one = true }

pub first : (i : Instruction) (m : Model) → IsWaiting m → advance_interrupt_pipeline i m ≡ delayed m
unfolding advance_interrupt_pipeline
first i m h = ground arith

pub extended :
    (i : Instruction) (m : Model)
    → is_multiply i ≡ true
    → m.state.status.intm ≡ false
    → m.interrupt_delay_one ≡ true
    → advance_interrupt_pipeline i m ≡ delayed m
unfolding advance_interrupt_pipeline
extended i m multiplies enabled delay = ground arith

pub finished :
    (i : Instruction) (m : Model)
    → is_multiply i ≡ false
    → m.state.status.intm ≡ false
    → m.interrupt_delay_one ≡ true
    → (advance_interrupt_pipeline i m).interrupt_entry_pending ≡ true
unfolding advance_interrupt_pipeline
finished i m plain enabled delay = ground arith

-- With interrupts masked, no instruction changes the pipeline but for a delay that has begun, which
-- is dropped: the request stays, and no entry is scheduled.
pub advance_interrupt_pipeline-masked :
    (i : Instruction) (m : Model)
    → m.state.status.intm ≡ true
    → advance_interrupt_pipeline i m ≡ record m { interrupt_delay_one = false }
unfolding advance_interrupt_pipeline
advance_interrupt_pipeline-masked i m masked = ground arith
