-- ===== src/Step/Reachable.antt =====
-- sim/reference_models/tms32010_model.py: the models that the methods of `Tms32010Model`, its pins and
-- its input ports lead to, from the constructor on.
use tms32010_sv.Base.{
  ℕ, ◌<◌, ◌^◌, ◌≡◌, ◌≢◌, arith, Bool, List, set, Outcome, done, raised, replicate, length-replicate,
  AllBelow-replicate,
}
use tms32010_sv.Base.Int.{ℤ}
use tms32010_sv.Machine.{
  Model, Fault, index_error, StepTrace, initial, initial_state, initial_status,
  reset_at_instruction_boundary, program_words, data_words, io_ports,
}
use tms32010_sv.WellFormed.{IsMemory, IsMemory-set, IsWellFormed, Ends, ends, fails}
use tms32010_sv.Interrupt.{latch_interrupt}
use tms32010_sv.Interrupt.Laws.{
  IsScheduled, latch_interrupt-IsWellFormed, latch_interrupt-IsScheduled,
}
use tms32010_sv.Retire.Laws.{Completed, Rejected}
use tms32010_sv.Loader.{load_words}
use tms32010_sv.Loader.Keeps.{left_by, load_words-Kept, LoadKept-IsScheduled}
use tms32010_sv.Step.{step}
use tms32010_sv.Step.Total.{step-Completes}

-- The models that an embedder can come to: by the constructor, by the methods, also those that raise,
-- by the pins, and by words written to the input ports.
pub data Reachable : Model → Type 0 where
  starts : Reachable initial
  resets : {m : Model} → Reachable m → Reachable (reset_at_instruction_boundary m)
  loads :
      {m : Model} (words : List ℤ) (origin : ℤ)
      → Reachable m
      → Reachable (left_by (load_words words origin m))
  steps : {m : Model} → Reachable m → Reachable (left_by (step m))
  pins :
      {m : Model} (bio interrupt : Bool)
      → Reachable m
      → Reachable (record m { bio_input_high = bio; interrupt_input_high = interrupt })
  input :
      {m : Model} (port word : ℕ)
      → word < 2 ^ 16
      → Reachable m
      → Reachable (record m { io_input = set m.io_input port word })

cleared : (n : ℕ) → IsMemory n (replicate n 0)
cleared n = record {
  size = length-replicate n 0;
  words = AllBelow-replicate (2 ^ 16) n (omega arith);
}

pub initial-IsWellFormed : IsWellFormed initial
unfolding initial initial_state initial_status
initial-IsWellFormed = record {
  state_ok = ground arith;
  program_ok = cleared program_words;
  data_ok = cleared data_words;
  input_ok = cleared io_ports;
  output_ok = cleared io_ports;
}

initial-IsScheduled : IsScheduled initial
unfolding initial initial_state initial_status
initial-IsScheduled = ground arith

reset-IsWellFormed : {m : Model} → IsWellFormed m → IsWellFormed (reset_at_instruction_boundary m)
unfolding reset_at_instruction_boundary
reset-IsWellFormed h = record {
  state_ok = ground arith;
  program_ok = h.program_ok;
  data_ok = h.data_ok;
  input_ok = h.input_ok;
  output_ok = h.output_ok;
}

reset-IsScheduled : (m : Model) → IsScheduled (reset_at_instruction_boundary m)
unfolding reset_at_instruction_boundary
reset-IsScheduled m = ground arith

-- The two invariants together.
abbrev pub IsSound : Model → Type 0
IsSound m = IsWellFormed m × IsScheduled m

step-IsSound :
    {m : Model} (o : Outcome Model Fault StepTrace)
    → Ends (Completed m) (Rejected (latch_interrupt m)) o
    → IsSound m
    → IsSound (left_by o)
step-IsSound o (ends c) h = (c.well_formed, c.scheduled)
step-IsSound {m} o (fails r) h =
    rw (r.unchanged) (latch_interrupt-IsWellFormed h.0, latch_interrupt-IsScheduled m h.1)

pins-IsWellFormed :
    {m : Model} (bio interrupt : Bool)
    → IsWellFormed m
    → IsWellFormed (record m { bio_input_high = bio; interrupt_input_high = interrupt })
pins-IsWellFormed bio interrupt h = record {
  state_ok = h.state_ok;
  program_ok = h.program_ok;
  data_ok = h.data_ok;
  input_ok = h.input_ok;
  output_ok = h.output_ok;
}

pins-IsScheduled :
    {m : Model} (bio interrupt : Bool)
    → IsScheduled m
    → IsScheduled (record m { bio_input_high = bio; interrupt_input_high = interrupt })
pins-IsScheduled bio interrupt h = record {
  delay_requested = h.delay_requested;
  entry_requested = h.entry_requested;
  entry_enabled = h.entry_enabled;
  entry_alone = h.entry_alone;
}

input-IsWellFormed :
    {m : Model} (port word : ℕ)
    → word < 2 ^ 16
    → IsWellFormed m
    → IsWellFormed (record m { io_input = set m.io_input port word })
input-IsWellFormed port word small h = record {
  state_ok = h.state_ok;
  program_ok = h.program_ok;
  data_ok = h.data_ok;
  input_ok = IsMemory-set port word h.input_ok small;
  output_ok = h.output_ok;
}

input-IsScheduled :
    {m : Model} (port word : ℕ)
    → IsScheduled m
    → IsScheduled (record m { io_input = set m.io_input port word })
input-IsScheduled port word h = record {
  delay_requested = h.delay_requested;
  entry_requested = h.entry_requested;
  entry_enabled = h.entry_enabled;
  entry_alone = h.entry_alone;
}

-- Every reachable model is well-formed, with registers and memory words within their widths, and
-- its interrupt pipeline is consistent.
pub Reachable-IsSound : {m : Model} → Reachable m → IsSound m
Reachable-IsSound starts = (initial-IsWellFormed, initial-IsScheduled)
Reachable-IsSound (resets {m} r) = (reset-IsWellFormed (Reachable-IsSound r).0, reset-IsScheduled m)
Reachable-IsSound (loads words origin r) =
    let h = Reachable-IsSound r in
    let kept = load_words-Kept words origin h.0 in
    (kept.0.well_formed, LoadKept-IsScheduled kept h.1)
Reachable-IsSound (steps {m} r) =
    let h = Reachable-IsSound r in step-IsSound (step m) (step-Completes h.0 h.1) h
Reachable-IsSound (pins bio interrupt r) =
    let h = Reachable-IsSound r in
    (pins-IsWellFormed bio interrupt h.0, pins-IsScheduled bio interrupt h.1)
Reachable-IsSound (input port word small r) =
    let h = Reachable-IsSound r in
    (input-IsWellFormed port word small h.0, input-IsScheduled port word h.1)

abbrev raises : Fault → Model → Outcome Model Fault StepTrace
raises e m = raised e m

same_fault : (e e' : Fault) (m m' : Model) → raises e m ≡ raises e' m' → e ≡ e'
same_fault e e' m m' h = cc

not_done : {a : StepTrace} {e : Fault} {m m' : Model} → done a m ≢ raised e m'
not_done h = cc

not_index :
    {m : Model} {o : Outcome Model Fault StepTrace} (m' : Model)
    → Ends (Completed m) (Rejected (latch_interrupt m)) o
    → o ≢ raised index_error m'
not_index m' (ends c) e = not_done e
not_index m' (fails r) e = rw (same_fault _ _ _ _ e) at r.unsupported

-- A step of a reachable model never raises an index error: every list access is in range.
pub step-index_error : {m : Model} → Reachable m → (m' : Model) → step m ≢ raised index_error m'
step-index_error {m} r m' = let h = Reachable-IsSound r in not_index m' (step-Completes h.0 h.1)
