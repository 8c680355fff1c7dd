-- ===== src/Tests.antt =====
-- The theorems at concrete inputs, and small programs run through `step`.
pub mod Programs
pub mod Tools
pub mod Assembly
pub mod Reassembled
pub mod Mame
pub mod Dac
pub mod PushPop
pub mod Interrupted
pub mod Validated
use tms32010_sv.Base.{
  ℕ, ◌+◌, ◌-◌, ◌*◌, ◌/◌, ◌%◌, ◌^◌, ◌<◌, bit_and, ◌≡◌, ◌≢◌, ◌↔◌, refl, arith, Bool, true, false,
  List, [], ◌∷◌, ◌++◌, ◌&&◌, ◌==◌, if◌then◌else◌, set, none, some, done, raised, ◌>>=◌, ◌>>◌,
  AllBelow, Outcome, ◌≤◌, nil, cons, length,
}
use tms32010_sv.Base.Int.{ℤ, pos, negsuc, ◌+ℤ◌, ◌-ℤ◌, ◌*ℤ◌, signed16, signed32}
use tms32010_sv.Isa.{Address, AccumulatorBranch, ControlFlow, MemoryOp, Instruction, mnemonic}
use tms32010_sv.Decode.{decode}
use tms32010_sv.Decode.Legal.{IsLegal, decode-IsLegal}
use tms32010_sv.Machine.{
  Model, State, Status, Fault, index_error, StepTrace, initial, initial_state, initial_status,
}
use tms32010_sv.Access.{modify_state}
use tms32010_sv.Access.Laws
use tms32010_sv.WellFormed.{IsStateOk, Ends}
use tms32010_sv.Alu.{
  modify_counter, add_accumulator, subtract_accumulator, multiply, multiply_constant,
  accumulator_branch_taken, absolute_accumulator,
}
use tms32010_sv.Alu.Signed.{accumulate, add_accumulator-accumulate, subtract_accumulator-accumulate}
use tms32010_sv.Alu.Divide.{subc_times, subc_times_divides}
use tms32010_sv.Alu.Product.{signed32-multiply, signed32-multiply_constant}
use tms32010_sv.Alu.Branches.{
  Condition, accumulator_branch_taken_iff, absolute, absolute_accumulator-absolute,
}
use tms32010_sv.Alu.Counter.{modify_counter_lem}
use tms32010_sv.Interrupt.{
  is_multiply, advance_interrupt_pipeline, latch_interrupt, enter_interrupt,
}
use tms32010_sv.Interrupt.Latency.{advance_interrupt_pipeline-masked}
use tms32010_sv.Retire.{pc_plus}
use tms32010_sv.Retire.Laws.{Completed, Rejected}
use tms32010_sv.Control.{mask, cala_state, pop_state, push_state, ret_state, perform_control}
use tms32010_sv.Control.Stack.{shallow, ret-call, ret-enter_interrupt, ret-cala, pop-push}
use tms32010_sv.Operand.{status_word, load_status}
use tms32010_sv.Operand.StatusWord.{load_status-status_word}
use tms32010_sv.Perform.{perform, spill_stack}
use tms32010_sv.Perform.Tables.{tblr-tblw}
use tms32010_sv.Loader.{load_words, image_exceeds}
use tms32010_sv.Loader.Laws.{image, Loaded, load_words-Loaded, load_words-image_exceeds}
use tms32010_sv.Loader.Keeps.{left_by}
use tms32010_sv.Step.{step}
use tms32010_sv.Step.Total.{step-Completes}
use tms32010_sv.Step.Reachable.{
  Reachable, starts, loads, steps, IsSound, initial-IsWellFormed, Reachable-IsSound,
  step-index_error,
}

-- A program that loads 5, doubles it in memory and stops at a word with no instruction.
abbrev program_words_in : List ℕ
program_words_in = 0x7E05 ∷ 0x5003 ∷ 0x0003 ∷ 0x7FFF ∷ []

abbrev loaded : Model
loaded = left_by (load_words (image program_words_in) (pos 0) initial)

loaded-Reachable : Reachable loaded
loaded-Reachable = loads (image program_words_in) (pos 0) starts

step-Completes_example : Ends (Completed loaded) (Rejected (latch_interrupt loaded)) (step loaded)
step-Completes_example =
    step-Completes (Reachable-IsSound loaded-Reachable).0 (Reachable-IsSound loaded-Reachable).1

Reachable-IsSound_example : IsSound (left_by (step loaded))
Reachable-IsSound_example = Reachable-IsSound (steps loaded-Reachable)

step-index_error_example : step loaded ≢ raised index_error loaded
step-index_error_example = step-index_error loaded-Reachable loaded

abbrev with_acc : ℕ → State
with_acc acc = record initial_state { acc = acc }

subc_times_divides_example :
    subc_times 16 7 (with_acc 100) ≡ record (with_acc 100) { acc = 100 % 7 * 2 ^ 16 + 100 / 7 }
subc_times_divides_example =
    subc_times_divides 7 (with_acc 100) (omega arith) (omega arith) (omega arith)

add_accumulator-accumulate_example :
    add_accumulator 1 (with_acc 0x7FFF_FFFF)
    ≡ accumulate (signed32 0x7FFF_FFFF +ℤ signed32 1) (with_acc 0x7FFF_FFFF)
add_accumulator-accumulate_example =
    add_accumulator-accumulate 1 (with_acc 0x7FFF_FFFF) (omega arith) (omega arith)

subtract_accumulator-accumulate_example :
    subtract_accumulator 1 (with_acc 0x8000_0000)
    ≡ accumulate (signed32 0x8000_0000 -ℤ signed32 1) (with_acc 0x8000_0000)
subtract_accumulator-accumulate_example =
    subtract_accumulator-accumulate 1 (with_acc 0x8000_0000) (omega arith) (omega arith)

abbrev masked : Model
masked = record initial {
  state = record initial_state {
    status = record initial_status { intm = true };
    interrupt_pending = true;
  };
  interrupt_delay_one = true;
}

masked_delay_dropped :
    advance_interrupt_pipeline Instruction.dint masked
    ≡ record masked { interrupt_delay_one = false }
masked_delay_dropped = advance_interrupt_pipeline-masked Instruction.dint masked refl

ret-enter_interrupt_example : ret_state (enter_interrupt 5 initial).state ≡ record (initial.state) {
  pc = 5;
  stack = shallow initial.state.stack;
  status = record (initial.state.status) { intm = true };
  interrupt_pending = false;
}
ret-enter_interrupt_example =
    ret-enter_interrupt initial 5 initial-IsWellFormed.state_ok (omega arith)

ret-call_example :
    (perform_control ControlFlow.call 100 7 >>= λ _. modify_state ret_state) initial
    ≡ done tt (record initial {
      state = record (initial.state) { pc = pc_plus 7 2; stack = shallow initial.state.stack };
    })
ret-call_example = ret-call initial 100 7 initial-IsWellFormed.state_ok

cala_returns :
    ret_state (cala_state 9 initial.state)
    ≡ record (initial.state) { pc = pc_plus 9 1; stack = shallow initial.state.stack }
cala_returns = ret-cala initial.state initial-IsWellFormed.state_ok 9

popped_after_push : pop_state 10 (push_state 9 initial.state) ≡ record (initial.state) {
  pc = pc_plus 10 1;
  acc = mask initial.state.acc;
  stack = shallow initial.state.stack;
}
popped_after_push = pop-push initial.state initial-IsWellFormed.state_ok 9 10

signed32-multiply_example : signed32 (multiply 0xFFFF 5) ≡ (
    if 0xFFFF == 0x8000 && 5 == 0x8000 then negsuc (2 ^ 30 - 1) else signed16 0xFFFF *ℤ signed16 5)
signed32-multiply_example = signed32-multiply 0xFFFF 5 (omega arith) (omega arith)

signed32-multiply_constant_example :
    signed32 (multiply_constant 7 (negsuc 4095)) ≡ signed16 7 *ℤ negsuc 4095
signed32-multiply_constant_example =
    signed32-multiply_constant 7 (negsuc 4095) (omega arith) (omega arith) (omega arith)

accumulator_branch_taken_iff_example :
    (accumulator_branch_taken AccumulatorBranch.blez 0x8000_0000 ≡ true)
    ↔ Condition AccumulatorBranch.blez (signed32 0x8000_0000)
accumulator_branch_taken_iff_example =
    accumulator_branch_taken_iff AccumulatorBranch.blez 0x8000_0000 (omega arith)

absolute_accumulator-absolute_example :
    absolute_accumulator (with_acc 0xFFFF_FFFE) ≡ record (with_acc 0xFFFF_FFFE) {
      acc = absolute initial_state.status.ovm (signed32 0xFFFF_FFFE);
    }
absolute_accumulator-absolute_example =
    absolute_accumulator-absolute (with_acc 0xFFFF_FFFE) (omega arith)

modify_counter_lem_example :
    (modify_counter 0x01FF (pos 1) ≡ 0x01FF / 512 * 512 + (0x01FF % 512 + 1) % 512)
    × (modify_counter 0x01FF (negsuc 0) ≡ 0x01FF / 512 * 512 + (0x01FF % 512 + 511) % 512)
modify_counter_lem_example = modify_counter_lem 0x01FF (omega arith)

abbrev some_status : Status
some_status = record { ov = true; ovm = false; intm = true; arp = 1; dp = 0 }

load_status-status_word_example :
    load_status (status_word some_status) initial_status
    ≡ record some_status { intm = initial_status.intm }
load_status-status_word_example =
    load_status-status_word some_status initial_status (omega arith) (omega arith)

abbrev direct : ℕ → Address
direct field = record { indirect = false; addressing_field = field }

tblr-tblw_example :
    (perform MemoryOp.tblw (direct 3) 3 0 >> perform MemoryOp.tblr (direct 4) 4 0) initial
    ≡ done tt (record initial {
      program =
          set initial.program
            (bit_and initial.state.acc 0x0FFF)
            (Laws.word_at initial.data_memory 3);
      data_memory = set initial.data_memory 4 (Laws.word_at initial.data_memory 3);
      state = spill_stack initial.state;
    })
tblr-tblw_example =
    tblr-tblw initial-IsWellFormed (direct 3) (direct 4) 3 4 0 0 (omega arith) (omega arith)

lack_decodes : decode 0x7E05 ≡ some (Instruction.lack 5)
unfolding decode
lack_decodes = refl

decode-IsLegal_example : IsLegal (Instruction.lack 5)
decode-IsLegal_example = decode-IsLegal 0x7E05 lack_decodes

small_words : AllBelow (2 ^ 16) (0x7E05 ∷ 0x7F89 ∷ [])
small_words = cons (omega arith) (cons (omega arith) nil)

load_words-Loaded_example :
    (m' : Model) × (load_words (image (0x7E05 ∷ 0x7F89 ∷ [])) (pos 16) initial ≡ done tt m')
    × Loaded (0x7E05 ∷ 0x7F89 ∷ []) 16 initial m'
load_words-Loaded_example =
    load_words-Loaded (0x7E05 ∷ 0x7F89 ∷ []) 16 initial-IsWellFormed small_words (omega arith)
      (omega arith)

load_words-image_exceeds_example :
    (m' : Model) × (load_words (image (0x7E05 ∷ 0x7F89 ∷ []) ++ (pos 3 ∷ [])) (pos 4094) initial
      ≡ raised image_exceeds m')
    × Loaded (0x7E05 ∷ 0x7F89 ∷ []) 4094 initial m'
load_words-image_exceeds_example =
    load_words-image_exceeds (0x7E05 ∷ 0x7F89 ∷ []) 4094 initial-IsWellFormed small_words
      (omega arith) (pos 3) [] (omega arith)
