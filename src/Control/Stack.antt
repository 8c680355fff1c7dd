-- ===== src/Control/Stack.antt =====
-- The hardware stack of four words: calls and returns, pushes and pops.
use tms32010_sv.Base.{ℕ, ◌+◌, ◌<◌, ◌≡◌, refl, arith, true, false, done, ◌>>=◌}
use tms32010_sv.Base.Masks.{bit_and-low}
use tms32010_sv.Machine.{Model, State}
use tms32010_sv.WellFormed.{IsStateOk}
use tms32010_sv.Interrupt.{enter_interrupt}
use tms32010_sv.Retire.{pc_plus}
use tms32010_sv.Isa.{ControlFlow}
use tms32010_sv.Access.{modify_state}
use tms32010_sv.Perform.Safe.{mask_pc-lt}
use tms32010_sv.Control.{
  perform_control, mask, push_masked, push_plain, drop_top, cala_state, pop_state, ret_state,
  push_state,
}

-- An address is its own low 12 bits.
mask_lem : (a : ℕ) → a < 0x1000 → mask a ≡ a
mask_lem a fits = omega (arith, bit_and-low 12 a)

-- The stack after a value has come and gone: the third word has moved down to the fourth, which is
-- lost.
abbrev pub shallow : ℕ × ℕ × ℕ × ℕ → ℕ × ℕ × ℕ × ℕ
shallow stack = (stack.0, stack.1, stack.2, stack.2)

-- The two halves of a round trip on the registers.
ret-push_plain :
    (s : State) (target back : ℕ)
    → IsStateOk s
    → back < 0x1000
    → ret_state (record (push_plain back s) { pc = target })
      ≡ record s { pc = back; stack = shallow s.stack }
unfolding ret_state drop_top push_plain
ret-push_plain s target back h fits =
    rw
      (
        mask_lem back fits,
        mask_lem s.stack.0 h.stack0_fits,
        mask_lem s.stack.1 h.stack1_fits,
        mask_lem s.stack.2 h.stack2_fits,
      )
      refl

-- With registers within their widths, `RET` after `CALL`: execution goes on two words behind the
-- call, and every register but the fourth stack word is as before it.
pub ret-call :
    (m : Model) (target pc : ℕ)
    → IsStateOk m.state
    → (perform_control ControlFlow.call target pc >>= λ _. modify_state ret_state) m
      ≡ done tt (record m {
        state = record (m.state) { pc = pc_plus pc 2; stack = shallow m.state.stack };
      })
unfolding perform_control
ret-call m target pc h =
    rw (ret-push_plain m.state target (pc_plus pc 2) h (mask_pc-lt (pc + 2))) refl

-- With registers within their widths, `RET` after the interrupt entry at an address `pc` of 12
-- bits: execution goes on at `pc`, with interrupts masked, the request acknowledged and the fourth
-- stack word lost; every other register is as before.
pub ret-enter_interrupt :
    (m : Model) (pc : ℕ)
    → IsStateOk m.state
    → pc < 0x1000
    → ret_state (enter_interrupt pc m).state ≡ record (m.state) {
      pc = pc;
      stack = shallow m.state.stack;
      status = record (m.state.status) { intm = true };
      interrupt_pending = false;
    }
unfolding enter_interrupt ret_state drop_top
ret-enter_interrupt m pc h fits =
    rw
      (
        mask_lem pc fits,
        mask_lem m.state.stack.0 h.stack0_fits,
        mask_lem m.state.stack.1 h.stack1_fits,
        mask_lem m.state.stack.2 h.stack2_fits,
      )
      refl

module _ (s : State) (h : IsStateOk s) where
  -- With registers within their widths, `RET` after `CALA` at `pc`: execution goes on at the next
  -- word, and every register but the fourth stack word is as before.
  pub ret-cala :
      (pc : ℕ)
      → ret_state (cala_state pc s) ≡ record s { pc = pc_plus pc 1; stack = shallow s.stack }
  unfolding ret_state cala_state drop_top push_masked
  ret-cala pc =
      simp
        (
          mask_lem (pc_plus pc 1) (mask_pc-lt (pc + 1)),
          mask_lem s.stack.0 h.stack0_fits,
          mask_lem s.stack.1 h.stack1_fits,
          mask_lem s.stack.2 h.stack2_fits,
        )
        refl

  -- With registers within their widths, `POP` after `PUSH`: the accumulator keeps its low 12 bits,
  -- and every other register but the program counter and the fourth stack word is as before.
  pub pop-push :
      (pc pc' : ℕ)
      → pop_state pc' (push_state pc s)
        ≡ record s { pc = pc_plus pc' 1; acc = mask s.acc; stack = shallow s.stack }
  unfolding pop_state push_state drop_top push_masked
  pop-push pc pc' =
      simp
        (
          mask_lem (mask s.acc) (mask_pc-lt s.acc),
          mask_lem s.stack.0 h.stack0_fits,
          mask_lem s.stack.1 h.stack1_fits,
          mask_lem s.stack.2 h.stack2_fits,
        )
        refl
