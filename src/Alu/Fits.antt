-- ===== src/Alu/Fits.antt =====
-- The widths of the results of the accumulator operations.
use tms32010_sv.Base.{ℕ, ◌+◌, ◌^◌, ◌<◌, bit_and, ◌≡◌, arith, Bool, if◌then◌else◌}
use tms32010_sv.Base.Int.{ℤ, pos, ◌*ℤ◌, sub_ℕ, mask_ℤ, mask_ℤ-lt_acc, signed16}
use tms32010_sv.Base.Bits.{bit_and-lt, bit_or-lt}
use tms32010_sv.Machine.{State}
use tms32010_sv.WellFormed.{IsStateOk}
use tms32010_sv.Alu.{
  set_ov, settle, add_accumulator, subtract_accumulator, conditional_subtract, absolute_accumulator,
  shifted_operand, multiply, multiply_constant, modify_counter,
}
use tms32010_sv.Alu.Words.{mask_acc}

-- A change of the registers that keeps their widths, the program counter and the pending request.
pub record Settled (s s' : State) : Type 0 where
  pub fits : IsStateOk s'
  pub pc_same : s'.pc ≡ s.pc
  pub request_same : s'.interrupt_pending ≡ s.interrupt_pending

settle-Settled :
    (overflow : Bool) (old_acc wrapped : ℕ) (s : State)
    → IsStateOk s
    → wrapped < 2 ^ 32
    → Settled s (settle overflow old_acc wrapped s)
unfolding settle
settle-Settled overflow old_acc wrapped s h small = ground arith

pub add_accumulator-Settled : (v : ℕ) (s : State) → IsStateOk s → Settled s (add_accumulator v s)
unfolding add_accumulator
add_accumulator-Settled v s h =
    settle-Settled _ _ _ s h
      (omega (arith, mask_acc (bit_and s.acc 0xFFFF_FFFF + bit_and v 0xFFFF_FFFF)))

pub subtract_accumulator-Settled :
    (v : ℕ) (s : State) → IsStateOk s → Settled s (subtract_accumulator v s)
unfolding subtract_accumulator
subtract_accumulator-Settled v s h = settle-Settled _ _ _ s h (mask_ℤ-lt_acc _)

flag_acc-Settled :
    (overflow : Bool) (v : ℕ) (s : State)
    → IsStateOk s
    → v < 2 ^ 32
    → Settled s (record (if overflow then set_ov s else s) { acc = v })
flag_acc-Settled overflow v s h small = ground arith

masked_choice :
    (b : Bool) (x y : ℕ) → (if b then bit_and x 0xFFFF_FFFF else bit_and y 0xFFFF_FFFF) < 2 ^ 32
masked_choice b x y = ground (arith, mask_acc x, mask_acc y)

pub conditional_subtract-Settled :
    (v : ℕ) (s : State) → IsStateOk s → Settled s (conditional_subtract v s)
unfolding conditional_subtract
conditional_subtract-Settled v s h = flag_acc-Settled _ _ s h (masked_choice _ _ _)

pub absolute_accumulator-Settled : (s : State) → IsStateOk s → Settled s (absolute_accumulator s)
unfolding absolute_accumulator
absolute_accumulator-Settled s h = ground (arith, mask_ℤ-lt_acc (sub_ℕ 0 s.acc))

pub shifted_operand-lt : (w k : ℕ) → shifted_operand w k < 2 ^ 32
unfolding shifted_operand
shifted_operand-lt w k = mask_ℤ-lt_acc _

pub multiply-lt : (t w : ℕ) → multiply t w < 2 ^ 32
unfolding multiply
multiply-lt t w = ground (arith, mask_ℤ-lt_acc (signed16 t *ℤ signed16 w))

pub multiply_constant-lt : (t : ℕ) (c : ℤ) → multiply_constant t c < 2 ^ 32
unfolding multiply_constant
multiply_constant-lt t c = mask_ℤ-lt_acc _

mask_ℤ-lt_counter : (x : ℤ) → mask_ℤ 9 x < 2 ^ 16
mask_ℤ-lt_counter (pos n) = omega arith
mask_ℤ-lt_counter (ℤ.negsuc n) = omega arith

pub modify_counter-lt : (v : ℕ) (d : ℤ) → v < 2 ^ 16 → modify_counter v d < 2 ^ 16
unfolding modify_counter
modify_counter-lt v d h =
    bit_or-lt 16 _ _ (bit_and-lt 16 v 0xFE00 h (omega arith)) (mask_ℤ-lt_counter _)
