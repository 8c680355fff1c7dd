-- ===== src/Alu/Branches.antt =====
-- `_accumulator_branch_taken` and `ABS` against the sign of the integer in the accumulator.
use tms32010_sv.Base.{ℕ, suc, ◌^◌, ◌<◌, ◌≡◌, ◌≢◌, ◌↔◌, arith, Bool, true, ◌&&◌, ◌==◌, if◌then◌else◌}
use tms32010_sv.Base.Int.{ℤ, pos, negsuc, ◌≤ℤ◌, ◌<ℤ◌, signed32}
use tms32010_sv.Isa.{AccumulatorBranch}
use tms32010_sv.Machine.{State}
use tms32010_sv.Alu.{accumulator_branch_taken, absolute_accumulator}
use tms32010_sv.Alu.Words.{mask_acc_id, sign_bit}

-- The condition that each branch is named for.
abbrev pub Condition : AccumulatorBranch → ℤ → Type 0
Condition AccumulatorBranch.bgez x = pos 0 ≤ℤ x
Condition AccumulatorBranch.bgz x = pos 0 <ℤ x
Condition AccumulatorBranch.blez x = x ≤ℤ pos 0
Condition AccumulatorBranch.blz x = x <ℤ pos 0
Condition AccumulatorBranch.bnz x = x ≢ pos 0
Condition AccumulatorBranch.bz x = x ≡ pos 0

-- For an accumulator of 32 bits, each accumulator branch is taken exactly when its condition holds
-- of the signed accumulator.
pub accumulator_branch_taken_iff :
    (c : AccumulatorBranch) (acc : ℕ)
    → acc < 2 ^ 32
    → (accumulator_branch_taken c acc ≡ true) ↔ Condition c (signed32 acc)
unfolding accumulator_branch_taken
accumulator_branch_taken_iff AccumulatorBranch.bgez acc h =
    rw (mask_acc_id acc h) (ground (arith, sign_bit acc))
accumulator_branch_taken_iff AccumulatorBranch.bgz acc h =
    rw (mask_acc_id acc h) (ground (arith, sign_bit acc))
accumulator_branch_taken_iff AccumulatorBranch.blez acc h =
    rw (mask_acc_id acc h) (ground (arith, sign_bit acc))
accumulator_branch_taken_iff AccumulatorBranch.blz acc h =
    rw (mask_acc_id acc h) (ground (arith, sign_bit acc))
accumulator_branch_taken_iff AccumulatorBranch.bnz acc h =
    rw (mask_acc_id acc h) (ground (arith, sign_bit acc))
accumulator_branch_taken_iff AccumulatorBranch.bz acc h =
    rw (mask_acc_id acc h) (ground (arith, sign_bit acc))

-- The absolute value of an integer that fits 32 bits, as the accumulator holds it: the least integer
-- has none, and is saturated in OVM or left alone.
abbrev pub absolute : Bool → ℤ → ℕ
absolute saturates (pos n) = n
absolute saturates (negsuc n) = if n == 0x7FFF_FFFF && saturates then 0x7FFF_FFFF else suc n

-- For an accumulator of 32 bits, `ABS` stores the absolute value of the signed accumulator; of the
-- least integer, which has none, it stores the greatest when OVM is set and itself otherwise. It
-- changes nothing else (OV included).
pub absolute_accumulator-absolute :
    (s : State)
    → s.acc < 2 ^ 32
    → absolute_accumulator s ≡ record s { acc = absolute s.status.ovm (signed32 s.acc) }
unfolding absolute_accumulator
absolute_accumulator-absolute s h = ground (arith, sign_bit s.acc)
