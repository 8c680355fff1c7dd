-- ===== src/Alu.antt =====
-- sim/reference_models/tms32010_model.py: `_modify_counter`, `_add_accumulator`,
-- `_subtract_accumulator`, `_conditional_subtract` and `_accumulator_branch_taken`, and the parts of
-- `step` that compute an accumulator or a product.
pub mod Words
pub mod Signed
pub mod Divide
pub mod Product
pub mod Branches
pub mod Counter
pub mod Fits
use tms32010_sv.Base.{
  ℕ, ◌+◌, ◌*◌, ◌^◌, bit_and, bit_or, bit_xor, Bool, true, false, not, ◌&&◌, ◌||◌, ◌==◌,
  if◌then◌else◌,
}
use tms32010_sv.Base.Int.{ℤ, pos, negsuc, ◌+ℤ◌, ◌*ℤ◌, sub_ℕ, mask_ℤ, signed16}
use tms32010_sv.Isa.{AccumulatorBranch}
use tms32010_sv.Machine.{State, Status}

-- `_modify_counter`: only AR[8:0] counts.
unfoldable pub modify_counter : ℕ → ℤ → ℕ
unfolding ◌+ℤ◌
modify_counter value delta = bit_or (bit_and value 0xFE00) (mask_ℤ 9 (pos value +ℤ delta))

-- `~x & y`: the bits of `y` that `x` has not.
unfoldable pub and_not : ℕ → ℕ → ℕ
and_not x y = bit_xor y (bit_and x y)

abbrev set_ov : State → State
set_ov s = record s { status = record (s.status) { ov = true } }

-- What both overflow rules do: set OV, and saturate in OVM by the sign of the old accumulator.
settle : Bool → ℕ → ℕ → State → State
settle overflow old_acc wrapped s =
    if overflow
    then if s.status.ovm
      then record (set_ov s) {
        acc = if bit_and old_acc 0x8000_0000 == 0 then 0x7FFF_FFFF else 0x8000_0000;
      }
      else record (set_ov s) { acc = wrapped }
    else record s { acc = wrapped }

-- `_add_accumulator`.
unfoldable pub add_accumulator : ℕ → State → State
unfolding settle and_not
add_accumulator value s =
    let old_acc = bit_and s.acc 0xFFFF_FFFF in
    let addend = bit_and value 0xFFFF_FFFF in
    let wrapped = bit_and (old_acc + addend) 0xFFFF_FFFF in
    let overflow =
      bit_and (and_not (bit_xor old_acc addend) (bit_xor old_acc wrapped)) 0x8000_0000 in
    settle (not (overflow == 0)) old_acc wrapped s

-- `_subtract_accumulator`.
unfoldable pub subtract_accumulator : ℕ → State → State
unfolding settle
subtract_accumulator value s =
    let old_acc = bit_and s.acc 0xFFFF_FFFF in
    let subtrahend = bit_and value 0xFFFF_FFFF in
    let wrapped = mask_ℤ 32 (sub_ℕ old_acc subtrahend) in
    let overflow =
      bit_and (bit_and (bit_xor old_acc subtrahend) (bit_xor old_acc wrapped)) 0x8000_0000 in
    settle (not (overflow == 0)) old_acc wrapped s

-- `_conditional_subtract`: one step of a division.
unfoldable pub conditional_subtract : ℕ → State → State
conditional_subtract data_word s =
    let old_acc = bit_and s.acc 0xFFFF_FFFF in
    let operand = bit_and (bit_and data_word 0xFFFF * 2 ^ 15) 0xFFFF_FFFF in
    let intermediate = mask_ℤ 32 (sub_ℕ old_acc operand) in
    let overflow =
      bit_and (bit_and (bit_xor old_acc operand) (bit_xor old_acc intermediate)) 0x8000_0000 in
    let flagged = if not (overflow == 0) then set_ov s else s in
    record flagged {
      acc =
          if not (bit_and intermediate 0x8000_0000 == 0)
          then bit_and (old_acc * 2 ^ 1) 0xFFFF_FFFF
          else bit_and (bit_or (intermediate * 2 ^ 1) 1) 0xFFFF_FFFF;
    }

-- `_accumulator_branch_taken`. The last error of the source is ruled out by the type.
unfoldable pub accumulator_branch_taken : AccumulatorBranch → ℕ → Bool
accumulator_branch_taken mnemonic accumulator =
    let value = bit_and accumulator 0xFFFF_FFFF in
    let negative = not (bit_and value 0x8000_0000 == 0) in
    let is_zero = value == 0 in
    elim mnemonic [
      | AccumulatorBranch.bgez ↦ not negative
      | AccumulatorBranch.bgz ↦ not negative && not is_zero
      | AccumulatorBranch.blez ↦ negative || is_zero
      | AccumulatorBranch.blz ↦ negative
      | AccumulatorBranch.bnz ↦ not is_zero
      | AccumulatorBranch.bz ↦ is_zero
    ]

-- `(signed_word << shift) & ACC_MASK`, of `LAC`, `ADD` and `SUB`.
unfoldable pub shifted_operand : ℕ → ℕ → ℕ
unfolding ◌*ℤ◌
shifted_operand data_word shift = mask_ℤ 32 (signed16 data_word *ℤ pos (2 ^ shift))

-- The product of `MPY`, with its one exception.
unfoldable pub multiply : ℕ → ℕ → ℕ
unfolding ◌*ℤ◌
multiply t data_word =
    if t == 0x8000 && data_word == 0x8000
    then 0xC000_0000
    else mask_ℤ 32 (signed16 t *ℤ signed16 data_word)

-- The product of `MPYK`.
unfoldable pub multiply_constant : ℕ → ℤ → ℕ
unfolding ◌*ℤ◌
multiply_constant t constant = mask_ℤ 32 (signed16 t *ℤ constant)

-- `ABS`.
unfoldable pub absolute_accumulator : State → State
absolute_accumulator s =
    if not (bit_and s.acc 0x8000_0000 == 0)
    then if s.acc == 0x8000_0000 && s.status.ovm
      then record s { acc = 0x7FFF_FFFF }
      else record s { acc = mask_ℤ 32 (sub_ℕ 0 s.acc) }
    else s
