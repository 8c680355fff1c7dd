-- ===== src/Alu/Signed.antt =====
-- The accumulator operations against arithmetic on the integers that the words stand for.
use tms32010_sv.Base.{
  ℕ, ◌+◌, ◌%◌, ◌^◌, ◌<◌, bit_and, bit_xor, ◌≡◌, arith, Bool, false, not, ltb, ◌==◌, if◌then◌else◌,
}
use tms32010_sv.Base.Int.{ℤ, pos, negsuc, ◌+ℤ◌, ◌-ℤ◌, sub_ℕ, mask_ℤ, signed32}
use tms32010_sv.Machine.{State}
use tms32010_sv.Alu.{set_ov, settle, add_accumulator, subtract_accumulator, and_not}
use tms32010_sv.Alu.Words.{mask_acc, mask_acc_id, sign_bit, add_overflow, subtract_overflow}

-- Whether an integer fits 32 bits in two's complement.
abbrev pub fits32 : ℤ → Bool
fits32 (pos n) = ltb n 0x8000_0000
fits32 (negsuc n) = ltb n 0x8000_0000

-- The largest and the least accumulator, by the sign of the true result.
abbrev pub saturated : ℤ → ℕ
saturated (pos n) = 0x7FFF_FFFF
saturated (negsuc n) = 0x8000_0000

-- The specification of an accumulator operation whose true result is `x`: a result that fits is
-- stored; one that does not sets OV, and is stored saturated in OVM and wrapped otherwise.
abbrev pub accumulate : ℤ → State → State
accumulate x s =
    if fits32 x
    then record s { acc = mask_ℤ 32 x }
    else record (set_ov s) { acc = if s.status.ovm then saturated x else mask_ℤ 32 x }

-- What `settle` is handed: whether the true result fits, and where it does not, its sign.
record Settles (x : ℤ) (overflow : Bool) (old_acc wrapped : ℕ) : Type 0 where
  flag : overflow ≡ not (fits32 x)
  wraps : wrapped ≡ mask_ℤ 32 x
  sign :
      fits32 x ≡ false
      → (if bit_and old_acc 0x8000_0000 == 0 then 0x7FFF_FFFF else 0x8000_0000) ≡ saturated x

settle-accumulate :
    (x : ℤ) (overflow : Bool) (old_acc wrapped : ℕ) (s : State)
    → Settles x overflow old_acc wrapped
    → settle overflow old_acc wrapped s ≡ accumulate x s
unfolding settle
settle-accumulate x overflow old_acc wrapped s h = ground arith

sum_Settles :
    (a c : ℕ)
    → a < 2 ^ 32
    → c < 2 ^ 32
    → Settles
        (signed32 a +ℤ signed32 c)
        (not (bit_and (and_not (bit_xor a c) (bit_xor a ((a + c) % 2 ^ 32))) 0x8000_0000 == 0))
        a
        ((a + c) % 2 ^ 32)
unfolding ◌+ℤ◌
sum_Settles a c ha hc = record {
  flag = ground (arith, add_overflow a c ((a + c) % 2 ^ 32));
  wraps = ground arith;
  sign = ground (arith, sign_bit a);
}

difference_Settles :
    (a c : ℕ)
    → a < 2 ^ 32
    → c < 2 ^ 32
    → Settles
        (signed32 a -ℤ signed32 c)
        (not (bit_and (bit_and (bit_xor a c) (bit_xor a (mask_ℤ 32 (sub_ℕ a c)))) 0x8000_0000 == 0))
        a
        (mask_ℤ 32 (sub_ℕ a c))
unfolding ◌-ℤ◌
difference_Settles a c ha hc = record {
  flag = ground (arith, subtract_overflow a c (mask_ℤ 32 (sub_ℕ a c)));
  wraps = ground arith;
  sign = ground (arith, sign_bit a);
}

-- For an accumulator and an addend of 32 bits, `_add_accumulator` stores their signed sum when it
-- fits 32 bits; otherwise it sets OV and stores the sum saturated (OVM set) or wrapped (OVM clear).
pub add_accumulator-accumulate :
    (addend : ℕ) (s : State)
    → s.acc < 2 ^ 32
    → addend < 2 ^ 32
    → add_accumulator addend s ≡ accumulate (signed32 s.acc +ℤ signed32 addend) s
unfolding add_accumulator
add_accumulator-accumulate addend s ha hc =
    rw (mask_acc_id s.acc ha, mask_acc_id addend hc, mask_acc (s.acc + addend))
      (settle-accumulate _ _ _ _ s (sum_Settles s.acc addend ha hc))

-- For an accumulator and a subtrahend of 32 bits, `_subtract_accumulator` stores their signed
-- difference when it fits 32 bits; otherwise it sets OV and stores the difference saturated (OVM set)
-- or wrapped (OVM clear).
pub subtract_accumulator-accumulate :
    (subtrahend : ℕ) (s : State)
    → s.acc < 2 ^ 32
    → subtrahend < 2 ^ 32
    → subtract_accumulator subtrahend s ≡ accumulate (signed32 s.acc -ℤ signed32 subtrahend) s
unfolding subtract_accumulator
subtract_accumulator-accumulate subtrahend s ha hc =
    rw (mask_acc_id s.acc ha, mask_acc_id subtrahend hc)
      (settle-accumulate _ _ _ _ s (difference_Settles s.acc subtrahend ha hc))
