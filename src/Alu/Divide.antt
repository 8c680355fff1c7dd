-- ===== src/Alu/Divide.antt =====
-- `_conditional_subtract`, the step of `SUBC`, sixteen times.
use tms32010_sv.Base.{
  ℕ, zero, suc, ◌+◌, ◌-◌, ◌*◌, ◌/◌, ◌%◌, ◌^◌, ◌≤◌, ◌<◌, bit_or, ◌≡◌, refl, ◌∙◌, ap, arith, leb,
  if◌then◌else◌,
}
use tms32010_sv.Base.Int.{mask_ℤ, sub_ℕ}
use tms32010_sv.Base.Masks.{bit_or-fields}
use tms32010_sv.Machine.{State}
use tms32010_sv.Alu.{conditional_subtract}
use tms32010_sv.Alu.Words.{mask_acc, mask_acc_id, mask_word_id, sign_bit, subtract_overflow}
use native.Mathlib.Nat.{pow-succ', div-eq_of_lt-le, mod-eq-sub-div-mul}

-- The accumulator after one step, for an accumulator below `2 ^ 31`.
abbrev shift_in : ℕ → ℕ → ℕ
shift_in d acc = if leb (d * 2 ^ 15) acc then 2 * (acc - d * 2 ^ 15) + 1 else 2 * acc

-- One step on an accumulator below `2 ^ 31` compares it with the divisor shifted by 15, shifts the
-- quotient's digit in, and changes nothing else.
conditional_subtract-shift_in :
    (d : ℕ) (s : State)
    → s.acc < 2 ^ 31
    → d < 2 ^ 16
    → conditional_subtract d s ≡ record s { acc = shift_in d s.acc }
unfolding conditional_subtract
conditional_subtract-shift_in d s ha hd =
    rw (mask_acc_id s.acc (omega arith), mask_word_id d hd, mask_acc_id (d * 2 ^ 15) (omega arith))
      (ground (
        arith,
        sign_bit (mask_ℤ 32 (sub_ℕ s.acc (d * 2 ^ 15))),
        subtract_overflow s.acc (d * 2 ^ 15) (mask_ℤ 32 (sub_ℕ s.acc (d * 2 ^ 15))),
        mask_acc (s.acc * 2 ^ 1),
        bit_or-fields 1 (mask_ℤ 32 (sub_ℕ s.acc (d * 2 ^ 15))) 1,
        mask_acc (bit_or (mask_ℤ 32 (sub_ℕ s.acc (d * 2 ^ 15)) * 2 ^ 1) 1),
      ))

-- `n` times `SUBC` with one divisor.
unfoldable pub subc_times : ℕ → ℕ → State → State
subc_times zero d s = s
subc_times (suc n) d s = conditional_subtract d (subc_times n d s)

-- The quotient digits after `n` steps.
digits_of : ℕ → ℕ → ℕ → ℕ × ℕ
digits_of zero d acc = (acc, 0)
digits_of (suc n) d acc =
    let (a, q) = digits_of n d acc in (shift_in d a, 2 * q + (if leb (d * 2 ^ 15) a then 1 else 0))

-- One digit keeps the dividend: `a` is what is left, `q` the digits so far, `w` their weight.
digit_step :
    (d a q w acc : ℕ)
    → a < d * 2 ^ 16
    → q < w
    → a + q * d * 2 ^ 16 ≡ w * acc + q
    → let q' = 2 * q + (if leb (d * 2 ^ 15) a then 1 else 0) in
      (shift_in d a < d * 2 ^ 16)
      × (q' < 2 * w)
      × (shift_in d a + q' * d * 2 ^ 16 ≡ 2 * w * acc + q')
digit_step d a q w acc h small keep = ground arith

-- The accumulator and the digits keep the dividend: the loop invariant.
abbrev IsDivision : ℕ → ℕ → ℕ → ℕ × ℕ → Type 0
IsDivision d acc w r = (r.0 < d * 2 ^ 16) × (r.1 < w) × (r.0 + r.1 * d * 2 ^ 16 ≡ w * acc + r.1)

digits_of-IsDivision :
    (n d acc : ℕ) → acc < d * 2 ^ 16 → IsDivision d acc (2 ^ n) (digits_of n d acc)
unfolding digits_of
digits_of-IsDivision zero d acc h = (h, omega arith, omega arith)
digits_of-IsDivision (suc n) d acc h =
    let (bound, small, keep) = digits_of-IsDivision n d acc h in
    rw (pow-succ' 2 n)
      (digit_step d (digits_of n d acc).0 (digits_of n d acc).1 (2 ^ n) acc bound small keep)

subc_times-digits_of :
    (n d : ℕ) (s : State)
    → d ≤ 2 ^ 15
    → s.acc < d * 2 ^ 16
    → subc_times n d s ≡ record s { acc = (digits_of n d s.acc).0 }
unfolding digits_of subc_times
subc_times-digits_of zero d s hd h = refl
subc_times-digits_of (suc n) d s hd h =
    let bound = (digits_of-IsDivision n d s.acc h).0 in
    rw (subc_times-digits_of n d s hd h) (
      conditional_subtract-shift_in d (record s { acc = (digits_of n d s.acc).0 }) (omega arith)
        (omega arith))

-- What is left and the digits, after as many steps as the weight has places.
IsDivision-eq :
    (d acc : ℕ) (r : ℕ × ℕ) → 0 < d → IsDivision d acc (2 ^ 16) r → r.0 ≡ acc % d * 2 ^ 16 + acc / d
IsDivision-eq d acc r pos (bound, small, keep) =
    let quotient : acc / d ≡ r.1 = div-eq_of_lt-le {k = r.1} d (omega arith) (omega arith) in
    omega (arith, quotient, ap (λ (t : ℕ). t * d) quotient, mod-eq-sub-div-mul acc d)

-- Sixteen `SUBC` steps divide: for a divisor from 1 to `2 ^ 15` and an accumulator whose quotient fits
-- 16 bits, they leave the remainder in the high half of the accumulator and the quotient in the low
-- half, and change nothing else (OV included).
pub subc_times_divides :
    (d : ℕ) (s : State)
    → 0 < d
    → d ≤ 2 ^ 15
    → s.acc < d * 2 ^ 16
    → subc_times 16 d s ≡ record s { acc = s.acc % d * 2 ^ 16 + s.acc / d }
subc_times_divides d s pos hd h =
    subc_times-digits_of 16 d s hd h
    ∙ ap (λ (a : ℕ). record s { acc = a })
        (IsDivision-eq d s.acc (digits_of 16 d s.acc) pos (digits_of-IsDivision 16 d s.acc h))
