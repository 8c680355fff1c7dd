-- ===== src/Base/Bits.antt =====
-- The native `bit_and`, `bit_or` and `bit_xor` at variables: the laws for the lowest digit, for
-- shifts, for masks and for single bits.
use Prim.Native.Nat.{
  ℕ, zero, suc, ◌+◌, ◌*◌, ◌/◌, ◌%◌, ◌^◌, ◌≤◌, ◌<◌, min, max, differ, digits, bit_and, bit_or,
  bit_xor, bit_and-bitwise, bit_or-bitwise, bit_xor-bitwise,
}
use mathlib.Core.Path.{◌≡◌, refl, sym, ap, ◌∙◌}
use native.Mathlib.Omega.{arith}
use native.Mathlib.Nat.{pow-suc, one-le-pow, div-div-eq-div-mul}

-- The digit recursion gives the same for all fuels that are enough.
module _ (z : ℕ → ℕ) (f : ℕ → ℕ → ℕ) where
  digits_agree : (n k a b : ℕ) → a ≤ n → a ≤ k → digits z f n a b ≡ digits z f k a b
  digits_agree zero zero a b h g = refl
  digits_agree zero (suc k) zero b h g = refl
  digits_agree zero (suc k) (suc a) b h g = elim h [ ]
  digits_agree (suc n) zero zero b h g = refl
  digits_agree (suc n) zero (suc a) b h g = elim g [ ]
  digits_agree (suc n) (suc k) zero b h g = refl
  digits_agree (suc n) (suc k) (suc a) b h g =
      let smaller : suc a / 2 ≤ a = omega arith in
      rw (digits_agree n k (suc a / 2) (b / 2) (omega arith) (omega arith))

  digits_last :
      (a b : ℕ)
      → digits z f (suc a) (suc a) b
        ≡ digits z f (suc a / 2) (suc a / 2) (b / 2) * 2 + f (suc a % 2) (b % 2)
  digits_last a b = omega (arith, digits_agree a (suc a / 2) (suc a / 2) (b / 2))

pub bit_and_last : (a b : ℕ) → bit_and a b ≡ bit_and (a / 2) (b / 2) * 2 + min (a % 2) (b % 2)
bit_and_last zero b = simp bit_and-bitwise (omega arith)
bit_and_last (suc a) b = simp bit_and-bitwise (digits_last (λ y. 0) min a b)

pub bit_or_last : (a b : ℕ) → bit_or a b ≡ bit_or (a / 2) (b / 2) * 2 + max (a % 2) (b % 2)
bit_or_last zero b = simp bit_or-bitwise (omega arith)
bit_or_last (suc a) b = simp bit_or-bitwise (digits_last (λ y. y) max a b)

differ_digits : (a b : ℕ) → a < 2 → b < 2 → differ a b ≡ (a + b) % 2
differ_digits zero b ha hb = omega arith
differ_digits (suc zero) zero ha hb = refl
differ_digits (suc zero) (suc zero) ha hb = refl
differ_digits (suc zero) (suc (suc b)) ha hb = absurd (omega arith)
differ_digits (suc (suc a)) b ha hb = absurd (omega arith)

pub bit_xor_last : (a b : ℕ) → bit_xor a b ≡ bit_xor (a / 2) (b / 2) * 2 + (a + b) % 2
bit_xor_last zero b = simp bit_xor-bitwise (omega arith)
bit_xor_last (suc a) b =
    simp bit_xor-bitwise
      (omega (arith, digits_last (λ y. y) differ a b, differ_digits (suc a % 2) (b % 2)))

-- Shifting right by one more place.
shift_suc : (k a : ℕ) → a / 2 ^ suc k ≡ a / 2 ^ k / 2
shift_suc k a = ap (λ (t : ℕ). a / t) (pow-suc 2 k) ∙ sym (div-div-eq-div-mul a (2 ^ k) 2)

div-zero_of_lt : (k a : ℕ) → a < 2 ^ k → a / 2 ^ k ≡ 0
div-zero_of_lt k a h = grind (arith, one-le-pow k 2)

lt_of_div-zero : (k a : ℕ) → a / 2 ^ k ≡ 0 → a < 2 ^ k
lt_of_div-zero k a h = grind (arith, one-le-pow k 2)

-- An operation that works digit by digit commutes with shifts, and keeps within a width.
module _ (op : ℕ → ℕ → ℕ) (half : (a b : ℕ) → op a b / 2 ≡ op (a / 2) (b / 2))
    (none_set : op 0 0 ≡ 0) where
  digitwise-shift : (k a b : ℕ) → op a b / 2 ^ k ≡ op (a / 2 ^ k) (b / 2 ^ k)
  digitwise-shift zero a b = ground arith
  digitwise-shift (suc k) a b =
      rw (shift_suc k (op a b), shift_suc k a, shift_suc k b, digitwise-shift k, half)

  digitwise-lt : (k a b : ℕ) → a < 2 ^ k → b < 2 ^ k → op a b < 2 ^ k
  digitwise-lt k a b ha hb =
      lt_of_div-zero k (op a b)
        (rw (digitwise-shift k, div-zero_of_lt k a ha, div-zero_of_lt k b hb) none_set)

pub bit_and-half : (a b : ℕ) → bit_and a b / 2 ≡ bit_and (a / 2) (b / 2)
bit_and-half a b = omega (arith, bit_and_last a b)

pub bit_or-half : (a b : ℕ) → bit_or a b / 2 ≡ bit_or (a / 2) (b / 2)
bit_or-half a b = omega (arith, bit_or_last a b)

bit_xor-half : (a b : ℕ) → bit_xor a b / 2 ≡ bit_xor (a / 2) (b / 2)
bit_xor-half a b = omega (arith, bit_xor_last a b)

pub bit_and-lt : (k a b : ℕ) → a < 2 ^ k → b < 2 ^ k → bit_and a b < 2 ^ k
bit_and-lt = digitwise-lt bit_and bit_and-half refl

pub bit_or-lt : (k a b : ℕ) → a < 2 ^ k → b < 2 ^ k → bit_or a b < 2 ^ k
bit_or-lt = digitwise-lt bit_or bit_or-half refl

pub bit_xor-lt : (k a b : ℕ) → a < 2 ^ k → b < 2 ^ k → bit_xor a b < 2 ^ k
bit_xor-lt = digitwise-lt bit_xor bit_xor-half refl

pub bit_and-shift : (k a b : ℕ) → bit_and a b / 2 ^ k ≡ bit_and (a / 2 ^ k) (b / 2 ^ k)
bit_and-shift = digitwise-shift bit_and bit_and-half refl

-- The binary digit of `a` at place `k`.
abbrev pub bit : ℕ → ℕ → ℕ
bit k a = a / 2 ^ k % 2

pub bit-bit_and : (k a b : ℕ) → bit k (bit_and a b) ≡ min (bit k a) (bit k b)
bit-bit_and k a b =
    omega
      (arith, digitwise-shift bit_and bit_and-half refl k a b, bit_and_last (a / 2 ^ k) (b / 2 ^ k))

pub bit-bit_or : (k a b : ℕ) → bit k (bit_or a b) ≡ max (bit k a) (bit k b)
bit-bit_or k a b =
    omega
      (arith, digitwise-shift bit_or bit_or-half refl k a b, bit_or_last (a / 2 ^ k) (b / 2 ^ k))

pub bit-bit_xor : (k a b : ℕ) → bit k (bit_xor a b) ≡ (bit k a + bit k b) % 2
bit-bit_xor k a b =
    omega
      (arith, digitwise-shift bit_xor bit_xor-half refl k a b, bit_xor_last (a / 2 ^ k) (b / 2 ^ k))
