-- ===== src/Alu/Words.antt =====
-- The masks and the overflow expressions of the accumulator operations, as arithmetic.
use Prim.Native.Nat.{min}
use tms32010_sv.Base.{ℕ, ◌+◌, ◌-◌, ◌*◌, ◌%◌, ◌^◌, ◌<◌, bit_and, bit_xor, ◌≡◌, arith}
use tms32010_sv.Base.Bits.{bit, bit-bit_and, bit-bit_xor}
use tms32010_sv.Base.Masks.{bit_and-low, bit_and-bit}
use tms32010_sv.Alu.{and_not}

pub mask_acc : (a : ℕ) → bit_and a 0xFFFF_FFFF ≡ a % 2 ^ 32
mask_acc a = bit_and-low 32 a

pub mask_acc_id : (a : ℕ) → a < 2 ^ 32 → bit_and a 0xFFFF_FFFF ≡ a
mask_acc_id a h = omega (arith, mask_acc a)

pub mask_word : (a : ℕ) → bit_and a 0xFFFF ≡ a % 2 ^ 16
mask_word a = bit_and-low 16 a

pub mask_word_id : (a : ℕ) → a < 2 ^ 16 → bit_and a 0xFFFF ≡ a
mask_word_id a h = omega (arith, mask_word a)

-- The sign bit of a 32-bit word.
pub sign_bit : (a : ℕ) → bit_and a 0x8000_0000 ≡ bit 31 a * 0x8000_0000
sign_bit a = bit_and-bit 31 a

-- `~(a ^ b) & (a ^ c)` at the sign: `a` and `b` agree, and `c` does not.
pub add_overflow :
    (a b c : ℕ)
    → bit_and (and_not (bit_xor a b) (bit_xor a c)) 0x8000_0000
      ≡ min ((bit 31 a + bit 31 c) % 2) (1 - (bit 31 a + bit 31 b) % 2) * 0x8000_0000
unfolding and_not
add_overflow a b c = omega (
  arith,
  sign_bit (bit_xor (bit_xor a c) (bit_and (bit_xor a b) (bit_xor a c))),
  bit-bit_xor 31 (bit_xor a c) (bit_and (bit_xor a b) (bit_xor a c)),
  bit-bit_and 31 (bit_xor a b) (bit_xor a c),
  bit-bit_xor 31 a b,
  bit-bit_xor 31 a c,
)

-- `(a ^ b) & (a ^ c)` at the sign: `a` differs from both.
pub subtract_overflow :
    (a b c : ℕ)
    → bit_and (bit_and (bit_xor a b) (bit_xor a c)) 0x8000_0000
      ≡ min ((bit 31 a + bit 31 c) % 2) ((bit 31 a + bit 31 b) % 2) * 0x8000_0000
subtract_overflow a b c = omega (
  arith,
  sign_bit (bit_and (bit_xor a b) (bit_xor a c)),
  bit-bit_and 31 (bit_xor a b) (bit_xor a c),
  bit-bit_xor 31 a b,
  bit-bit_xor 31 a c,
)
