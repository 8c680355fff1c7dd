-- ===== src/Base/Covers.antt =====
-- Two masks together, and the mask of the bits that another lacks.
use Prim.Native.Nat.{ℕ, zero, suc, ◌-◌, ◌/◌, ◌^◌, ◌≤◌, ◌<◌, bit_and, bit_or, bit_and-bitwise}
use mathlib.Core.Path.{◌≡◌, refl}
use native.Mathlib.Omega.{arith}
use native.Mathlib.Nat.{pow-suc, one-le-pow}
use tms32010_sv.Base.Bits.{bit_and_last, bit_or_last, bit_and-half, bit_or-half}

zero_bit_and : (a : ℕ) → bit_and 0 a ≡ 0
zero_bit_and a = simp bit_and-bitwise refl

-- `&` over `|`.
bit_and-bit_or_upto :
    (n w a b : ℕ) → w ≤ n → bit_and w (bit_or a b) ≡ bit_or (bit_and w a) (bit_and w b)
bit_and-bit_or_upto zero zero a b h =
    rw (zero_bit_and (bit_or a b), zero_bit_and a, zero_bit_and b) refl
bit_and-bit_or_upto zero (suc w) a b h = elim h [ ]
bit_and-bit_or_upto (suc n) w a b h =
    let left = rw (bit_or-half a b) at (bit_and_last w (bit_or a b)) in
    let right =
      rw (bit_and-half w a, bit_and-half w b) at (bit_or_last (bit_and w a) (bit_and w b)) in
    omega (
      arith,
      left,
      right,
      bit_or_last a b,
      bit_and_last w a,
      bit_and_last w b,
      bit_and-bit_or_upto n (w / 2) (a / 2) (b / 2) (omega arith),
    )

pub bit_and-bit_or : (w a b : ℕ) → bit_and w (bit_or a b) ≡ bit_or (bit_and w a) (bit_and w b)
bit_and-bit_or w a b = bit_and-bit_or_upto w w a b (omega arith)

half_rest : (k a : ℕ) → a < 2 ^ suc k → (2 ^ suc k - 1 - a) / 2 ≡ 2 ^ k - 1 - a / 2
half_rest k a h = omega (arith, pow-suc 2 k)

pub bit_or-rest : (k a : ℕ) → a < 2 ^ k → bit_or a (2 ^ k - 1 - a) ≡ 2 ^ k - 1
bit_or-rest zero zero h = refl
bit_or-rest zero (suc a) h = absurd (omega arith)
bit_or-rest (suc k) a h =
    let last = rw (half_rest k a h) at (bit_or_last a (2 ^ suc k - 1 - a)) in
    omega
      (arith, pow-suc 2 k, one-le-pow k 2, last, bit_or-rest k (a / 2) (omega (arith, pow-suc 2 k)))
