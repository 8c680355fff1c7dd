-- ===== src/Base/Masks.antt =====
-- `bit_and` with the masks that the program writes: low ones, ones above a place, one bit.
use Prim.Native.Nat.{ℕ, zero, suc, ◌+◌, ◌-◌, ◌*◌, ◌/◌, ◌%◌, ◌^◌, ◌≤◌, ◌<◌, bit_and, bit_or}
use mathlib.Core.Path.{◌≡◌, refl, sym, ap, ◌∙◌}
use native.Mathlib.Omega.{arith}
use native.Mathlib.Nat.{pow-suc, pow-succ', one-le-pow, div-div-eq-div-mul, div-add-mod'}
use tms32010_sv.Base.Bits.{bit, bit_and_last, bit_or_last}

bit_and-zero_upto : (n a : ℕ) → a ≤ n → bit_and a 0 ≡ 0
bit_and-zero_upto n zero h = refl
bit_and-zero_upto zero (suc a) h = elim h [ ]
bit_and-zero_upto (suc n) (suc a) h =
    omega (arith, bit_and_last (suc a) 0, bit_and-zero_upto n (suc a / 2) (omega arith))

pub bit_and-zero : (a : ℕ) → bit_and a 0 ≡ 0
bit_and-zero a = bit_and-zero_upto a a (omega arith)

bit_or-zero_upto : (n a : ℕ) → a ≤ n → bit_or a 0 ≡ a
bit_or-zero_upto n zero h = refl
bit_or-zero_upto zero (suc a) h = elim h [ ]
bit_or-zero_upto (suc n) (suc a) h =
    omega (arith, bit_or_last (suc a) 0, bit_or-zero_upto n (suc a / 2) (omega arith))

pub bit_or-zero : (a : ℕ) → bit_or a 0 ≡ a
bit_or-zero a = bit_or-zero_upto a a (omega arith)

double : (q k : ℕ) → q * 2 ^ suc k ≡ 2 * (q * 2 ^ k)
double q k = omega (arith, ap (λ (t : ℕ). q * t) (pow-suc 2 k))

-- Shifting right by one place first.
suc_shift : (k a : ℕ) → a / 2 ^ suc k ≡ a / 2 / 2 ^ k
suc_shift k a = ap (λ (t : ℕ). a / t) (pow-succ' 2 k) ∙ sym (div-div-eq-div-mul a 2 (2 ^ k))

mod_suc : (k a : ℕ) → a % 2 ^ suc k ≡ a / 2 % 2 ^ k * 2 + a % 2
mod_suc k a = omega (
  arith,
  div-add-mod' a (2 ^ suc k),
  div-add-mod' (a / 2) (2 ^ k),
  suc_shift k a,
  ap (λ (t : ℕ). t * 2 ^ suc k) (suc_shift k a),
  double (a / 2 / 2 ^ k) k,
)

-- `2 ^ k - 1` keeps the `k` low digits.
pub bit_and-low : (k a : ℕ) → bit_and a (2 ^ k - 1) ≡ a % 2 ^ k
bit_and-low zero a = omega (arith, bit_and-zero a)
bit_and-low (suc k) a = ground (
  arith,
  bit_and_last a (2 ^ suc k - 1),
  bit_and-low k (a / 2),
  mod_suc k a,
  pow-suc 2 k,
  one-le-pow k 2,
)

-- A mask that is a multiple of `2 ^ k` works on the digits from place `k` up.
pub bit_and-high : (k a c : ℕ) → bit_and a (c * 2 ^ k) ≡ bit_and (a / 2 ^ k) c * 2 ^ k
bit_and-high zero a c = ground arith
bit_and-high (suc k) a c = ground (
  arith,
  bit_and_last a (c * 2 ^ suc k),
  double c k,
  suc_shift k a,
  bit_and-high k (a / 2) c,
  double (bit_and (a / 2 / 2 ^ k) c) k,
)

-- A mask of one bit.
pub bit_and-bit : (k a : ℕ) → bit_and a (1 * 2 ^ k) ≡ bit k a * 2 ^ k
bit_and-bit k a = bit_and-high k a 1 ∙ ap (λ (t : ℕ). t * 2 ^ k) (bit_and-low 1 (a / 2 ^ k))

-- `|` of two fields that do not meet is a sum.
pub bit_or-fields : (k q r : ℕ) → r < 2 ^ k → bit_or (q * 2 ^ k) r ≡ q * 2 ^ k + r
bit_or-fields zero q r h = ground (arith, bit_or-zero q)
bit_or-fields (suc k) q r h =
    ground
      (arith, bit_or_last (q * 2 ^ suc k) r, double q k, pow-suc 2 k, bit_or-fields k q (r / 2))
