-- ===== src/Alu/Product.antt =====
-- `MPY`, `MPYK` and the shifted operands against the products of the integers that the words stand for.
use tms32010_sv.Base.{
  ℕ, suc, ◌-◌, ◌*◌, ◌^◌, ◌≤◌, ◌<◌, ◌≡◌, refl, arith, Bool, true, false, ◌&&◌, ◌==◌, if◌then◌else◌,
}
use tms32010_sv.Base.Int.{ℤ, pos, negsuc, ◌*ℤ◌, signed16, signed32, mask_ℤ, pos_part, neg_part}
use tms32010_sv.Alu.{multiply, multiply_constant}
use tms32010_sv.Alu.Signed.{fits32}

-- Wrapping loses nothing of an integer that fits.
pub signed32-mask_ℤ : (x : ℤ) → fits32 x ≡ true → signed32 (mask_ℤ 32 x) ≡ x
signed32-mask_ℤ (pos n) h = ground arith
signed32-mask_ℤ (negsuc n) h = ground arith

product_bound : (a b m k : ℕ) → a ≤ m → b ≤ k → a * b ≤ m * k
product_bound a b m k ha hb = grind arith

-- The product of two factors of at most 15 binary digits and a sign.
product_fits :
    (a b : ℤ)
    → pos_part a ≤ 0x7FFF
    → neg_part a ≤ 0x8000
    → pos_part b ≤ 0x7FFF
    → neg_part b ≤ 0x8000
    → fits32 (a *ℤ b) ≡ true
unfolding ◌*ℤ◌
product_fits (pos n) (pos k) p q r s = ground (arith, product_bound n k 0x7FFF 0x7FFF)
product_fits (pos n) (negsuc k) p q r s = ground (arith, product_bound n (suc k) 0x7FFF 0x8000)
product_fits (negsuc n) (pos k) p q r s = ground (arith, product_bound (suc n) k 0x8000 0x7FFF)
product_fits (negsuc n) (negsuc k) p q r s =
    ground (arith, product_bound (suc n) (suc k) 0x8000 0x8000)

signed16_bounds :
    (w : ℕ) → w < 2 ^ 16 → (pos_part (signed16 w) ≤ 0x7FFF) × (neg_part (signed16 w) ≤ 0x8000)
signed16_bounds w h = ground arith

-- With one exceptional product.
signed32_choice :
    (special : Bool) (x : ℤ)
    → fits32 x ≡ true
    → signed32 (if special then 0xC000_0000 else mask_ℤ 32 x)
      ≡ (if special then negsuc (2 ^ 30 - 1) else x)
signed32_choice true x h = refl
signed32_choice false x h = signed32-mask_ℤ x h

-- The P register after `MPY` of two words holds their signed product; but 0x8000 times 0x8000, which
-- is 2 ^ 30, gives -(2 ^ 30).
pub signed32-multiply :
    (t w : ℕ)
    → t < 2 ^ 16
    → w < 2 ^ 16
    → signed32 (multiply t w)
      ≡ (if t == 0x8000 && w == 0x8000 then negsuc (2 ^ 30 - 1) else signed16 t *ℤ signed16 w)
unfolding multiply
signed32-multiply t w ht hw =
    let (pt, nt) = signed16_bounds t ht in
    let (pw, nw) = signed16_bounds w hw in
    signed32_choice (t == 0x8000 && w == 0x8000) (signed16 t *ℤ signed16 w)
      (product_fits (signed16 t) (signed16 w) pt nt pw nw)

-- The P register after `MPYK` of a word and a signed constant of 13 bits holds their signed
-- product.
pub signed32-multiply_constant :
    (t : ℕ) (constant : ℤ)
    → t < 2 ^ 16
    → pos_part constant ≤ 4095
    → neg_part constant ≤ 4096
    → signed32 (multiply_constant t constant) ≡ signed16 t *ℤ constant
unfolding multiply_constant
signed32-multiply_constant t constant ht hp hn =
    let (p, n) = signed16_bounds t ht in
    signed32-mask_ℤ (signed16 t *ℤ constant)
      (product_fits (signed16 t) constant p n (omega arith) (omega arith))
