-- ===== src/Alu/Counter.antt =====
-- `_modify_counter`: the circular count of nine bits.
use tms32010_sv.Base.{ℕ, ◌+◌, ◌*◌, ◌/◌, ◌%◌, ◌^◌, ◌<◌, ◌≡◌, arith, bit_and}
use tms32010_sv.Base.Int.{ℤ, pos, negsuc, ◌+ℤ◌, mask_ℤ}
use tms32010_sv.Base.Masks.{bit_and-low, bit_and-high, bit_or-fields}
use tms32010_sv.Alu.{modify_counter}

-- The mask of the seven bits above the counter.
counter_page : (v : ℕ) → v < 2 ^ 16 → bit_and v 0xFE00 ≡ v / 512 * 2 ^ 9
counter_page v h = omega (arith, bit_and-high 9 v 127, bit_and-low 7 (v / 2 ^ 9))

-- The counter field after a count, one up and one down.
count_up : (v : ℕ) → mask_ℤ 9 (pos v +ℤ pos 1) ≡ (v % 512 + 1) % 512
unfolding ◌+ℤ◌
count_up v = ground arith

count_down : (v : ℕ) → mask_ℤ 9 (pos v +ℤ negsuc 0) ≡ (v % 512 + 511) % 512
unfolding ◌+ℤ◌
count_down v = ground arith

modify_counter_fields :
    (v : ℕ) (delta : ℤ) (count : ℕ)
    → v < 2 ^ 16
    → mask_ℤ 9 (pos v +ℤ delta) ≡ count
    → count < 512
    → modify_counter v delta ≡ v / 512 * 512 + count
unfolding modify_counter
modify_counter_fields v delta count h e fits =
    rw (counter_page v h, e) (bit_or-fields 9 (v / 512) count fits)

-- For a register of 16 bits, counting up and down works on AR[8:0] modulo 512 and keeps AR[15:9].
pub modify_counter_lem :
    (v : ℕ)
    → v < 2 ^ 16
    → (modify_counter v (pos 1) ≡ v / 512 * 512 + (v % 512 + 1) % 512)
      × (modify_counter v (negsuc 0) ≡ v / 512 * 512 + (v % 512 + 511) % 512)
modify_counter_lem v h = (
  modify_counter_fields v (pos 1) _ h (count_up v) (omega arith),
  modify_counter_fields v (negsuc 0) _ h (count_down v) (omega arith),
)
