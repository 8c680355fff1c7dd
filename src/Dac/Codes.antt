-- ===== src/Dac/Codes.antt =====
-- tools/trace/hard_drivin_dac_codes.py: the three codes of a word against each other.
use tms32010_sv.Base.Cases.{both}
use tms32010_sv.Base.{
  ℕ, ◌/◌, ◌%◌, ◌^◌, ◌≤◌, bit_and, bit_xor, ◌≡◌, refl, arith, Bool, true, ◌&&◌, le→leb, ◌==◌,
  if◌then◌else◌,
}
use tms32010_sv.Base.Int.{ℤ, pos, sub_ℕ, signed16, ◌+ℤ◌, ◌-ℤ◌, ◌*ℤ◌}
use tms32010_sv.Database.{same_ℤ, ok}
use tms32010_sv.Database.Chains.{◌>>=◌}
use tms32010_sv.Database.Agreement.{same_ℤ-eq}
use tms32010_sv.Assembler.Ranges.{all_below, all_below-each}
use tms32010_sv.Dac.{require_range, raw_dac_code, mame_dac_code, signed_12bit}

abbrev signed_code : ℕ → ℤ
signed_code c = if bit_and c 0x0800 == 0 then pos c else sub_ℕ c 0x1000

abbrev codes_agree : ℕ → Bool
codes_agree word =
    same_ℤ (signed_code (word / 2 ^ 4)) (pos (bit_xor (word / 2 ^ 4) 0x0800) -ℤ pos 0x0800)
    && same_ℤ (signed16 word) (signed_code (word / 2 ^ 4) *ℤ pos 16 +ℤ pos (word % 16))

all_agree : all_below 0x1_0000 codes_agree ≡ true
unfolding all_below ◌+ℤ◌ ◌-ℤ◌ ◌*ℤ◌
all_agree = refl

-- For every word of 16 bits the three codes exist: the signed code is the mapper's code less 2048, and
-- sixteen times the signed code, with the low four bits of the word, is the signed value of the word.
pub signed_12bit-raw_dac_code :
    (word : ℕ)
    → word ≤ 0xFFFF
    → (raw : ℕ) × (mame : ℕ) × (signed : ℤ) × (raw_dac_code (pos word) ≡ ok raw)
      × (mame_dac_code (pos word) ≡ ok mame)
      × (signed_12bit (pos raw) ≡ ok signed)
      × (signed ≡ pos mame -ℤ pos 0x0800)
      × (signed16 word ≡ signed *ℤ pos 16 +ℤ pos (word % 16))
unfolding raw_dac_code mame_dac_code signed_12bit require_range ◌>>=◌
signed_12bit-raw_dac_code word fits =
    let parts =
      both _ _ (all_below-each 0x1_0000 codes_agree word all_agree (omega (arith, fits))) in
    (
      word / 2 ^ 4,
      bit_xor (word / 2 ^ 4) 0x0800,
      signed_code (word / 2 ^ 4),
      rw (le→leb word 0xFFFF fits) refl,
      rw (le→leb word 0xFFFF fits) refl,
      rw (le→leb (word / 2 ^ 4) 0x0FFF (omega (arith, fits))) refl,
      same_ℤ-eq _ _ parts.0,
      same_ℤ-eq _ _ parts.1,
    )
