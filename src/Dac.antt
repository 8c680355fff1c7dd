-- ===== src/Dac.antt =====
-- tools/trace/hard_drivin_dac_codes.py: the codes of an output word.
pub mod Codes
use Prim.Native.String.{String}
use tms32010_sv.Base.{ℕ, ◌/◌, ◌^◌, bit_and, bit_xor, leb, ◌==◌, if◌then◌else◌}
use tms32010_sv.Base.Int.{ℤ, pos, negsuc, sub_ℕ}
use tms32010_sv.Database.{Checked, ok, failed}
use tms32010_sv.Database.Chains.{◌>>=◌}

-- The `ValueError` of a value that is not from 0 to a maximum.
pub data RangeError : Type 0 where
  out_of_range : String → ℕ → RangeError

-- `_require_range`.
unfoldable pub require_range : ℤ → ℕ → String → Checked RangeError ℕ
require_range (pos n) maximum name =
    if leb n maximum then ok n else failed (out_of_range name maximum)
require_range (negsuc n) maximum name = failed (out_of_range name maximum)

unfoldable pub raw_dac_code : ℤ → Checked RangeError ℕ
unfolding require_range
raw_dac_code word = require_range word 0xFFFF "word" >>= λ w. ok (w / 2 ^ 4)

unfoldable pub mame_dac_code : ℤ → Checked RangeError ℕ
unfolding raw_dac_code
mame_dac_code word = raw_dac_code word >>= λ raw. ok (bit_xor raw 0x0800)

unfoldable pub signed_12bit : ℤ → Checked RangeError ℤ
unfolding require_range
signed_12bit code = require_range code 0x0FFF "code" >>= λ c.
    ok (if bit_and c 0x0800 == 0 then pos c else sub_ℕ c 0x1000)
