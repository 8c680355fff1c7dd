-- ===== src/Tests/Dac.antt =====
-- The codes of an output word.
use tms32010_sv.Base.{ℕ, ◌%◌, ◌≡◌, refl, arith}
use tms32010_sv.Base.Int.{ℤ, pos, negsuc, signed16, ◌+ℤ◌, ◌-ℤ◌, ◌*ℤ◌}
use tms32010_sv.Base.Text.{codes}
use tms32010_sv.Database.{ok, failed}
use tms32010_sv.Database.Chains.{◌>>=◌}
use tms32010_sv.Dac.{raw_dac_code, mame_dac_code, signed_12bit}
use tms32010_sv.Dac.Codes.{signed_12bit-raw_dac_code}
use tms32010_sv.Mame.Command.{debugger_trace_command, unsafe_tag}

signed_12bit-raw_dac_code_example :
    (raw : ℕ) × (mame : ℕ) × (signed : ℤ) × (raw_dac_code (pos 0xFFF5) ≡ ok raw)
    × (mame_dac_code (pos 0xFFF5) ≡ ok mame)
    × (signed_12bit (pos raw) ≡ ok signed)
    × (signed ≡ pos mame -ℤ pos 0x0800)
    × (signed16 0xFFF5 ≡ signed *ℤ pos 16 +ℤ pos (0xFFF5 % 16))
signed_12bit-raw_dac_code_example = signed_12bit-raw_dac_code 0xFFF5 (omega arith)

lowest_code : signed_12bit (pos 0x0800) ≡ ok (negsuc 2047)
unfolding signed_12bit ◌>>=◌
lowest_code = refl

bad_tag : debugger_trace_command (codes "trace.log") (codes "sounddsp") ≡ failed unsafe_tag
unfolding debugger_trace_command
bad_tag = refl
