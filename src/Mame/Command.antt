-- ===== src/Mame/Command.antt =====
-- tools/reference/mame_trace.py: `debugger_trace_command`.
use Prim.Native.String.{String}
use tms32010_sv.Base.{
  ℕ, Bool, true, false, not, ◌&&◌, ◌||◌, [], ◌∷◌, ◌++◌, leb, ◌==◌, if◌then◌else◌,
}
use tms32010_sv.Base.Text.{Text, codes, is_empty}
use tms32010_sv.Database.{Checked, ok, failed}

-- The `ValueError`s.
pub data CommandError : Type 0 where
  unsafe_file unsafe_tag : CommandError

abbrev is_letter_or_digit : ℕ → Bool
is_letter_or_digit c = (leb 65 c && leb c 90) || (leb 97 c && leb c 122) || (leb 48 c && leb c 57)

-- `[A-Za-z0-9_./+-]` and `[A-Za-z0-9_.:-]`.
abbrev is_file_code : ℕ → Bool
is_file_code c = is_letter_or_digit c || c == 95 || (leb 45 c && leb c 47) || c == 43

abbrev is_tag_code : ℕ → Bool
is_tag_code c = is_letter_or_digit c || c == 95 || c == 46 || c == 58 || c == 45

unfoldable pub all_codes : (ℕ → Bool) → Text → Bool
all_codes test [] = true
all_codes test (c ∷ text) = elim (test c) [ true ↦ all_codes test text | false ↦ false ]

abbrev pub is_safe_file : Text → Bool
is_safe_file text = not (is_empty text) && all_codes is_file_code text

abbrev pub is_safe_tag : Text → Bool
is_safe_tag [] = false
is_safe_tag (c ∷ text) = c == 58 && (not (is_empty text) && all_codes is_tag_code text)

abbrev trace_fields : String
trace_fields =
    "TMS32010_STATE PC=%04X ACC=%08X P=%08X T=%04X AR0=%04X AR1=%04X STR=%04X STK0=%04X STK1=%04X STK2=%04X STK3=%04X "

unfoldable pub debugger_trace_command : Text → Text → Checked CommandError Text
unfolding all_codes
debugger_trace_command trace_file device_tag =
    if not (is_safe_file trace_file)
    then failed unsafe_file
    else if not (is_safe_tag device_tag)
    then failed unsafe_tag
    else ok (
        codes "trace "
        ++ trace_file
        ++ codes ","
        ++ device_tag
        ++ codes ",noloop,{tracelog \""
        ++ codes trace_fields
        ++ codes "\",PC,ACC,P,T,AR0,AR1,STR,STK0,STK1,STK2,STK3}")
