-- ===== src/Assembler/Instruction.antt =====
-- tools/assembler/tms32010_as.py: `_encode`, over the classes of operations that it tells apart.
use Prim.Native.String.{String}
use tms32010_sv.Base.{
  ℕ, ◌*◌, ◌^◌, bit_or, Bool, ◌&&◌, ◌||◌, List, [], ◌∷◌, leb, ◌==◌, if◌then◌else◌,
}
use tms32010_sv.Base.Int.{ℤ, pos, negsuc, mask_ℤ}
use tms32010_sv.Base.Text.{Text, is, is_one_of, strip, upper}
use tms32010_sv.Database.{ok}
use tms32010_sv.Assembler.Source.{
  SourceLine, Reason, Asm, ◌>>=◌, error, constant_out_of_range, program_address_out_of_range,
  shift_out_of_range,
}
use tms32010_sv.Assembler.Expression.{Names, evaluate}
use tms32010_sv.Assembler.Encode.{
  Assembler, entry_of, validate_instruction_shape, operands_of, operand_at, within,
  auxiliary_register, io_port, encode_data_address,
}

-- TWO_WORD_CONTROL_FLOW.
abbrev pub two_word_operations : List String
two_word_operations =
    "B" ∷ "BANZ" ∷ "BGEZ" ∷ "BGZ" ∷ "BIOZ" ∷ "BLEZ" ∷ "BLZ" ∷ "BNZ" ∷ "BV" ∷ "BZ" ∷ "CALL" ∷ []

unfoldable pub is_two_word : Text → Bool
is_two_word operation = is_one_of operation two_word_operations

abbrev pub memory_operations : List String
memory_operations =
    "ADDH" ∷ "ADDS" ∷ "AND" ∷ "DMOV" ∷ "LDP" ∷ "LST" ∷ "LT" ∷ "LTA" ∷ "LTD" ∷ "MAR" ∷ "MPY" ∷ "OR"
    ∷ "SST" ∷ "SUBC" ∷ "SUBH" ∷ "SUBS" ∷ "TBLR" ∷ "TBLW" ∷ "XOR" ∷ "ZALH" ∷ "ZALS" ∷ []

-- The branches of `_encode`.
pub data Form : Type 0 where
  byte_constant target shifted unshifted high_shifted port memory register : Form
  register_constant one_bit product_constant no_field : Form

unfoldable pub form_of : Text → Form
unfolding is_two_word
form_of operation =
    if is operation "LACK"
    then Form.byte_constant
    else if is_two_word operation
    then Form.target
    else if is_one_of operation ("ADD" ∷ "LAC" ∷ "SUB" ∷ [])
    then Form.shifted
    else if is operation "SACL"
    then Form.unshifted
    else if is operation "SACH"
    then Form.high_shifted
    else if is_one_of operation ("IN" ∷ "OUT" ∷ [])
    then Form.port
    else if is_one_of operation memory_operations
    then Form.memory
    else if is_one_of operation ("LAR" ∷ "SAR" ∷ [])
    then Form.register
    else if is operation "LARK"
    then Form.register_constant
    else if is_one_of operation ("LARP" ∷ "LDPK" ∷ [])
    then Form.one_bit
    else if is operation "MPYK"
    then Form.product_constant
    else Form.no_field

-- `operands[1:]`.
abbrev pub tail : List Text → List Text
tail [] = []
tail (_ ∷ rest) = rest

-- `shift not in {0, 1, 4}`, negated, as the shift it is.
unfoldable pub high_shift : SourceLine → (ℤ → Reason) → ℤ → Asm ℕ
high_shift line reason (pos n) =
    if n == 0 || n == 1 || n == 4 then ok n else error line (reason (pos n))
high_shift line reason (negsuc n) = error line (reason (negsuc n))

-- `value & 0x1FFF`, for a value from -4096 to 4095.
unfoldable pub product_field : SourceLine → (ℤ → Reason) → ℤ → Asm ℕ
product_field line reason (pos n) =
    if leb n 4095 then ok (mask_ℤ 13 (pos n)) else error line (reason (pos n))
product_field line reason (negsuc n) =
    if leb n 4095 then ok (mask_ℤ 13 (negsuc n)) else error line (reason (negsuc n))

-- `word |= upper << 8` and `word |= address`.
abbrev pub with_upper : ℕ → ℕ → ℕ → ℕ
with_upper word high address = bit_or (bit_or word (high * 2 ^ 8)) address

module _ (asm : Assembler) (operation : Text) (symbols : Names) (location : ℕ)
    (line : SourceLine) where
  abbrev value_of : Text → Asm ℤ
  value_of text = evaluate asm.parse text symbols location line

  abbrev address_of : List Text → ℕ → Asm ℕ
  address_of operands next_arp_index =
      encode_data_address asm operation symbols location line operands next_arp_index

  -- The second operand, which is a shift, or 0 without one.
  unfoldable pub shift_operand : List Text → Asm ℤ
  unfolding evaluate
  shift_operand (_ ∷ second ∷ _) = value_of second
  shift_operand _ = ok (pos 0)

  abbrev out_of_range : ℤ → Reason
  out_of_range bad = constant_out_of_range operation bad

  abbrev bad_shift : ℤ → Reason
  bad_shift bad = shift_out_of_range operation bad

  -- The word with its fields.
  unfoldable pub encode_fields : Form → ℕ → Text → List Text → Asm ℕ
  unfolding evaluate within high_shift product_field shift_operand auxiliary_register io_port
      encode_data_address operand_at strip upper
  encode_fields Form.byte_constant word operand_text operands =
      value_of operand_text >>= within line 0xFF out_of_range >>= λ value. ok (bit_or word value)
  encode_fields Form.target word operand_text operands =
      value_of operand_text >>= within line 4095 (program_address_out_of_range operation) >>= λ _.
      ok word
  encode_fields Form.shifted word operand_text operands =
      shift_operand operands >>= within line 15 bad_shift >>= λ shift.
      address_of operands 2 >>= λ address. ok (with_upper word shift address)
  encode_fields Form.unshifted word operand_text operands =
      shift_operand operands >>= within line 0 bad_shift >>= λ _.
      address_of operands 2 >>= λ address. ok (bit_or word address)
  encode_fields Form.high_shifted word operand_text operands =
      shift_operand operands >>= high_shift line bad_shift >>= λ shift.
      address_of operands 2 >>= λ address. ok (with_upper word shift address)
  encode_fields Form.port word operand_text operands = operand_at operands 1 line >>= λ text.
      io_port text line >>= λ number.
      address_of operands 2 >>= λ address. ok (with_upper word number address)
  encode_fields Form.memory word operand_text operands =
      address_of operands 1 >>= λ address. ok (bit_or word address)
  encode_fields Form.register word operand_text operands = operand_at operands 0 line >>= λ text.
      auxiliary_register text line >>= λ number.
      address_of (tail operands) 1 >>= λ address. ok (with_upper word number address)
  encode_fields Form.register_constant word operand_text operands =
      operand_at operands 0 line >>= λ text. auxiliary_register text line >>= λ number.
      operand_at operands 1 line >>= λ second.
      value_of second >>= within line 0xFF out_of_range >>= λ value.
      ok (with_upper word number value)
  encode_fields Form.one_bit word operand_text operands =
      if is operation "LARP" && is_one_of (upper (strip operand_text)) ("AR0" ∷ "AR1" ∷ [])
      then (auxiliary_register operand_text line >>= λ value. ok (bit_or word value))
      else (value_of operand_text >>= within line 1 out_of_range >>= λ value.
          ok (bit_or word value))
  encode_fields Form.product_constant word operand_text operands =
      value_of operand_text >>= product_field line out_of_range >>= λ field. ok (bit_or word field)
  encode_fields Form.no_field word operand_text operands = ok word

  -- `_encode`.
  unfoldable pub encode : Text → Asm ℕ
  unfolding validate_instruction_shape entry_of operands_of form_of encode_fields
  encode operand_text = validate_instruction_shape asm operation operand_text line >>= λ _.
      entry_of asm operation line >>= λ entry. operands_of operand_text line >>= λ operands.
      encode_fields (form_of operation) entry.opcode.value operand_text operands
