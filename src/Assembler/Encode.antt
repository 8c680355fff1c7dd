-- ===== src/Assembler/Encode.antt =====
-- tools/assembler/tms32010_as.py: `_validate_instruction_shape`, `_encode` and its helpers.
use Prim.Native.String.{String}
use tms32010_sv.Base.{
  ℕ, zero, suc, ◌+◌, ◌-◌, ◌*◌, bit_or, Bool, true, false, not, ◌&&◌, List, [], ◌∷◌, Option, none,
  some, ltb, leb, ◌==◌, if◌then◌else◌, length, get_elem?,
}
use tms32010_sv.Base.Int.{ℤ, pos, negsuc}
use tms32010_sv.Base.Text.{Text, is, is_one_of, is_empty, strip, upper, remove_spaces}
use tms32010_sv.Database.{Entry, ok}
use tms32010_sv.Assembler.Source.{
  SourceLine, Reason, Asm, ◌>>=◌, error, require, operand_list, not_implemented, unknown_directive,
  unknown_instruction, wrong_operand_count, next_pointer_out_of_range, direct_address_out_of_range,
  next_pointer_needs_indirect, bad_register, bad_port, port_out_of_range, key_error, index_error,
}
use tms32010_sv.Assembler.Expression.{Expr, Names, evaluate, without}

-- The object `Assembler`, with `ast.parse`, which the module imports.
pub record Assembler : Type 0 where
  pub documented : List String
  pub entries : List Entry
  pub parse : Text → Option Expr

-- `self.entries.get(operation)`: of two entries of one mnemonic, a dictionary keeps the later.
unfoldable pub entry_named : List Entry → Text → Option Entry
entry_named [] operation = none
entry_named (entry ∷ rest) operation =
    let later = entry_named rest operation in
    elim later [
      | some found ↦ some found
      | none ↦ if is operation entry.mnemonic then some entry else none
    ]

-- `self.entries[operation]`.
unfoldable pub entry_of : Assembler → Text → SourceLine → Asm Entry
unfolding entry_named
entry_of asm operation line = elim (entry_named asm.entries operation) [
  | none ↦ error line key_error
  | some entry ↦ ok entry
]

abbrev required : List Bool → ℕ
required [] = 0
required (optional ∷ rest) = let later = required rest in if optional then later else suc later

abbrev starts_point : Text → Bool
starts_point [] = false
starts_point (c ∷ _) = c == 46

-- `self._operand_list(operand_text, line) if operand_text else []`.
unfoldable pub operands_of : Text → SourceLine → Asm (List Text)
unfolding operand_list
operands_of operand_text line =
    if is_empty operand_text then ok [] else operand_list operand_text line

-- `_validate_instruction_shape`.
unfoldable pub validate_instruction_shape : Assembler → Text → Text → SourceLine → Asm (Unit {0})
unfolding entry_named operands_of
validate_instruction_shape asm operation operand_text line =
    elim (entry_named asm.entries operation) [
      | none ↦
          if is_one_of operation asm.documented
          then error line (not_implemented operation)
          else if starts_point operation
          then error line (unknown_directive operation)
          else error line (unknown_instruction operation)
      | some entry ↦
          (operands_of operand_text line >>= λ operands.
          require line
            (leb (required entry.optional_operands) (length operands)
              && leb (length operands) (length entry.optional_operands))
            (wrong_operand_count operation))
    ]

-- `operands[index]`.
unfoldable pub operand_at : List Text → ℕ → SourceLine → Asm Text
operand_at operands index line = elim (get_elem? operands index) [
  | none ↦ error line index_error
  | some text ↦ ok text
]

-- `if not 0 <= value <= limit: raise …`.
unfoldable pub within : SourceLine → ℕ → (ℤ → Reason) → ℤ → Asm ℕ
within line limit reason (pos n) = if leb n limit then ok n else error line (reason (pos n))
within line limit reason (negsuc n) = error line (reason (negsuc n))

-- `_auxiliary_register`.
unfoldable pub auxiliary_register : Text → SourceLine → Asm ℕ
unfolding strip upper
auxiliary_register text line =
    let normalized = upper (strip text) in
    if is_one_of normalized ("AR0" ∷ "0" ∷ [])
    then ok 0
    else if is_one_of normalized ("AR1" ∷ "1" ∷ [])
    then ok 1
    else error line (bad_register text)

-- The value of an ASCII digit in a base.
abbrev digit_in : ℕ → ℕ → Option ℕ
digit_in base c =
    let value =
      if leb 48 c && leb c 57 then c - 48 else if leb 65 c && leb c 90 then c - 55 else 36 in
    if ltb value base then some value else none

-- Digits with single underscores between them. The flag says that an underscore may come next.
unfoldable pub digits_from : ℕ → Bool → ℕ → Text → Option ℕ
digits_from base after_digit value [] = if after_digit then some value else none
digits_from base after_digit value (c ∷ text) =
    if c == 95 && after_digit then digits_from base false value text else (elim (digit_in base c) [
      | none ↦ none
      | some digit ↦ digits_from base true (value * base + digit) text
    ])

-- A number without a prefix: a leading zero is only allowed in zero.
abbrev plain_number : Text → Option ℕ
plain_number [] = none
plain_number (c ∷ text) = elim (digits_from 10 false 0 (c ∷ text)) [
  | none ↦ none
  | some value ↦ if c == 48 && not (value == 0) then none else some value
]

-- The digits behind a prefix, which may start with an underscore.
abbrev digits_behind : ℕ → Text → Option ℕ
digits_behind base text = if is_empty text then none else digits_from base true 0 text

abbrev unsigned_number : Text → Option ℕ
unsigned_number (c ∷ p ∷ text) =
    if c == 48 && p == 88
    then digits_behind 16 text
    else if c == 48 && p == 79
    then digits_behind 8 text
    else if c == 48 && p == 66
    then digits_behind 2 text
    else plain_number (c ∷ p ∷ text)
unsigned_number text = plain_number text

abbrev negative : ℕ → ℤ
negative zero = pos 0
negative (suc n) = negsuc n

-- `int(text, 0)` of a text in upper case with ASCII digits; none where it raises.
unfoldable pub int_base_0 : Text → Option ℤ
unfolding digits_from strip
int_base_0 text = elim (strip text) [
  | [] ↦ none
  | c ∷ rest ↦
      if c == 45
      then (elim (unsigned_number rest) [ none ↦ none | some n ↦ some (negative n) ])
      else (elim (unsigned_number (if c == 43 then rest else c ∷ rest)) [
        | none ↦ none
        | some n ↦ some (pos n)
      ])
]

abbrev pub without_pa : Text → Text
without_pa (p ∷ a ∷ text) = if p == 80 && a == 65 then text else p ∷ a ∷ text
without_pa text = text

-- `_io_port`.
unfoldable pub io_port : Text → SourceLine → Asm ℕ
unfolding strip upper int_base_0 within
io_port text line = elim (int_base_0 (without_pa (upper (strip text)))) [
  | none ↦ error line (bad_port text)
  | some value ↦ within line 7 port_out_of_range value
]

abbrev pub indirect_control : Text → Option ℕ
indirect_control addressing =
    if is addressing "*"
    then some 0x88
    else if is addressing "*+"
    then some 0xA8
    else if is addressing "*-"
    then some 0x98
    else none

module _ (asm : Assembler) (operation : Text) (symbols : Names) (location : ℕ)
    (line : SourceLine) where
  abbrev value_of : Text → Asm ℤ
  value_of text = evaluate asm.parse text symbols location line

  -- The new pointer of an indirect operand.
  unfoldable pub next_pointer : Text → Asm ℕ
  unfolding strip upper auxiliary_register evaluate within
  next_pointer text =
      let normalized = upper (strip text) in
      if is_one_of normalized ("AR0" ∷ "AR1" ∷ [])
      then auxiliary_register normalized line
      else (value_of text >>= within line 1 (next_pointer_out_of_range operation))

  -- `_encode_data_address` with an indirect control, and with a direct address.
  unfoldable pub encode_indirect : ℕ → List Text → ℕ → Asm ℕ
  unfolding next_pointer
  encode_indirect control operands next_arp_index = elim (get_elem? operands next_arp_index) [
    | none ↦ ok control
    | some text ↦ next_pointer text >>= λ pointer. ok (bit_or (without control 0x09) pointer)
  ]

  unfoldable pub encode_direct : Text → List Text → ℕ → Asm ℕ
  unfolding evaluate within
  encode_direct text operands next_arp_index =
      require line (leb (length operands) next_arp_index) (next_pointer_needs_indirect operation)
      >>= λ _.
          value_of text
          >>= within line (if is operation "SST" then 15 else 127)
              (direct_address_out_of_range operation)

  -- `_encode_data_address`.
  unfoldable pub encode_data_address : List Text → ℕ → Asm ℕ
  unfolding operand_at remove_spaces upper encode_indirect encode_direct
  encode_data_address operands next_arp_index = operand_at operands 0 line >>= λ first.
      elim (indirect_control (upper (remove_spaces first))) [
        | some control ↦ encode_indirect control operands next_arp_index
        | none ↦ encode_direct first operands next_arp_index
      ]
