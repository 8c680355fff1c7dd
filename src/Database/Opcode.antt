-- ===== src/Database/Opcode.antt =====
-- tools/generators/isa_database.py: what `validate_database` and `_validate_constraint` check of the
-- opcode of an entry.
use Prim.Native.String.{String}
use tms32010_sv.Base.{
  ℕ, ◌+◌, ◌-◌, ◌*◌, ◌^◌, bit_and, bit_or, Bool, true, false, not, ◌&&◌, ◌||◌, List, [], ◌∷◌, Option,
  none, some, ◌==◌, leb, ltb, if◌then◌else◌,
}
use tms32010_sv.Base.Int.{ℤ, pos, negsuc}
use tms32010_sv.Database.{Pattern, Action, Constraint, Field, Entry, Checked, ok, failed, same_ℤ}

-- The messages, each with the mnemonic.
pub data OpcodeError : Type 0 where
  opcode_not_16_bits match_sets_unmasked_bit invalid_field overlapping_fields : String → OpcodeError
  field_overlaps_fixed invalid_legal_values bits_not_described : String → OpcodeError
  constraint_not_16_bits constraint_sets_unmasked_bit envelope_not_16_bits : String → OpcodeError
  envelope_sets_unmasked_bit envelope_narrower envelope_excludes_match : String → OpcodeError

abbrev pub Valid : Type 0
Valid = Checked OpcodeError (Unit {0})

-- `a & ~b`.
abbrev pub beyond_mask : ℕ → ℕ → ℕ
beyond_mask a b = a - bit_and a b

-- `~mask & 0xFFFF`.
abbrev pub free_bits : ℕ → ℕ
free_bits mask = 0xFFFF - bit_and mask 0xFFFF

-- `((1 << width) - 1) << lsb`.
abbrev pub field_mask : Field → ℕ
field_mask f = (2 ^ f.width - 1) * 2 ^ f.lsb

abbrev repeated : ℤ → List ℤ → Bool
repeated x [] = false
repeated x (y ∷ ys) = same_ℤ x y || repeated x ys

abbrev in_width : ℕ → ℤ → Bool
in_width width (pos n) = ltb n (2 ^ width)
in_width width (negsuc n) = false

-- The values are distinct, and each of them fits the field.
abbrev legal_distinct : ℕ → List ℤ → Bool
legal_distinct width [] = true
legal_distinct width (x ∷ xs) = not (repeated x xs) && in_width width x && legal_distinct width xs

abbrev legal_values_hold : Field → Bool
legal_values_hold f = elim f.legal_values [
  | none ↦ true
  | some [] ↦ false
  | some (x ∷ xs) ↦ legal_distinct f.width (x ∷ xs)
]

-- The body of the loop over the fields: the first check that fails. A parsed `lsb` is not negative.
unfoldable pub field_error : String → ℕ → Field → ℕ → Option OpcodeError
field_error mnemonic mask f variable_mask =
    if ltb f.width 1 || ltb 16 (f.lsb + f.width)
    then some (invalid_field mnemonic)
    else if not (bit_and variable_mask (field_mask f) == 0)
    then some (overlapping_fields mnemonic)
    else if not (bit_and mask (field_mask f) == 0)
    then some (field_overlaps_fixed mnemonic)
    else if not (legal_values_hold f)
    then some (invalid_legal_values mnemonic)
    else none

-- The loop over the fields, with the bits that they cover.
unfoldable pub validate_fields : String → ℕ → List Field → ℕ → Checked OpcodeError ℕ
unfolding field_error
validate_fields mnemonic mask [] variable_mask = ok variable_mask
validate_fields mnemonic mask (f ∷ rest) variable_mask =
    elim (field_error mnemonic mask f variable_mask) [
      | some e ↦ failed e
      | none ↦ validate_fields mnemonic mask rest (bit_or variable_mask (field_mask f))
    ]

abbrev pub fits_16_bits : Pattern → Bool
fits_16_bits p = leb p.value 0xFFFF && leb p.mask 0xFFFF

-- `_validate_constraint`, of the condition and of the action.
abbrev validate_pattern : String → Pattern → Valid → Valid
validate_pattern mnemonic p later =
    if not (fits_16_bits p)
    then failed (constraint_not_16_bits mnemonic)
    else if not (beyond_mask p.value p.mask == 0)
    then failed (constraint_sets_unmasked_bit mnemonic)
    else later

abbrev action_pattern : Action → Pattern
action_pattern (Action.needs p) = p
action_pattern (Action.forbids p) = p

unfoldable pub validate_constraints : String → List Constraint → Valid
validate_constraints mnemonic [] = ok tt
validate_constraints mnemonic (c ∷ rest) =
    validate_pattern mnemonic c.when
      (validate_pattern mnemonic (action_pattern c.action) (validate_constraints mnemonic rest))

unfoldable pub validate_envelope : String → Pattern → Option Pattern → Valid
validate_envelope mnemonic opcode none = ok tt
validate_envelope mnemonic opcode (some envelope) =
    if not (fits_16_bits envelope)
    then failed (envelope_not_16_bits mnemonic)
    else if not (beyond_mask envelope.value envelope.mask == 0)
    then failed (envelope_sets_unmasked_bit mnemonic)
    else if not (beyond_mask envelope.mask opcode.mask == 0)
    then failed (envelope_narrower mnemonic)
    else if not (bit_and opcode.value envelope.mask == envelope.value)
    then failed (envelope_excludes_match mnemonic)
    else ok tt

-- The checks of the opcode of an entry, in their order.
unfoldable pub validate_opcode : Entry → Valid
unfolding validate_fields validate_constraints validate_envelope
validate_opcode entry =
    if not (fits_16_bits entry.opcode)
    then failed (opcode_not_16_bits entry.mnemonic)
    else if not (beyond_mask entry.opcode.value entry.opcode.mask == 0)
    then failed (match_sets_unmasked_bit entry.mnemonic)
    else (elim (validate_fields entry.mnemonic entry.opcode.mask entry.variable_fields 0) [
      | failed e ↦ failed e
      | ok variable_mask ↦
          if not (variable_mask == free_bits entry.opcode.mask)
          then failed (bits_not_described entry.mnemonic)
          else (elim (validate_constraints entry.mnemonic entry.constraints) [
            | failed e ↦ failed e
            | ok _ ↦ validate_envelope entry.mnemonic entry.opcode entry.audit_envelope
          ])
    ])
