-- ===== src/Database/Entries.antt =====
-- docs/generated/tms32010_isa.yaml: the opcodes of the 60 instructions, in the order of the file. A
-- pattern is its mask and its match.
use Prim.Native.String.{String}
use tms32010_sv.Base.{ℕ, Bool, true, false, List, [], ◌∷◌, Option, none, some}
use tms32010_sv.Base.Int.{ℤ, pos}
use tms32010_sv.Database.{Pattern, Action, needs, forbids, Constraint, Field, Entry}

abbrev pattern : ℕ → ℕ → Pattern
pattern mask match = record { mask = mask; value = match }

abbrev constraint : ℕ → ℕ → Action → Constraint
constraint mask match action = record { when = pattern mask match; action = action }

abbrev field : String → ℕ → ℕ → Option (List ℤ) → Field
field name lsb width legal_values = record {
  name = name;
  lsb = lsb;
  width = width;
  signed = false;
  legal_values = legal_values;
}

abbrev signed_field : String → ℕ → ℕ → Field
signed_field name lsb width = record {
  name = name;
  lsb = lsb;
  width = width;
  signed = true;
  legal_values = none;
}

abbrev no_fields : List Field
no_fields = []

abbrev address_fields : List Field
address_fields = field "indirect" 7 1 none ∷ field "addressing_field" 0 7 none ∷ []

-- The two constraints on an indirect address: no reserved bit, and not both counts.
abbrev indirect_constraints : List Constraint
indirect_constraints =
    constraint 0x0080 0x0080 (needs (pattern 0x0046 0x0000))
    ∷ constraint 0x0080 0x0080 (forbids (pattern 0x0030 0x0030))
    ∷ []

-- "optional" of each operand.
abbrev no_operands : List Bool
no_operands = []

abbrev one_operand : List Bool
one_operand = false ∷ []

abbrev two_operands : List Bool
two_operands = false ∷ false ∷ []

abbrev address_shape : List Bool
address_shape = false ∷ true ∷ []

abbrev shift_operands : List Bool
shift_operands = false ∷ true ∷ true ∷ []

abbrev second_operands : List Bool
second_operands = false ∷ false ∷ true ∷ []

abbrev entry :
    String → List Bool → ℕ → ℕ → ℕ → Option Pattern → List Constraint → List Field → Entry
entry mnemonic operands word_count mask match audit_envelope constraints variable_fields = record {
  mnemonic = mnemonic;
  optional_operands = operands;
  word_count = word_count;
  opcode = pattern mask match;
  audit_envelope = audit_envelope;
  constraints = constraints;
  variable_fields = variable_fields;
}

-- "instructions".
unfoldable pub instructions : List Entry
instructions =
    entry "LACK" one_operand 1 0xFF00 0x7E00 none [] (field "constant" 0 8 none ∷ [])
    ∷ entry "NOP" no_operands 1 0xFFFF 0x7F80 none [] no_fields
    ∷ entry "ZAC" no_operands 1 0xFFFF 0x7F89 none [] no_fields
    ∷ entry "ROVM" no_operands 1 0xFFFF 0x7F8A none [] no_fields
    ∷ entry "SOVM" no_operands 1 0xFFFF 0x7F8B none [] no_fields
    ∷ entry "DINT" no_operands 1 0xFFFF 0x7F81 none [] no_fields
    ∷ entry "EINT" no_operands 1 0xFFFF 0x7F82 none [] no_fields
    ∷ entry "LST" address_shape 1 0xFF00 0x7B00 none indirect_constraints address_fields
    ∷ entry "LARK" two_operands 1 0xFE00 0x7000 none []
        (field "auxiliary_register" 8 1 none ∷ field "constant" 0 8 none ∷ [])
    ∷ entry "LARP" one_operand 1 0xFFFE 0x6880 none [] (field "constant" 0 1 none ∷ [])
    ∷ entry "MAR" address_shape 1 0xFF00 0x6800 none
        (constraint 0xFF00 0x6800 (forbids (pattern 0xFFFE 0x6880)) ∷ indirect_constraints)
        address_fields
    ∷ entry "LDP" address_shape 1 0xFF00 0x6F00 none indirect_constraints address_fields
    ∷ entry "LDPK" one_operand 1 0xFFFE 0x6E00 none [] (field "constant" 0 1 none ∷ [])
    ∷ entry "DMOV" address_shape 1 0xFF00 0x6900 none indirect_constraints address_fields
    ∷ entry "LT" address_shape 1 0xFF00 0x6A00 none indirect_constraints address_fields
    ∷ entry "LTD" address_shape 1 0xFF00 0x6B00 none indirect_constraints address_fields
    ∷ entry "LTA" address_shape 1 0xFF00 0x6C00 none indirect_constraints address_fields
    ∷ entry "MPY" address_shape 1 0xFF00 0x6D00 none indirect_constraints address_fields
    ∷ entry "MPYK" one_operand 1 0xE000 0x8000 none [] (signed_field "constant" 0 13 ∷ [])
    ∷ entry "PAC" no_operands 1 0xFFFF 0x7F8E none [] no_fields
    ∷ entry "APAC" no_operands 1 0xFFFF 0x7F8F none [] no_fields
    ∷ entry "SPAC" no_operands 1 0xFFFF 0x7F90 none [] no_fields
    ∷ entry "LAR" second_operands 1 0xFE00 0x3800 none indirect_constraints
        (field "auxiliary_register" 8 1 none ∷ address_fields)
    ∷ entry "SAR" second_operands 1 0xFE00 0x3000 none indirect_constraints
        (field "auxiliary_register" 8 1 none ∷ address_fields)
    ∷ entry "LAC" shift_operands 1 0xF000 0x2000 none indirect_constraints
        (field "shift" 8 4 none ∷ address_fields)
    ∷ entry "SACL" shift_operands 1 0xFF00 0x5000 none indirect_constraints address_fields
    ∷ entry "SACH" shift_operands 1 0xF800 0x5800 none indirect_constraints
        (field "shift" 8 3 (some (pos 0 ∷ pos 1 ∷ pos 4 ∷ [])) ∷ address_fields)
    ∷ entry "ADD" shift_operands 1 0xF000 0x0000 none indirect_constraints
        (field "shift" 8 4 none ∷ address_fields)
    ∷ entry "SUB" shift_operands 1 0xF000 0x1000 none indirect_constraints
        (field "shift" 8 4 none ∷ address_fields)
    ∷ entry "ADDH" address_shape 1 0xFF00 0x6000 none indirect_constraints address_fields
    ∷ entry "ADDS" address_shape 1 0xFF00 0x6100 none indirect_constraints address_fields
    ∷ entry "SUBH" address_shape 1 0xFF00 0x6200 none indirect_constraints address_fields
    ∷ entry "SUBS" address_shape 1 0xFF00 0x6300 none indirect_constraints address_fields
    ∷ entry "SUBC" address_shape 1 0xFF00 0x6400 none indirect_constraints address_fields
    ∷ entry "XOR" address_shape 1 0xFF00 0x7800 none indirect_constraints address_fields
    ∷ entry "AND" address_shape 1 0xFF00 0x7900 none indirect_constraints address_fields
    ∷ entry "OR" address_shape 1 0xFF00 0x7A00 none indirect_constraints address_fields
    ∷ entry "ZALH" address_shape 1 0xFF00 0x6500 none indirect_constraints address_fields
    ∷ entry "ZALS" address_shape 1 0xFF00 0x6600 none indirect_constraints address_fields
    ∷ entry "BANZ" one_operand 2 0xFFFF 0xF400 (some (pattern 0xFF00 0xF400)) [] no_fields
    ∷ entry "B" one_operand 2 0xFFFF 0xF900 (some (pattern 0xFF00 0xF900)) [] no_fields
    ∷ entry "BV" one_operand 2 0xFFFF 0xF500 (some (pattern 0xFF00 0xF500)) [] no_fields
    ∷ entry "BIOZ" one_operand 2 0xFFFF 0xF600 (some (pattern 0xFF00 0xF600)) [] no_fields
    ∷ entry "CALL" one_operand 2 0xFFFF 0xF800 (some (pattern 0xFF00 0xF800)) [] no_fields
    ∷ entry "CALA" no_operands 1 0xFFFF 0x7F8C none [] no_fields
    ∷ entry "RET" no_operands 1 0xFFFF 0x7F8D none [] no_fields
    ∷ entry "POP" no_operands 1 0xFFFF 0x7F9D none [] no_fields
    ∷ entry "PUSH" no_operands 1 0xFFFF 0x7F9C none [] no_fields
    ∷ entry "IN" second_operands 1 0xF800 0x4000 none indirect_constraints
        (field "port" 8 3 none ∷ address_fields)
    ∷ entry "OUT" second_operands 1 0xF800 0x4800 none indirect_constraints
        (field "port" 8 3 none ∷ address_fields)
    ∷ entry "TBLR" address_shape 1 0xFF00 0x6700 none indirect_constraints address_fields
    ∷ entry "TBLW" address_shape 1 0xFF00 0x7D00 none indirect_constraints address_fields
    ∷ entry "BGEZ" one_operand 2 0xFFFF 0xFD00 (some (pattern 0xFF00 0xFD00)) [] no_fields
    ∷ entry "BGZ" one_operand 2 0xFFFF 0xFC00 (some (pattern 0xFF00 0xFC00)) [] no_fields
    ∷ entry "BLEZ" one_operand 2 0xFFFF 0xFB00 (some (pattern 0xFF00 0xFB00)) [] no_fields
    ∷ entry "BLZ" one_operand 2 0xFFFF 0xFA00 (some (pattern 0xFF00 0xFA00)) [] no_fields
    ∷ entry "BNZ" one_operand 2 0xFFFF 0xFE00 (some (pattern 0xFF00 0xFE00)) [] no_fields
    ∷ entry "BZ" one_operand 2 0xFFFF 0xFF00 (some (pattern 0xFF00 0xFF00)) [] no_fields
    ∷ entry "SST" address_shape 1 0xFF00 0x7C00 none
        (constraint 0x0080 0x0000 (needs (pattern 0x0070 0x0000)) ∷ indirect_constraints)
        address_fields
    ∷ entry "ABS" no_operands 1 0xFFFF 0x7F88 none [] no_fields
    ∷ []
