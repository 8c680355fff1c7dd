-- ===== src/Tests/Tools.antt =====
-- The database and the disassembler at two entries of docs/generated/tms32010_isa.yaml.
use Prim.Native.String.{String}
use tms32010_sv.Base.{ℕ, ◌≤◌, ◌≡◌, ◌↔◌, refl, arith, false, List, [], ◌∷◌, none, some}
use tms32010_sv.Base.Int.{pos}
use tms32010_sv.Isa.{Operands}
use tms32010_sv.Database.{
  Field, Entry, ok, documented_legal, decode_entry, decode_word, classify_word,
}
use tms32010_sv.Database.Laws.{OnlyMatch, decode_word_iff, classify_word_iff}
use tms32010_sv.Database.Entries.{instructions}
use tms32010_sv.Database.Agreement.{instructions-validated}
use tms32010_sv.Database.Audit.{Counts, total, audit_opcode_space, audit_opcode_space-total}
use tms32010_sv.Database.Opcode.{validate_opcode}
use tms32010_sv.Database.Fields.{field_names}
use tms32010_sv.Database.Validate.{has_duplicates}
use tms32010_sv.Database.Lossless.{decode_entry-injective}
use tms32010_sv.Disassembler.{disassemble_word, source_rows, disassemble_listing}
use tms32010_sv.Disassembler.Format.{hex, decimal}
use tms32010_sv.Disassembler.Rows.{AllText, no_word, text_of, Lists, disassemble_listing-Lists}

abbrev lack : Entry
lack = record {
  mnemonic = "LACK";
  optional_operands = false ∷ [];
  word_count = 1;
  opcode = record { mask = 0xFF00; value = 0x7E00 };
  audit_envelope = none;
  constraints = [];
  variable_fields =
      record { name = "constant"; lsb = 0; width = 8; signed = false; legal_values = none } ∷ [];
}

abbrev branch : Entry
branch = record {
  mnemonic = "B";
  optional_operands = false ∷ [];
  word_count = 2;
  opcode = record { mask = 0xFFFF; value = 0xF900 };
  audit_envelope = none;
  constraints = [];
  variable_fields = [];
}

abbrev entries : List Entry
entries = lack ∷ branch ∷ []

abbrev constant_5 : Operands
constant_5 = ("constant", pos 5) ∷ []

decode_word_iff_example :
    (decode_word entries 0x7E05 ≡ ok (some (lack, constant_5)))
    ↔ ((0x7E05 ≤ 0xFFFF) × OnlyMatch 0x7E05 lack constant_5 entries)
decode_word_iff_example = decode_word_iff entries 0x7E05 lack constant_5

classify_word_iff_example :
    (classify_word entries 0x7E05 ≡ ok (documented_legal lack constant_5))
    ↔ (decode_word entries 0x7E05 ≡ ok (some (lack, constant_5)))
classify_word_iff_example = classify_word_iff entries 0x7E05 lack constant_5

decoded_lack : decode_word entries 0x7E05 ≡ ok (some (lack, constant_5))
unfolding decode_word decode_entry
decoded_lack = refl

lack_text : disassemble_word entries 0x7E05 ≡ ok "LACK 5"
unfolding disassemble_word decode_word decode_entry decimal hex
lack_text = refl

word_text : disassemble_word entries 0xF900 ≡ ok ".word 0xf900"
unfolding disassemble_word decode_word decode_entry decimal hex
word_text = refl

source_run :
    source_rows entries (0x7E05 ∷ 0xF900 ∷ 0x0123 ∷ []) ≡ ok ("LACK 5\n" ∷ "B 0x123\n" ∷ [])
unfolding source_rows disassemble_word decode_word decode_entry decimal hex
source_run = refl

texts : AllText entries (0x7E05 ∷ 0xF900 ∷ [])
texts = text_of "LACK 5" lack_text (text_of ".word 0xf900" word_text no_word)

disassemble_listing-Lists_example :
    (rows : List String) × (disassemble_listing entries (0x7E05 ∷ 0xF900 ∷ []) 0xFFE ≡ ok rows)
    × Lists (0x7E05 ∷ 0xF900 ∷ []) 0xFFE rows
disassemble_listing-Lists_example =
    disassemble_listing-Lists entries (0x7E05 ∷ 0xF900 ∷ []) 0xFFE texts (omega arith) (omega arith)

lack_valid : validate_opcode lack ≡ ok tt
unfolding validate_opcode
lack_valid = refl

lack_entry : decode_entry lack 0x7E05 ≡ some constant_5
unfolding decode_entry
lack_entry = refl

abbrev lack_word : ℕ
lack_word = 0x7E05

lack_distinct : has_duplicates (field_names lack.variable_fields) ≡ false
lack_distinct = refl

decode_entry-injective_example : lack_word ≡ lack_word
decode_entry-injective_example =
    decode_entry-injective lack lack_word lack_word constant_5 lack_valid lack_distinct
      (omega arith) (omega arith) lack_entry lack_entry

audit_opcode_space-total_example :
    (counts : Counts) × (audit_opcode_space instructions ≡ ok counts) × (total counts ≡ 0x1_0000)
audit_opcode_space-total_example = audit_opcode_space-total instructions instructions-validated

abbrev nibble : ℕ → Field
nibble lsb = record { name = "constant"; lsb = lsb; width = 4; signed = false; legal_values = none }

-- Two fields of one name pass the checks of an opcode, and the value of the first is lost.
abbrev doubled : Entry
doubled = record lack { variable_fields = nibble 0 ∷ nibble 4 ∷ [] }

doubled_valid : validate_opcode doubled ≡ ok tt
unfolding validate_opcode
doubled_valid = refl

first_lost : decode_entry doubled 0x7E25 ≡ some (("constant", pos 2) ∷ [])
unfolding decode_entry
first_lost = refl
