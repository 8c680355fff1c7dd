-- ===== src/Tests/Validated.antt =====
-- `validate_database` on a database with the opcodes of docs/generated/tms32010_isa.yaml.
use Prim.Native.String.{String}
use tms32010_sv.Base.{ℕ, ◌≤◌, ◌≡◌, refl, arith, true, List, [], ◌∷◌, Option, none, some}
use tms32010_sv.Base.Int.{ℤ, pos}
use tms32010_sv.Isa.{Operands}
use tms32010_sv.Database.{Entry, ok, failed, decode_entry, decode_word}
use tms32010_sv.Database.Chains.{◌>>=◌}
use tms32010_sv.Database.Entries.{instructions}
use tms32010_sv.Database.Agreement.{instructions-validated}
use tms32010_sv.Database.Validation.{matching_names}
use tms32010_sv.Database.Opcode.{validate_opcode}
use tms32010_sv.Database.Matches.{holds_name, mnemonics}
use tms32010_sv.Database.Matches.Samples.{samples_match, matches_below-samples}
use tms32010_sv.Database.Shape.{
  Definition, EntryRecord, Database, unsupported_schema, invalid_confidence, unresolved_citation,
}
use tms32010_sv.Database.Validate.{
  required_instruction_fields, validate_coverage, validate_audit, validate_entry, validate_entries,
  validate_definitions, validate_matches, validate_database,
}
use tms32010_sv.Database.Validate.Supported.{
  entries_of, supported_of, decode_word-supported, decode_word-accepted,
}

abbrev lack : Entry
lack = record {
  mnemonic = "LACK";
  optional_operands = [];
  word_count = 1;
  opcode = record { mask = 0xFF00; value = 0x7E00 };
  audit_envelope = none;
  constraints = [];
  variable_fields = [];
}

abbrev guide : String
guide = "ti-tms32010-users-guide-spru001b"

abbrev cited : List (Option String)
cited = some guide ∷ []

abbrev described : Entry → Option EntryRecord
described entry = some (record {
  keys = required_instruction_fields;
  entry = entry;
  confidence_level = "VERIFIED_PRIMARY";
  documented_cycle_count = pos 1;
  source_citations = cited;
})

abbrev all_described : List Entry → List (Option EntryRecord)
all_described [] = []
all_described (entry ∷ rest) = described entry ∷ all_described rest

abbrev meant : String → Definition
meant name = record {
  name = some name;
  meaning = some "as documented";
  source_citations = some cited;
}

abbrev counted_as : String → ℕ → String × Option ℤ
counted_as name n = (name, some (pos n))

abbrev sample : Database
sample = record {
  schema_version = some (pos 1);
  device = some "TMS32010";
  coverage = some (record {
    documented_mnemonics = some (mnemonics instructions);
    supported_mnemonics = some (mnemonics instructions);
    expected_documented_instruction_count = some (pos 60);
  });
  opcode_space_audit = some (record {
    classification_definitions = some (
        meant "DOCUMENTED_LEGAL"
        ∷ meant "PRIMARY_RESERVED_INDIRECT_FIELD"
        ∷ meant "UNRESOLVED_SIMULTANEOUS_UPDATE"
        ∷ meant "DOCUMENTED_PATTERN_MISMATCH"
        ∷ meant "PRIMARY_UNLISTED_ENCODING"
        ∷ []);
    expected_counts = some (
        counted_as "DOCUMENTED_LEGAL" 21895
        ∷ counted_as "PRIMARY_RESERVED_INDIRECT_FIELD" 10976
        ∷ counted_as "UNRESOLVED_SIMULTANEOUS_UPDATE" 372
        ∷ counted_as "DOCUMENTED_PATTERN_MISMATCH" 3637
        ∷ counted_as "PRIMARY_UNLISTED_ENCODING" 28656
        ∷ []);
  });
  instructions = some (all_described instructions);
}

samples_found : samples_match instructions instructions ≡ true
unfolding instructions matching_names decode_entry
samples_found = refl

instructions_matched : validate_matches instructions ≡ ok tt
unfolding validate_matches
instructions_matched =
    let (counts, ended, all) =
      matches_below-samples instructions instructions-validated samples_found in
    rw (ended, validate_matches, all) refl

sample_accepted : validate_database (guide ∷ []) sample ≡ ok tt
unfolding validate_database validate_coverage validate_audit validate_entry validate_entries
    validate_definitions validate_opcode instructions ◌>>=◌
sample_accepted = instructions_matched

tblw_supported : holds_name "TBLW" (supported_of sample) ≡ true
unfolding instructions
tblw_supported = refl

decode_word-supported_example :
    (word : ℕ) × (entry : Entry) × (operands : Operands) × (word ≤ 0xFFFF)
    × (decode_word (entries_of sample) word ≡ ok (some (entry, operands)))
    × (entry.mnemonic ≡ "TBLW")
decode_word-supported_example =
    decode_word-supported (guide ∷ []) sample "TBLW" sample_accepted tblw_supported

decode_word-accepted_example :
    (found : Option (Entry × Operands)) × (decode_word (entries_of sample) 0xFFFF ≡ ok found)
decode_word-accepted_example =
    decode_word-accepted (guide ∷ []) sample 0xFFFF sample_accepted (omega arith)

-- The first check that fails is the one that is reported.
no_schema :
    validate_database [] (record sample { schema_version = none; device = none })
    ≡ failed unsupported_schema
unfolding validate_database validate_coverage ◌>>=◌
no_schema = refl

uncited : validate_database [] sample ≡ failed (unresolved_citation "LACK")
unfolding validate_database validate_coverage validate_audit validate_entry validate_entries
    validate_definitions validate_opcode instructions ◌>>=◌
uncited = refl

misjudged :
    validate_entry [] (record {
      keys = required_instruction_fields;
      entry = lack;
      confidence_level = "KNOWN";
      documented_cycle_count = pos 0;
      source_citations = [];
    })
    ≡ failed (invalid_confidence "LACK")
unfolding validate_entry ◌>>=◌
misjudged = refl
