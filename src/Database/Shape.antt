-- ===== src/Database/Shape.antt =====
-- tools/generators/isa_database.py: what `validate_database` reads of a database, and the messages of
-- its exceptions. A value that JSON lets be missing or of another type is an option, which is `none`
-- in both cases. The keys of an entry stand beside its opcode, whose numbers have been parsed.
use Prim.Native.String.{String}
use tms32010_sv.Base.{List, Option}
use tms32010_sv.Base.Int.{ℤ}
use tms32010_sv.Database.{Entry}
use tms32010_sv.Database.Opcode.{OpcodeError}
use tms32010_sv.Database.Validation.{CollisionError}

pub record Coverage : Type 0 where
  pub documented_mnemonics : Option (List String)
  pub supported_mnemonics : Option (List String)
  pub expected_documented_instruction_count : Option ℤ

-- A definition of a class, with "source_id" of each citation.
pub record Definition : Type 0 where
  pub name : Option String
  pub meaning : Option String
  pub source_citations : Option (List (Option String))

pub record SpaceAudit : Type 0 where
  pub classification_definitions : Option (List Definition)
  pub expected_counts : Option (List (String × Option ℤ))

pub record EntryRecord : Type 0 where
  pub keys : List String
  pub entry : Entry
  pub confidence_level : String
  pub documented_cycle_count : ℤ
  pub source_citations : List (Option String)

pub record Database : Type 0 where
  pub schema_version : Option ℤ
  pub device : Option String
  pub coverage : Option Coverage
  pub opcode_space_audit : Option SpaceAudit
  pub instructions : Option (List (Option EntryRecord))

-- The messages, in the order of the checks.
pub data ValidationError : Type 0 where
  unsupported_schema not_the_original_device no_coverage_or_instructions : ValidationError
  no_mnemonic_lists documented_count_differs duplicate_documented outside_scope : ValidationError
  no_audit no_definitions_or_counts definitions_differ duplicate_definition : ValidationError
  count_categories_differ counts_not_nonnegative counts_do_not_cover : ValidationError
  entry_not_mapping : ValidationError
  missing_fields : String → List String → ValidationError
  invalid_confidence invalid_cycle_count unresolved_citation : String → ValidationError
  opcode_error : OpcodeError → ValidationError
  meaning_missing citations_missing : ValidationError
  unresolved_definition_citation : Option String → ValidationError
  entries_differ duplicate_entries : ValidationError
  collision : CollisionError → ValidationError
  rejects_every_encoding : String → ValidationError
