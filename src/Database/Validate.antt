-- ===== src/Database/Validate.antt =====
-- tools/generators/isa_database.py: `validate_database` as a whole. The identifiers of
-- docs/references/manifest.yaml are a parameter.
pub mod Supported
use Prim.Native.String.{String}
use tms32010_sv.Base.{
  ℕ, ◌+◌, Bool, true, false, not, ◌&&◌, ◌||◌, List, [], ◌∷◌, length, ◌==◌, Option, none, some,
  same_text, if◌then◌else◌,
}
use tms32010_sv.Base.Int.{ℤ, pos, negsuc}
use tms32010_sv.Database.{Entry, Checked, ok, failed, sorted_names, same_ℤ}
use tms32010_sv.Database.Chains.{◌>>=◌}
use tms32010_sv.Database.Opcode.{validate_opcode}
use tms32010_sv.Database.Shape.{
  Definition, SpaceAudit, EntryRecord, Database, ValidationError, unsupported_schema,
  not_the_original_device, no_coverage_or_instructions, no_mnemonic_lists, documented_count_differs,
  duplicate_documented, outside_scope, no_audit, no_definitions_or_counts, definitions_differ,
  duplicate_definition, count_categories_differ, counts_not_nonnegative, counts_do_not_cover,
  entry_not_mapping, missing_fields, invalid_confidence, invalid_cycle_count, unresolved_citation,
  opcode_error, meaning_missing, citations_missing, unresolved_definition_citation, entries_differ,
  duplicate_entries, collision, rejects_every_encoding,
}
use tms32010_sv.Database.Matches.{holds_name, matches_below, never_matched, mnemonics}

abbrev pub Validated : Type 0
Validated = Checked ValidationError (Unit {0})

-- `if not holds: raise IsaDatabaseError(…)`.
abbrev pub check : Bool → ValidationError → Validated
check holds e = if holds then ok tt else failed e

-- A value that is there, and of its type.
abbrev pub present : {A : Type 0} → Option A → ValidationError → Checked ValidationError A
present (some a) e = ok a
present none e = failed e

abbrev same_number : Option ℤ → ℕ → Bool
same_number none n = false
same_number (some x) n = same_ℤ x (pos n)

abbrev same_name : Option String → String → Bool
same_name none name = false
same_name (some x) name = same_text x name

abbrev pub is_within : List String → List String → Bool
is_within [] others = true
is_within (name ∷ rest) others = holds_name name others && is_within rest others

-- `len(names) != len(set(names))`.
abbrev pub has_duplicates : List String → Bool
has_duplicates [] = false
has_duplicates (name ∷ rest) = holds_name name rest || has_duplicates rest

abbrev same_names : List String → List String → Bool
same_names [] [] = true
same_names (x ∷ xs) (y ∷ ys) = same_text x y && same_names xs ys
same_names _ _ = false

-- `set(a) != set(b)`.
abbrev same_set : List String → List String → Bool
same_set a b = is_within a b && is_within b a

abbrev opcode_classifications : List String
opcode_classifications =
    "DOCUMENTED_LEGAL" ∷ "PRIMARY_RESERVED_INDIRECT_FIELD" ∷ "UNRESOLVED_SIMULTANEOUS_UPDATE"
    ∷ "DOCUMENTED_PATTERN_MISMATCH" ∷ "PRIMARY_UNLISTED_ENCODING" ∷ []

abbrev pub required_instruction_fields : List String
required_instruction_fields =
    "mnemonic" ∷ "aliases" ∷ "opcode" ∷ "operands" ∷ "addressing_modes" ∷ "registers_read"
    ∷ "registers_written" ∷ "memory_accesses" ∷ "status_flags_affected" ∷ "arithmetic_width_bits"
    ∷ "sign_extension_behavior" ∷ "shift_behavior" ∷ "overflow_behavior" ∷ "result_behavior"
    ∷ "branch_behavior" ∷ "interrupt_interaction" ∷ "documented_cycle_count"
    ∷ "conditional_cycle_differences" ∷ "external_bus_cycles" ∷ "source_citations"
    ∷ "confidence_level" ∷ "unresolved_questions" ∷ []

abbrev valid_confidence_levels : List String
valid_confidence_levels =
    "VERIFIED_PRIMARY" ∷ "VERIFIED_HARDWARE" ∷ "CORROBORATED" ∷ "INFERRED" ∷ "PROVISIONAL"
    ∷ "UNKNOWN" ∷ []

-- `required - set(keys)`.
abbrev pub missing_of : List String → List String → List String
missing_of [] keys = []
missing_of (name ∷ rest) keys =
    let later = missing_of rest keys in if holds_name name keys then later else name ∷ later

-- The checks down to those of the scope; they find the supported mnemonics and the instructions.
unfoldable pub validate_coverage :
    Database → Checked ValidationError (List String × List (Option EntryRecord))
validate_coverage database = do
  _ ← check (same_number database.schema_version 1) unsupported_schema
  _ ← check (same_name database.device "TMS32010") not_the_original_device
  coverage ← present database.coverage no_coverage_or_instructions
  instructions ← present database.instructions no_coverage_or_instructions
  expected ← present coverage.documented_mnemonics no_mnemonic_lists
  supported ← present coverage.supported_mnemonics no_mnemonic_lists
  _ ←
      check (same_number coverage.expected_documented_instruction_count (length expected))
        documented_count_differs
  _ ← check (not (has_duplicates expected)) duplicate_documented
  _ ← check (is_within supported expected) outside_scope
  ok (supported, instructions)

-- `definition_names`, if all are texts.
abbrev definition_names : List Definition → Option (List String)
definition_names [] = some []
definition_names (definition ∷ rest) =
    let later = definition_names rest in
    elim definition.name [
      | none ↦ none
      | some name ↦ elim later [ none ↦ none | some names ↦ some (name ∷ names) ]
    ]

abbrev categories : List (String × Option ℤ) → List String
categories [] = []
categories ((name, _) ∷ rest) = name ∷ categories rest

abbrev all_nonnegative : List (String × Option ℤ) → Bool
all_nonnegative [] = true
all_nonnegative ((_, some (pos _)) ∷ rest) = all_nonnegative rest
all_nonnegative _ = false

-- The sum of the counts that are not negative.
abbrev sum_counts : List (String × Option ℤ) → ℕ
sum_counts [] = 0
sum_counts ((_, some (pos n)) ∷ rest) = n + sum_counts rest
sum_counts (_ ∷ rest) = sum_counts rest

-- The checks of the audit; they find the definitions.
unfoldable pub validate_audit : Option SpaceAudit → Checked ValidationError (List Definition)
validate_audit audit = do
  audit ← present audit no_audit
  definitions ← present audit.classification_definitions no_definitions_or_counts
  counts ← present audit.expected_counts no_definitions_or_counts
  names ← present (definition_names definitions) definitions_differ
  _ ← check (same_set names opcode_classifications) definitions_differ
  _ ← check (not (has_duplicates names)) duplicate_definition
  _ ← check (same_set (categories counts) opcode_classifications) count_categories_differ
  _ ← check (all_nonnegative counts) counts_not_nonnegative
  _ ← check (sum_counts counts == 0x1_0000) counts_do_not_cover
  ok definitions

-- `citation.get("source_id") in source_ids`, for all of the citations.
abbrev all_resolved : List String → List (Option String) → Bool
all_resolved source_ids [] = true
all_resolved source_ids (none ∷ rest) = false
all_resolved source_ids (some name ∷ rest) =
    holds_name name source_ids && all_resolved source_ids rest

abbrev at_least_one : ℤ → Bool
at_least_one (pos n) = not (n == 0)
at_least_one (negsuc n) = false

abbrev opcode_checks : Entry → Validated
opcode_checks entry = elim (validate_opcode entry) [
  | failed e ↦ failed (opcode_error e)
  | ok _ ↦ ok tt
]

-- `entry.get("mnemonic", "<unknown>")`.
abbrev name_or_unknown : EntryRecord → String
name_or_unknown r = if holds_name "mnemonic" r.keys then r.entry.mnemonic else "<unknown>"

abbrev has_all_fields : EntryRecord → Validated
has_all_fields r = elim (missing_of required_instruction_fields r.keys) [
  | [] ↦ ok tt
  | name ∷ names ↦ failed (missing_fields (name_or_unknown r) (sorted_names (name ∷ names)))
]

-- The body of the loop over the instructions.
unfoldable pub validate_entry : List String → EntryRecord → Validated
unfolding validate_opcode sorted_names
validate_entry source_ids r = do
  _ ← has_all_fields r
  _ ←
      check (holds_name r.confidence_level valid_confidence_levels)
        (invalid_confidence r.entry.mnemonic)
  _ ← opcode_checks r.entry
  _ ← check (at_least_one r.documented_cycle_count) (invalid_cycle_count r.entry.mnemonic)
  check (all_resolved source_ids r.source_citations) (unresolved_citation r.entry.mnemonic)

unfoldable pub validate_entries :
    List String → List (Option EntryRecord) → Checked ValidationError (List Entry)
unfolding validate_entry
validate_entries source_ids [] = ok []
validate_entries source_ids (none ∷ rest) = failed entry_not_mapping
validate_entries source_ids (some r ∷ rest) = do
  _ ← validate_entry source_ids r
  entries ← validate_entries source_ids rest
  ok (r.entry ∷ entries)

unfoldable pub validate_definitions : List String → List Definition → Validated
validate_definitions source_ids [] = ok tt
validate_definitions source_ids (definition ∷ rest) = do
  _ ← present definition.meaning meaning_missing
  citations ← present definition.source_citations citations_missing
  _ ← check (all_resolved source_ids citations) (unresolved_definition_citation definition.name)
  validate_definitions source_ids rest

-- The loop over the words, and the counts that it leaves.
unfoldable pub validate_matches : List Entry → Validated
unfolding matches_below never_matched
validate_matches entries = elim (matches_below entries 0x1_0000) [
  | failed e ↦ failed (collision e)
  | ok counts ↦ elim (never_matched counts) [
    | none ↦ ok tt
    | some mnemonic ↦ failed (rejects_every_encoding mnemonic)
  ]
]

unfoldable pub validate_database : List String → Database → Validated
unfolding validate_coverage validate_audit validate_entries validate_definitions validate_matches
validate_database source_ids database = do
  found ← validate_coverage database
  definitions ← validate_audit database.opcode_space_audit
  entries ← validate_entries source_ids found.1
  _ ← validate_definitions source_ids definitions
  _ ← check (same_names (mnemonics entries) found.0) entries_differ
  _ ← check (not (has_duplicates (mnemonics entries))) duplicate_entries
  validate_matches entries
