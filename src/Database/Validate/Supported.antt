-- ===== src/Database/Validate/Supported.antt =====
-- What a database that `validate_database` of tools/generators/isa_database.py accepts can decode.
use Prim.Native.String.{String}
use tms32010_sv.Base.{
  ℕ, ◌≤◌, ◌≡◌, refl, ◌∙◌, sym, ap, Bool, true, false, inl, inr, List, [], ◌∷◌, Option, none, some,
}
use tms32010_sv.Base.Cases.{no, both, some_or_none, given}
use tms32010_sv.Base.Text.{same_text-eq}
use tms32010_sv.Isa.{Operands}
use tms32010_sv.Database.{Entry, ok, decode_word}
use tms32010_sv.Database.Chains.{bind-ok, not_raised, same_value, outcome_cases}
use tms32010_sv.Database.Validation.{decode_word-validated}
use tms32010_sv.Database.Matches.{holds_name, MatchCounts, mnemonics, matches_below, never_matched}
use tms32010_sv.Database.Matches.Laws.{matches_below-table, never_matched-decode_word}
use tms32010_sv.Database.Shape.{Coverage, EntryRecord, Database, ValidationError}
use tms32010_sv.Database.Validate.{
  check, present, same_names, validate_coverage, validate_entries, validate_matches,
  validate_database,
}

-- The opcodes of a database, and the mnemonics that it says it supports.
abbrev opcodes : List (Option EntryRecord) → List Entry
opcodes [] = []
opcodes (none ∷ rest) = opcodes rest
opcodes (some r ∷ rest) = r.entry ∷ opcodes rest

abbrev opcodes_in : Option (List (Option EntryRecord)) → List Entry
opcodes_in none = []
opcodes_in (some rs) = opcodes rs

abbrev pub entries_of : Database → List Entry
entries_of database = opcodes_in database.instructions

abbrev supported_in : Option Coverage → List String
supported_in none = []
supported_in (some coverage) = elim coverage.supported_mnemonics [ none ↦ [] | some names ↦ names ]

abbrev pub supported_of : Database → List String
supported_of database = supported_in database.coverage

present-eq :
    {A : Type 0} (o : Option A) (e : ValidationError) {a : A} → present o e ≡ ok a → o ≡ some a
present-eq none e h = absurd (not_raised h)
present-eq (some a) e h = ap given (same_value h)

same_names-eq : (xs ys : List String) → same_names xs ys ≡ true → xs ≡ ys
same_names-eq [] [] h = refl
same_names-eq [] (y ∷ ys) h = absurd (no h)
same_names-eq (x ∷ xs) [] h = absurd (no h)
same_names-eq (x ∷ xs) (y ∷ ys) h =
    let (first, rest) = both _ _ h in
    let head = same_text-eq x y first in let tail = same_names-eq xs ys rest in cc

found_parts :
    (database : Database) (coverage : Coverage) (instructions : List (Option EntryRecord))
    (supported : List String) {found : List String × List (Option EntryRecord)}
    → database.coverage ≡ some coverage
    → database.instructions ≡ some instructions
    → coverage.supported_mnemonics ≡ some supported
    → (supported, instructions) ≡ found
    → (supported_of database ≡ found.0) × (entries_of database ≡ opcodes found.1)
found_parts database coverage instructions supported covered listed named e = (
  rw (covered, named) (ap (λ (p : List String × List (Option EntryRecord)). p.0) e),
  rw listed (ap (λ (p : List String × List (Option EntryRecord)). opcodes p.1) e),
)

validate_coverage-found :
    (database : Database) {found : List String × List (Option EntryRecord)}
    → validate_coverage database ≡ ok found
    → (supported_of database ≡ found.0) × (entries_of database ≡ opcodes found.1)
unfolding validate_coverage
validate_coverage-found database h =
    let (_, _, h) = bind-ok h in
    let (_, _, h) = bind-ok h in
    let (coverage, covered, h) = bind-ok h in
    let (instructions, listed, h) = bind-ok h in
    let (_, _, h) = bind-ok h in
    let (supported, named, h) = bind-ok h in
    let (_, _, h) = bind-ok h in
    let (_, _, h) = bind-ok h in
    let (_, _, h) = bind-ok h in
    found_parts database coverage instructions supported (present-eq _ _ covered)
      (present-eq _ _ listed) (present-eq _ _ named) (same_value h)

validate_entries-opcodes :
    (source_ids : List String) (rs : List (Option EntryRecord)) {entries : List Entry}
    → validate_entries source_ids rs ≡ ok entries
    → opcodes rs ≡ entries
unfolding validate_entries
validate_entries-opcodes source_ids [] h = same_value h
validate_entries-opcodes source_ids (none ∷ rest) h = absurd (not_raised h)
validate_entries-opcodes source_ids (some r ∷ rest) h =
    let (_, _, h) = bind-ok h in
    let (entries, later, h) = bind-ok h in
    ap (λ (es : List Entry). r.entry ∷ es) (validate_entries-opcodes source_ids rest later)
    ∙ same_value h

validate_matches-counts :
    (entries : List Entry)
    → validate_matches entries ≡ ok tt
    → (counts : MatchCounts) × (matches_below entries 0x1_0000 ≡ ok counts)
      × (never_matched counts ≡ none)
unfolding validate_matches
validate_matches-counts entries h = elim (outcome_cases (matches_below entries 0x1_0000)) [
  | inl (e, refused) ↦ absurd (not_raised (rw (validate_matches, refused) at h))
  | inr (counts, ended) ↦ elim (some_or_none (never_matched counts)) [
    | inl all ↦ (counts, ended, all)
    | inr (name, missing) ↦ absurd (not_raised (rw (validate_matches, ended, missing) at h))
  ]
]

-- What has passed the last checks of `validate_database`.
record Accepted (database : Database) : Type 0 where
  listed : mnemonics (entries_of database) ≡ supported_of database
  counts : MatchCounts
  ended : matches_below (entries_of database) 0x1_0000 ≡ ok counts
  all_matched : never_matched counts ≡ none

check-holds : (b : Bool) (e : ValidationError) → check b e ≡ ok tt → b ≡ true
check-holds true e h = refl
check-holds false e h = absurd (not_raised h)

accepted :
    (database : Database) (entries : List Entry) (found : List String × List (Option EntryRecord))
    → (supported_of database ≡ found.0) × (entries_of database ≡ opcodes found.1)
    → opcodes found.1 ≡ entries
    → same_names (mnemonics entries) found.0 ≡ true
    → validate_matches entries ≡ ok tt
    → Accepted database
accepted database entries found (named, listed) all same matched =
    let whole = listed ∙ all in
    let (counts, ended, none_missed) = validate_matches-counts entries matched in
    record {
      listed = ap mnemonics whole ∙ same_names-eq _ _ same ∙ sym named;
      counts = counts;
      ended = rw whole ended;
      all_matched = none_missed;
    }

validate_database-Accepted :
    (source_ids : List String) (database : Database)
    → validate_database source_ids database ≡ ok tt
    → Accepted database
unfolding validate_database
validate_database-Accepted source_ids database h =
    let (found, covered, h) = bind-ok h in
    let (_, _, h) = bind-ok h in
    let (entries, listed, h) = bind-ok h in
    let (_, _, h) = bind-ok h in
    let (_, same, h) = bind-ok h in
    let (_, _, h) = bind-ok h in
    accepted database entries found (validate_coverage-found database covered)
      (validate_entries-opcodes source_ids found.1 listed) (check-holds _ _ same) h

-- In a database that `validate_database` accepts, no supported mnemonic is empty: there is a word of 16
-- bits of which `decode_word` returns the entry of that mnemonic, and no other.
pub decode_word-supported :
    (source_ids : List String) (database : Database) (name : String)
    → validate_database source_ids database ≡ ok tt
    → holds_name name (supported_of database) ≡ true
    → (word : ℕ) × (entry : Entry) × (operands : Operands) × (word ≤ 0xFFFF)
      × (decode_word (entries_of database) word ≡ ok (some (entry, operands)))
      × (entry.mnemonic ≡ name)
decode_word-supported source_ids database name h supported =
    let a = validate_database-Accepted source_ids database h in
    never_matched-decode_word (entries_of database) a.counts name a.ended a.all_matched
      (rw a.listed supported)

-- A database that `validate_database` accepts decodes every word of 16 bits without an error, to an
-- entry or to none.
pub decode_word-accepted :
    (source_ids : List String) (database : Database) (word : ℕ)
    → validate_database source_ids database ≡ ok tt
    → word ≤ 0xFFFF
    → (found : Option (Entry × Operands)) × (decode_word (entries_of database) word ≡ ok found)
decode_word-accepted source_ids database word h fits =
    let a = validate_database-Accepted source_ids database h in
    decode_word-validated (entries_of database) word
      (matches_below-table (entries_of database) 0x1_0000 a.counts a.ended).0 fits
