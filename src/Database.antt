-- ===== src/Database.antt =====
-- tools/generators/isa_database.py: `decode_entry`, `decode_word` and `classify_word` over the entries
-- of a loaded database, which are a parameter. A word is a natural number, and the numbers of the
-- database have been parsed.
pub mod Laws
pub mod Chains
pub mod Validation
pub mod Entries
pub mod Narrow
pub mod Agreement
pub mod Audit
pub mod Opcode
pub mod Fields
pub mod Lossless
pub mod Matches
pub mod Shape
pub mod Validate
use Prim.Native.String.{String, compare as compare_text}
use Prim.Native.Nat.{Ordering}
use tms32010_sv.Base.{
  ℕ, ◌+◌, ◌-◌, ◌/◌, ◌^◌, bit_and, Bool, true, false, not, ◌&&◌, ◌||◌, List, [], ◌∷◌, ◌==◌, leb,
  same_text, if◌then◌else◌, Option, none, some,
}
use tms32010_sv.Base.Int.{ℤ, pos, sub_ℕ}
use tms32010_sv.Isa.{Operands}

-- `{"mask": …, "match": …}`.
pub record Pattern : Type 0 where
  pub mask : ℕ
  pub value : ℕ

-- The action of a constraint.
pub data Action : Type 0 where
  needs forbids : Pattern → Action

pub record Constraint : Type 0 where
  pub when : Pattern
  pub action : Action

pub record Field : Type 0 where
  pub name : String
  pub lsb : ℕ
  pub width : ℕ
  pub signed : Bool
  pub legal_values : Option (List ℤ)

-- `optional_operands` has "optional" of each operand, and `word_count` is 1 where the entry has none.
pub record Entry : Type 0 where
  pub mnemonic : String
  pub optional_operands : List Bool
  pub word_count : ℕ
  pub opcode : Pattern
  pub audit_envelope : Option Pattern
  pub constraints : List Constraint
  pub variable_fields : List Field

pub data DatabaseError : Type 0 where
  word_out_of_range ambiguous_decode : ℕ → DatabaseError

-- A value, or an exception.
pub data Checked (E A : Type 0) : Type 0 where
  ok : A → Checked E A
  failed : E → Checked E A

-- `word & mask == match`.
abbrev pub agrees : Pattern → ℕ → Bool
agrees p word = bit_and word p.mask == p.value

-- `word & mask == match & mask`.
abbrev pub matches_masked : Pattern → ℕ → Bool
matches_masked p word = bit_and word p.mask == bit_and p.value p.mask

abbrev action_holds : Action → ℕ → Bool
action_holds (Action.needs p) word = agrees p word
action_holds (Action.forbids p) word = not (agrees p word)

-- The loop over the constraints: none of them rejects the word.
unfoldable pub constraints_hold : List Constraint → ℕ → Bool
constraints_hold [] word = true
constraints_hold (c ∷ rest) word =
    (not (agrees c.when word) || action_holds c.action word) && constraints_hold rest word

-- `(word >> lsb) & ((1 << width) - 1)`, and the same with its sign.
abbrev pub field_raw : Field → ℕ → ℕ
field_raw f word = bit_and (word / 2 ^ f.lsb) (2 ^ f.width - 1)

abbrev pub field_value : Field → ℕ → ℤ
field_value f word =
    let raw = field_raw f word in
    if f.signed && not (bit_and raw (2 ^ (f.width - 1)) == 0)
    then sub_ℕ raw (2 ^ f.width)
    else pos raw

abbrev pub same_ℤ : ℤ → ℤ → Bool
same_ℤ (pos m) (pos n) = m == n
same_ℤ (ℤ.negsuc m) (ℤ.negsuc n) = m == n
same_ℤ _ _ = false

abbrev among : ℤ → List ℤ → Bool
among x [] = false
among x (y ∷ ys) = same_ℤ x y || among x ys

abbrev pub is_legal_value : Option (List ℤ) → ℤ → Bool
is_legal_value none x = true
is_legal_value (some xs) x = among x xs

-- `fields[name] = value`: a name that is there keeps its place, and gets the value.
unfoldable pub set_field : String → ℤ → Operands → Operands
set_field name value [] = (name, value) ∷ []
set_field name value ((other, old) ∷ rest) =
    let later = set_field name value rest in
    if same_text name other then (other, value) ∷ rest else (other, old) ∷ later

-- The loop over the variable fields, with the dictionary `fields` so far.
unfoldable pub decode_fields : List Field → ℕ → Operands → Option Operands
unfolding set_field
decode_fields [] word fields = some fields
decode_fields (f ∷ rest) word fields =
    let value = field_value f word in
    let later = decode_fields rest word (set_field f.name value fields) in
    if is_legal_value f.legal_values value then later else none

-- `decode_entry` on a word of 16 bits.
unfoldable pub decode_entry : Entry → ℕ → Option Operands
unfolding constraints_hold decode_fields
decode_entry entry word =
    if matches_masked entry.opcode word && constraints_hold entry.constraints word
    then decode_fields entry.variable_fields word []
    else none

-- The entries that decode the word, in the order of the database.
unfoldable pub legal_matches : List Entry → ℕ → List (Entry × Operands)
legal_matches [] word = []
legal_matches (entry ∷ rest) word =
    let later = legal_matches rest word in
    elim (decode_entry entry word) [ none ↦ later | some operands ↦ (entry, operands) ∷ later ]

-- `decode_word`. With no entry at all, `decode_entry` never checks the range.
unfoldable pub decode_word : List Entry → ℕ → Checked DatabaseError (Option (Entry × Operands))
unfolding legal_matches
decode_word [] word = ok none
decode_word entries word =
    if leb word 0xFFFF
    then elim (legal_matches entries word) [
      | [] ↦ ok none
      | found ∷ [] ↦ ok (some found)
      | _ ∷ _ ∷ _ ↦ failed (ambiguous_decode word)
    ]
    else failed (word_out_of_range word)

-- The dictionary from names to fields: the last field of a name is the one that stays.
abbrev field_named : String → List Field → Option Field
field_named name [] = none
field_named name (f ∷ rest) = elim (field_named name rest) [
  | some later ↦ some later
  | none ↦ if same_text f.name name then some f else none
]

abbrev all_raw_legal : List Field → ℕ → Bool
all_raw_legal [] word = true
all_raw_legal (f ∷ rest) word =
    is_legal_value f.legal_values (pos (field_raw f word)) && all_raw_legal rest word

-- What the second loop of `classify_word` finds of an entry.
pub data Candidate : Type 0 where
  reserved simultaneous neither : Candidate

unfoldable pub candidate : Entry → ℕ → Candidate
candidate entry word = elim (field_named "indirect" entry.variable_fields) [
  | none ↦ Candidate.neither
  | some indirect_field ↦ elim (field_named "addressing_field" entry.variable_fields) [
    | none ↦ Candidate.neither
    | some address_field ↦
        (let address = field_raw address_field word in
          if bit_and (word / 2 ^ indirect_field.lsb) 1 == 0
          then Candidate.neither
          else if not (bit_and address 0x46 == 0)
          then Candidate.reserved
          else if bit_and address 0x30 == 0x30 && all_raw_legal entry.variable_fields word
          then Candidate.simultaneous
          else Candidate.neither)
  ]
]

-- `sorted(set(names))`.
abbrev insert_name : String → List String → List String
insert_name x [] = x ∷ []
insert_name x (y ∷ ys) =
    let later = insert_name x ys in
    elim (compare_text x y) [
      | Ordering.lt ↦ x ∷ y ∷ ys
      | Ordering.eq ↦ y ∷ ys
      | Ordering.gt ↦ y ∷ later
    ]

unfoldable pub sorted_names : List String → List String
sorted_names [] = []
sorted_names (x ∷ xs) = insert_name x (sorted_names xs)

-- The mnemonics of the entries that pass a test.
unfoldable pub names_where : (Entry → Bool) → List Entry → List String
names_where test [] = []
names_where test (entry ∷ rest) =
    let later = names_where test rest in if test entry then entry.mnemonic ∷ later else later

abbrev in_pattern : ℕ → Entry → Bool
in_pattern word entry = elim entry.audit_envelope [
  | none ↦ matches_masked entry.opcode word
  | some envelope ↦ matches_masked envelope word
]

abbrev pub is_reserved : ℕ → Entry → Bool
is_reserved word entry =
    matches_masked entry.opcode word
    && elim (candidate entry word) [ Candidate.reserved ↦ true | _ ↦ false ]

abbrev pub is_simultaneous : ℕ → Entry → Bool
is_simultaneous word entry =
    matches_masked entry.opcode word
    && elim (candidate entry word) [ Candidate.simultaneous ↦ true | _ ↦ false ]

-- OPCODE_CLASSIFICATIONS, with what each comes with.
pub data Classification : Type 0 where
  documented_legal : Entry → Operands → Classification
  primary_reserved_indirect_field : List String → Classification
  unresolved_simultaneous_update : List String → Classification
  documented_pattern_mismatch : List String → Classification
  primary_unlisted_encoding : Classification

-- The class of a word that no entry decodes, from the three sorted lists of candidates.
unfoldable pub undecoded_class : List String → List String → List String → Classification
undecoded_class (name ∷ names) _ _ = Classification.primary_reserved_indirect_field (name ∷ names)
undecoded_class [] (name ∷ names) _ = Classification.unresolved_simultaneous_update (name ∷ names)
undecoded_class [] [] (name ∷ names) = Classification.documented_pattern_mismatch (name ∷ names)
undecoded_class [] [] [] = Classification.primary_unlisted_encoding

unfoldable pub classify_undecoded : List Entry → ℕ → Classification
unfolding sorted_names names_where candidate undecoded_class
classify_undecoded entries word =
    undecoded_class (sorted_names (names_where (is_reserved word) entries))
      (sorted_names (names_where (is_simultaneous word) entries))
      (sorted_names (names_where (in_pattern word) entries))

unfoldable pub classify_word : List Entry → ℕ → Checked DatabaseError Classification
unfolding legal_matches classify_undecoded
classify_word entries word =
    if leb word 0xFFFF
    then elim (legal_matches entries word) [
      | [] ↦ ok (classify_undecoded entries word)
      | (entry, operands) ∷ [] ↦ ok (Classification.documented_legal entry operands)
      | _ ∷ _ ∷ _ ↦ failed (ambiguous_decode word)
    ]
    else failed (word_out_of_range word)
