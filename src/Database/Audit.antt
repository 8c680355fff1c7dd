-- ===== src/Database/Audit.antt =====
-- tools/generators/isa_database.py: `audit_opcode_space`, the counts of the classes of all words.
use tms32010_sv.Base.{
  ℕ, zero, suc, ◌+◌, ◌≤◌, ◌≡◌, ◌≢◌, refl, ◌∙◌, ap, arith, List, [], ◌∷◌, Option, le→leb,
}
use tms32010_sv.Isa.{Operands}
use tms32010_sv.Database.{
  Entry, DatabaseError, Checked, ok, failed, Classification, documented_legal,
  primary_reserved_indirect_field, unresolved_simultaneous_update, documented_pattern_mismatch,
  primary_unlisted_encoding, legal_matches, classify_undecoded, classify_word, decode_word,
}
use tms32010_sv.Database.Laws.{verdict, class_of, decode_word-verdict}
use tms32010_sv.Database.Validation.{collisions_below, decode_word-validated}

-- The dictionary of counts.
pub record Counts : Type 0 where
  pub legal : ℕ
  pub reserved : ℕ
  pub simultaneous : ℕ
  pub mismatch : ℕ
  pub unlisted : ℕ

abbrev pub no_counts : Counts
no_counts = record { legal = 0; reserved = 0; simultaneous = 0; mismatch = 0; unlisted = 0 }

-- `counts[classification] += 1`.
unfoldable pub counted : Counts → Classification → Counts
counted counts (documented_legal _ _) = record counts { legal = suc counts.legal }
counted counts (primary_reserved_indirect_field _) = record counts {
  reserved = suc counts.reserved;
}
counted counts (unresolved_simultaneous_update _) = record counts {
  simultaneous = suc counts.simultaneous;
}
counted counts (documented_pattern_mismatch _) = record counts { mismatch = suc counts.mismatch }
counted counts primary_unlisted_encoding = record counts { unlisted = suc counts.unlisted }

-- The loop over the words below a bound.
unfoldable pub audit_below : List Entry → ℕ → Checked DatabaseError Counts
unfolding classify_word counted
audit_below entries zero = ok no_counts
audit_below entries (suc word) = elim (audit_below entries word) [
  | failed e ↦ failed e
  | ok counts ↦ elim (classify_word entries word) [
    | failed e ↦ failed e
    | ok classification ↦ ok (counted counts classification)
  ]
]

unfoldable pub audit_opcode_space : List Entry → Checked DatabaseError Counts
unfolding audit_below
audit_opcode_space entries = audit_below entries 0x1_0000

abbrev pub total : Counts → ℕ
total counts =
    counts.legal + counts.reserved + counts.simultaneous + counts.mismatch + counts.unlisted

total-counted :
    (counts : Counts) (c : Classification) → total (counted counts c) ≡ suc (total counts)
unfolding counted
total-counted counts (documented_legal _ _) = omega arith
total-counted counts (primary_reserved_indirect_field _) = omega arith
total-counted counts (unresolved_simultaneous_update _) = omega arith
total-counted counts (documented_pattern_mismatch _) = omega arith
total-counted counts primary_unlisted_encoding = omega arith

abbrev returns : {A : Type 0} → A → Checked DatabaseError A
returns a = ok a

abbrev raises : {A : Type 0} → DatabaseError → Checked DatabaseError A
raises e = failed e

not_raised : {A : Type 0} {e : DatabaseError} {a : A} → raises e ≢ returns a
not_raised h = cc

class_of-verdict :
    (matches : List (Entry × Operands)) (undecoded : Classification) (word : ℕ)
    {found : Option (Entry × Operands)}
    → verdict matches word ≡ ok found
    → (c : Classification) × (class_of matches undecoded word ≡ ok c)
class_of-verdict [] undecoded word h = (undecoded, refl)
class_of-verdict ((entry, operands) ∷ []) undecoded word h = (documented_legal entry operands, refl)
class_of-verdict (_ ∷ _ ∷ _) undecoded word h = absurd (not_raised h)

-- Where `decode_word` does not raise, `classify_word` does not.
classify_word-decode_word :
    (entries : List Entry) (word : ℕ) {found : Option (Entry × Operands)}
    → word ≤ 0xFFFF
    → decode_word entries word ≡ ok found
    → (c : Classification) × (classify_word entries word ≡ ok c)
unfolding classify_word
classify_word-decode_word entries word fits h =
    let (c, e) =
      class_of-verdict (legal_matches entries word) (classify_undecoded entries word) word
        (rw (decode_word-verdict entries word fits) at h) in
    (c, rw (le→leb word 0xFFFF fits) e)

audit_below-total :
    (entries : List Entry) (bound : ℕ)
    → collisions_below entries 0x1_0000 ≡ ok tt
    → bound ≤ 0x1_0000
    → (counts : Counts) × (audit_below entries bound ≡ ok counts) × (total counts ≡ bound)
unfolding audit_below
audit_below-total entries zero valid fits = (no_counts, refl, refl)
audit_below-total entries (suc word) valid fits =
    let (counts, e, sum) = audit_below-total entries word valid (omega arith) in
    let (found, decoded) = decode_word-validated entries word valid (omega arith) in
    let (c, classified) = classify_word-decode_word entries word (omega arith) decoded in
    (counted counts c, rw (e, audit_below, classified) refl, total-counted counts c ∙ ap suc sum)

-- For a database that passes the collision check of `validate_database`, the audit ends without an
-- error, and its five counts add up to the number of words.
pub audit_opcode_space-total :
    (entries : List Entry)
    → collisions_below entries 0x1_0000 ≡ ok tt
    → (counts : Counts) × (audit_opcode_space entries ≡ ok counts) × (total counts ≡ 0x1_0000)
unfolding audit_opcode_space
audit_opcode_space-total entries valid = audit_below-total entries 0x1_0000 valid (omega arith)
