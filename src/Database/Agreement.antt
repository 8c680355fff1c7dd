-- ===== src/Database/Agreement.antt =====
-- tools/generators/isa_database.py over the entries of docs/generated/tms32010_isa.yaml, against
-- `_decode` of sim/reference_models/tms32010_model.py.
mod First
mod Second
mod Third
mod Fourth
use tms32010_sv.Base.Cases.{no, both, given, absent, some_eq, some_or_none}
use Prim.Native.String.{String}
use tms32010_sv.Base.{
  ℕ, zero, suc, ◌≤◌, ◌<◌, ◌^◌, ◌*◌, ◌+◌, ◌≡◌, ◌≢◌, ◌⊎◌, inl, inr, refl, sym, ap, ◌∙◌, arith, Bool,
  true, false, ◌&&◌, List, [], ◌∷◌, Option, none, some, same_text, Bool-cases, leb, le→leb, ==_iff,
}
use tms32010_sv.Base.Int.{ℤ, pos, negsuc}
use tms32010_sv.Base.Text.{same_text-eq}
use tms32010_sv.Isa.{Instruction, Operands, mnemonic, decoded_operands}
use tms32010_sv.Decode.{decode}
use tms32010_sv.Database.{same_ℤ, Entry, DatabaseError, Checked, ok, legal_matches, decode_word}
use tms32010_sv.Database.Laws.{verdict, decode_word-verdict}
use tms32010_sv.Database.Validation.{
  names, matching_names, is_collision, collisions_below, matching_names-legal_matches,
}
use tms32010_sv.Database.Entries.{instructions}
use tms32010_sv.Database.Narrow.{same_operands, same_decoding, rows, rows-each}
use First.{first_quarter}
use Second.{second_quarter}
use Third.{third_quarter}
use Fourth.{fourth_quarter}

data Quarter (word : ℕ) : Type 0 where
  first : word < 0x4000 → Quarter word
  second : 0x4000 ≤ word → word < 0x8000 → Quarter word
  third : 0x8000 ≤ word → word < 0xC000 → Quarter word
  fourth : 0xC000 ≤ word → word ≤ 0xFFFF → Quarter word

below_or_above : (a b : ℕ) → (a < b) ⊎ (b ≤ a)
below_or_above a b = ground arith

quarters : (word : ℕ) → word ≤ 0xFFFF → Quarter word
quarters word fits = elim (below_or_above word 0x4000) [
  | inl low ↦ first low
  | inr high ↦ elim (below_or_above word 0x8000) [
    | inl low ↦ second high low
    | inr higher ↦ elim (below_or_above word 0xC000) [
      | inl low ↦ third higher low
      | inr highest ↦ fourth highest fits
    ]
  ]
]

compared :
    (word : ℕ)
    → word ≤ 0xFFFF
    → same_decoding (decode word) (legal_matches instructions word) ≡ true
compared word fits = elim (quarters word fits) [
  | first below ↦ rows-each 0 64 word first_quarter (omega arith) (omega arith)
  | second above below ↦ rows-each 64 64 word second_quarter (omega arith) (omega arith)
  | third above below ↦ rows-each 128 64 word third_quarter (omega arith) (omega arith)
  | fourth above below ↦ rows-each 192 64 word fourth_quarter (omega arith) (omega arith)
]

pub same_ℤ-eq : (a b : ℤ) → same_ℤ a b ≡ true → a ≡ b
same_ℤ-eq (pos m) (pos n) h = ap pos ((==_iff m n).0 h)
same_ℤ-eq (negsuc m) (negsuc n) h = ap negsuc ((==_iff m n).0 h)
same_ℤ-eq (pos m) (negsuc n) h = absurd (no h)
same_ℤ-eq (negsuc m) (pos n) h = absurd (no h)

same_operands-eq : (a b : Operands) → same_operands a b ≡ true → a ≡ b
same_operands-eq [] [] h = refl
same_operands-eq ((a, x) ∷ r) ((b, y) ∷ s) h =
    let first = both (same_text a b && same_ℤ x y) (same_operands r s) h in
    let name_and_value = both (same_text a b) (same_ℤ x y) first.0 in
    rw
      (
        same_text-eq a b name_and_value.0,
        same_ℤ-eq x y name_and_value.1,
        same_operands-eq r s first.1,
      )
      refl
same_operands-eq [] (_ ∷ _) h = absurd (no h)
same_operands-eq (_ ∷ _) [] h = absurd (no h)

-- What `decode_word` answers, by what `_decode` makes of the word.
abbrev pub Agrees : Option Instruction → Checked DatabaseError (Option (Entry × Operands)) → Type 0
Agrees none answer = answer ≡ ok none
Agrees (some i) answer =
    (entry : Entry) × (entry.mnemonic ≡ mnemonic i)
    × (answer ≡ ok (some (entry, decoded_operands i)))

verdict-Agrees :
    (word : ℕ) (found : Option Instruction) (matches : List (Entry × Operands))
    → same_decoding found matches ≡ true
    → Agrees found (verdict matches word)
verdict-Agrees word none [] h = refl
verdict-Agrees word none (_ ∷ _) h = absurd (no h)
verdict-Agrees word (some i) [] h = absurd (no h)
verdict-Agrees word (some i) ((entry, operands) ∷ []) h =
    let parts =
      both (same_text (mnemonic i) entry.mnemonic) (same_operands (decoded_operands i) operands)
        h in
    (
      entry,
      sym (same_text-eq (mnemonic i) entry.mnemonic parts.0),
      ap (λ (o : Operands). ok (some (entry, o)))
          (sym (same_operands-eq (decoded_operands i) operands parts.1)),
    )
verdict-Agrees word (some i) (_ ∷ _ ∷ _) h = absurd (no h)

-- On every word of 16 bits the generic decoder, with the shipped database, and the model's own decoder
-- agree: `decode_word` never raises; it finds no entry exactly where `_decode` rejects the word, and
-- else one entry, of the mnemonic and with the operands of the instruction.
pub decode_word-decode :
    (word : ℕ) → word ≤ 0xFFFF → Agrees (decode word) (decode_word instructions word)
decode_word-decode word fits =
    rw (decode_word-verdict instructions word fits)
      (verdict-Agrees word (decode word) (legal_matches instructions word) (compared word fits))

single :
    (found : Option Instruction) (matches : List (Entry × Operands))
    → same_decoding found matches ≡ true
    → is_collision (names matches) ≡ false
single none [] h = refl
single none (_ ∷ _) h = absurd (no h)
single (some i) [] h = absurd (no h)
single (some i) (_ ∷ []) h = refl
single (some i) (_ ∷ _ ∷ _) h = absurd (no h)

no_collision : (word : ℕ) → word ≤ 0xFFFF → is_collision (matching_names instructions word) ≡ false
no_collision word fits =
    rw (matching_names-legal_matches instructions word)
      (single (decode word) (legal_matches instructions word) (compared word fits))

validated_below : (bound : ℕ) → bound ≤ 0x1_0000 → collisions_below instructions bound ≡ ok tt
unfolding collisions_below
validated_below zero fits = refl
validated_below (suc word) fits =
    rw (validated_below word (omega arith), collisions_below, no_collision word (omega arith)) refl

-- The shipped database passes the check of `validate_database` that no two entries decode one word.
pub instructions-validated : collisions_below instructions 0x1_0000 ≡ ok tt
instructions-validated = validated_below 0x1_0000 (omega arith)
