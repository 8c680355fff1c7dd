-- ===== src/Assembler/WordCounts.antt =====
-- tools/assembler/tms32010_as.py: `word_count` of the entries against TWO_WORD_CONTROL_FLOW.
use tms32010_sv.Base.Cases.{both, absent, some_eq, some_or_none}
use tms32010_sv.Base.{
  ◌≡◌, inl, inr, ◌∙◌, Bool, true, Bool-cases, ◌&&◌, List, [], ◌∷◌, some, ◌==◌, ==_iff,
  if◌then◌else◌,
}
use tms32010_sv.Base.Text.{Text, codes, is, same_codes-eq}
use tms32010_sv.Database.{Entry}
use tms32010_sv.Assembler.Encode.{entry_named}
use tms32010_sv.Assembler.Instruction.{is_two_word}

-- `word_count` of an entry is 2 exactly for the operations of TWO_WORD_CONTROL_FLOW.
abbrev count_agrees : Entry → Bool
count_agrees entry = entry.word_count == (if is_two_word (codes entry.mnemonic) then 2 else 1)

unfoldable pub counts_agree : List Entry → Bool
counts_agree [] = true
counts_agree (entry ∷ rest) = count_agrees entry && counts_agree rest

pub entry_named-count :
    (entries : List Entry) (operation : Text) (entry : Entry)
    → counts_agree entries ≡ true
    → entry_named entries operation ≡ some entry
    → entry.word_count ≡ (if is_two_word operation then 2 else 1)
unfolding entry_named counts_agree
entry_named-count [] operation entry h e = absurd (absent e)
entry_named-count (first ∷ rest) operation entry h e =
    let parts = both (count_agrees first) (counts_agree rest) h in
    elim (some_or_none (entry_named rest operation)) [
      | inr (later, found) ↦
          entry_named-count rest operation entry parts.1 (found ∙ rw (found, entry_named) at e)
      | inl none_later ↦ elim (Bool-cases (is operation first.mnemonic)) [
        | inr other ↦ absurd (absent (rw (none_later, entry_named, other) at e))
        | inl this ↦
            rw
              (
                ← (some_eq (rw (none_later, entry_named, this) at e)),
                same_codes-eq operation (codes first.mnemonic) this,
              )
              ((==_iff _ _).0 parts.0)
      ]
    ]
