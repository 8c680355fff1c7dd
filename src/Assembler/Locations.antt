-- ===== src/Assembler/Locations.antt =====
-- tools/assembler/tms32010_as.py: a line moves the location alike in the two passes.
use tms32010_sv.Base.Cases.{absent, some_or_none}
use tms32010_sv.Base.{
  ℕ, suc, ◌+◌, ◌≡◌, inl, inr, refl, sym, ◌∙◌, ap, arith, true, false, Bool-cases, leb, List, [],
  ◌∷◌, Option, none, some, length, if◌then◌else◌,
}
use tms32010_sv.Base.Int.{ℤ, pos}
use tms32010_sv.Base.Text.{Text, is, is_empty, same_codes, same_codes-eq}
use tms32010_sv.Database.{Entry, ok}
use tms32010_sv.Assembler.Source.{
  SourceLine, program_words, checked_location, split_label, split_operation,
}
use tms32010_sv.Assembler.Expression.{Names, lookup}
use tms32010_sv.Assembler.Encode.{Assembler, entry_named, entry_of}
use tms32010_sv.Assembler.Instruction.{is_two_word}
use tms32010_sv.Assembler.WordCounts.{counts_agree, entry_named-count}
use tms32010_sv.Assembler.Passes.{
  First, Second, add_label, advance, first_line, first_pass, word_values, emit_words,
  emit_instruction, second_statement,
}
use tms32010_sv.Assembler.Inversion.{not_raised, same_value, bind-ok}
use tms32010_sv.Assembler.Monotone.{Extends, evaluate-Extends}

-- A new name hides nothing.
added_keeps :
    (label : Text) (symbols : Names) (place : ℤ)
    → lookup label symbols ≡ none
    → (key : Text) (value : ℤ) → lookup key symbols ≡ some value
    → lookup key ((label, place) ∷ symbols) ≡ some value
unfolding lookup
added_keeps label symbols place new key value found = elim (Bool-cases (same_codes label key)) [
  | inl same ↦ absurd (absent (sym (rw (same_codes-eq label key same) at new) ∙ found))
  | inr other ↦ rw (other, lookup) found
]

pub added-Extends :
    (label : Option Text) (state : First) (line : SourceLine) {symbols : Names}
    → add_label label state line ≡ ok symbols
    → Extends state.symbols symbols
unfolding add_label
added-Extends none state line h = rw (same_value h) record { keeps = λ key value found. found }
added-Extends (some label) state line h = elim (some_or_none (lookup label state.symbols)) [
  | inr (old, used) ↦ absurd (not_raised (rw (used, add_label) at h))
  | inl new ↦
      rw (← (same_value (rw (new, add_label) at h)))
        record { keeps = added_keeps label state.symbols (pos state.location) new }
]

module _ (asm : Assembler) where
  -- The two ways in which a line ends in the first pass.
  pub data FirstLine (line : SourceLine) (state next : First) : Type 0 where
    bare :
        is_empty (split_label line).0 ≡ true
        → next.location ≡ state.location
        → FirstLine line state next
    with_statement :
        is_empty (split_label line).0 ≡ false
        → advance asm next.symbols state.location
            (split_operation (split_label line).0).0
            (split_operation (split_label line).0).1
            line
          ≡ ok next.location
        → FirstLine line state next

  pub first_line-ok :
      (line : SourceLine) (state next : First)
      → first_line asm line state ≡ ok next
      → (add_label (split_label line).1 state line ≡ ok next.symbols) × FirstLine line state next
  unfolding first_line
  first_line-ok line state next h =
      let (symbols, added, rest) = bind-ok h in
      elim (Bool-cases (is_empty (split_label line).0)) [
        | inl empty ↦
            (let same = same_value (rw empty at rest) in rw (← same) (added, bare empty refl))
        | inr full ↦
            (let (location, advanced, last) = bind-ok (rw full at rest) in
              rw (← (same_value last)) (added, with_statement full advanced))
      ]

  Extends-refl : (symbols : Names) → Extends symbols symbols
  Extends-refl symbols = record { keeps = λ key value found. found }

  Extends-trans : {a b c : Names} → Extends a b → Extends b c → Extends a c
  Extends-trans p q = record {
    keeps = λ key value found. q.keeps key value (p.keeps key value found);
  }

  pub first_pass-Extends :
      (lines : List SourceLine) (state final : First)
      → first_pass asm lines state ≡ ok final
      → Extends state.symbols final.symbols
  unfolding first_pass
  first_pass-Extends [] state final h = rw (same_value h) (Extends-refl final.symbols)
  first_pass-Extends (line ∷ rest) state final h =
      let (next, one, others) = bind-ok h in
      Extends-trans
        (added-Extends (split_label line).1 state line (first_line-ok line state next one).0)
        (first_pass-Extends rest next final others)

  word_values-length :
      (symbols : Names) (location : ℕ) (operands : List Text) (line : SourceLine) (values : List ℤ)
      → word_values asm symbols location operands line ≡ ok values
      → length values ≡ length operands
  unfolding word_values
  word_values-length symbols location [] line values h = rw (← (same_value h)) refl
  word_values-length symbols location (expression ∷ rest) line values h =
      let (value, _, more) = bind-ok h in
      let (later, evaluated, last) = bind-ok more in
      rw (← (same_value last))
        (ap suc (word_values-length symbols (suc location) rest line later evaluated))

  emit_words-location :
      (values : List ℤ) (state : Second) (line : SourceLine) (next : Second)
      → emit_words asm values state line ≡ ok next
      → next.location ≡ state.location + length values
  unfolding emit_words
  emit_words-location [] state line next h = rw (same_value h) (omega arith)
  emit_words-location (value ∷ values) state line next h =
      let (_, _, emitting) = bind-ok h in
      let (output, _, more) = bind-ok emitting in
      let later = emit_words-location values _ line next more in omega (arith, later)

module _ (asm : Assembler) (agree : counts_agree asm.entries ≡ true) where
  entry_of-count :
      (operation : Text) (line : SourceLine) (entry : Entry)
      → entry_of asm operation line ≡ ok entry
      → entry.word_count ≡ (if is_two_word operation then 2 else 1)
  unfolding entry_of
  entry_of-count operation line entry h = elim (some_or_none (entry_named asm.entries operation)) [
    | inl fails ↦ absurd (not_raised (rw (fails, entry_of) at h))
    | inr (found, e) ↦
        entry_named-count asm.entries operation entry agree
          (rw (same_value (rw (e, entry_of) at h)) at e)
  ]

  emit_instruction-location :
      (symbols : Names) (operation operand_text : Text) (state : Second) (line : SourceLine)
      (next : Second)
      → emit_instruction asm symbols operation operand_text state line ≡ ok next
      → next.location ≡ state.location + (if is_two_word operation then 2 else 1)
  unfolding emit_instruction
  emit_instruction-location symbols operation operand_text state line next h =
      let (word, _, emitting) = bind-ok h in
      let (output, _, more) = bind-ok emitting in
      elim (Bool-cases (is_two_word operation)) [
        | inr one ↦ rw (one, ← (same_value (rw one at more))) (omega arith)
        | inl two ↦
            (let (target, _, last) = bind-ok (rw two at more) in
              let (all, _, end) = bind-ok last in rw (two, ← (same_value end)) (omega arith))
      ]

  checked_location-eq :
      (n : ℕ) (line : SourceLine) (location : ℕ)
      → checked_location n line ≡ ok location
      → n ≡ location
  unfolding checked_location
  checked_location-eq n line location h = elim (Bool-cases (leb n program_words)) [
    | inl fits ↦ same_value (rw (fits, checked_location) at h)
    | inr beyond ↦ absurd (not_raised (rw (beyond, checked_location) at h))
  ]

  -- A statement moves the location alike in both passes.
  pub second_statement-location :
      {symbols more : Names} (operation operand_text : Text) (state : Second) (line : SourceLine)
      (location : ℕ) (next : Second)
      → Extends symbols more
      → advance asm symbols state.location operation operand_text line ≡ ok location
      → second_statement asm more operation operand_text state line ≡ ok next
      → next.location ≡ location
  unfolding advance second_statement
  second_statement-location {symbols} {more} operation operand_text state line location next h a s =
      elim (Bool-cases (is operation ".ORG")) [
        | inl org ↦
            (let (value, evaluated, checked) = bind-ok (rw org at a) in
              let (again, evaluated_again, rest) = bind-ok (rw org at s) in
              let (place, checked_again, last) = bind-ok rest in
              let same = same_value (
                sym (evaluate-Extends asm.parse operand_text state.location line value h evaluated)
                ∙ evaluated_again) in
              rw (← (same_value last)) (same_value (sym checked_again ∙ rw same at checked)))
        | inr other ↦ elim (Bool-cases (is operation ".WORD")) [
          | inl word ↦
              (let (operands, listed, checked) = bind-ok (rw (other, word) at a) in
                let (again, listed_again, rest) = bind-ok (rw (other, word) at s) in
                let (values, evaluated, emitted) = bind-ok rest in
                let same = same_value (sym listed ∙ listed_again) in
                let moved = emit_words-location asm values state line next emitted in
                let sizes =
                  word_values-length asm more state.location again line values evaluated in
                moved
                ∙ ap (λ (n : ℕ). state.location + n) (sizes ∙ ap length (sym same))
                ∙ checked_location-eq _ line location checked)
          | inr instruction ↦
              (let (_, _, entered) = bind-ok (rw (other, instruction) at a) in
                let (entry, found, checked) = bind-ok entered in
                let moved =
                  emit_instruction-location more operation operand_text state line next
                    (rw (other, instruction) at s) in
                moved
                ∙ ap (λ (n : ℕ). state.location + n)
                    (sym (entry_of-count operation line entry found))
                ∙ checked_location-eq _ line location checked)
        ]
      ]
