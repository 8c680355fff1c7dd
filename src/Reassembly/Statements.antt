-- ===== src/Reassembly/Statements.antt =====
-- tools/assembler/tms32010_as.py: the values behind the words of a line without a label.
use tms32010_sv.Base.Cases.{absent, some_eq, some_or_none}
use tms32010_sv.Base.{
  ℕ, ◌≡◌, inl, inr, refl, true, false, Bool-cases, List, [], ◌∷◌, none, some, leb,
}
use tms32010_sv.Base.Int.{ℤ, pos, negsuc}
use tms32010_sv.Base.Text.{Text, is_empty}
use tms32010_sv.Database.{ok, failed}
use tms32010_sv.Assembler.Source.{SourceLine, Asm, split_label, split_operation, operand_list}
use tms32010_sv.Assembler.Expression.{Names, evaluate}
use tms32010_sv.Assembler.Encode.{Assembler}
use tms32010_sv.Assembler.Instruction.{is_two_word, encode}
use tms32010_sv.Reassembly.Lines.{
  word_value, directive_words, instruction_words, statement_words, line_words,
}

-- Where an expression gives a word.
pub record IsWord (value : Asm ℤ) (n : ℕ) : Type 0 where
  pub same : value ≡ ok (pos n)
  pub fits : leb n 0xFFFF ≡ true

word_value-IsWord : (value : Asm ℤ) (n : ℕ) → word_value value ≡ some n → IsWord value n
word_value-IsWord (ok (pos k)) n h = elim (Bool-cases (leb k 0xFFFF)) [
  | inl fits ↦
      (let same = some_eq (rw fits at h) in record { same = rw same refl; fits = rw (← same) fits })
  | inr beyond ↦ absurd (absent (rw beyond at h))
]
word_value-IsWord (ok (negsuc k)) n h = absurd (absent h)
word_value-IsWord (failed e) n h = absurd (absent h)

module _ (asm : Assembler) (symbols : Names) (location : ℕ) (line : SourceLine) where
  -- The words of `.word`, and of an instruction.
  pub data Directive (operand_text : Text) : List ℕ → Type 0 where
    single_value :
        {n : ℕ} (expression : Text)
        → operand_list operand_text line ≡ ok (expression ∷ [])
        → IsWord (evaluate asm.parse expression symbols location line) n
        → Directive operand_text (n ∷ [])

  pub data Encoded (operation operand_text : Text) : List ℕ → Type 0 where
    one :
        {word : ℕ}
        → encode asm operation symbols location line operand_text ≡ ok word
        → is_two_word operation ≡ false
        → Encoded operation operand_text (word ∷ [])
    two :
        {word n : ℕ}
        → encode asm operation symbols location line operand_text ≡ ok word
        → is_two_word operation ≡ true
        → IsWord (evaluate asm.parse operand_text symbols location line) n
        → Encoded operation operand_text (word ∷ n ∷ [])

  pub directive_words-Directive :
      (operand_text : Text) (operands : Asm (List Text)) {words : List ℕ}
      → operand_list operand_text line ≡ operands
      → directive_words asm symbols location line operands ≡ some words
      → Directive operand_text words
  directive_words-Directive operand_text (failed _) e h = absurd (absent h)
  directive_words-Directive operand_text (ok []) e h = absurd (absent h)
  directive_words-Directive operand_text (ok (_ ∷ _ ∷ _)) e h = absurd (absent h)
  directive_words-Directive operand_text (ok (expression ∷ [])) e h =
      elim (some_or_none (word_value (evaluate asm.parse expression symbols location line))) [
        | inl none_read ↦ absurd (absent (rw none_read at h))
        | inr (n, read) ↦
            rw (← (some_eq (rw read at h))) (single_value expression e (word_value-IsWord _ n read))
      ]

  pub instruction_words-Encoded :
      (operation operand_text : Text) (encoded : Asm ℕ) {words : List ℕ}
      → encode asm operation symbols location line operand_text ≡ encoded
      → instruction_words asm symbols location line operation operand_text encoded ≡ some words
      → Encoded operation operand_text words
  instruction_words-Encoded operation operand_text (failed _) e h = absurd (absent h)
  instruction_words-Encoded operation operand_text (ok word) e h =
      elim (Bool-cases (is_two_word operation)) [
        | inr single ↦ rw (← (some_eq (rw single at h))) (one e single)
        | inl double ↦
            elim (some_or_none
              (word_value (evaluate asm.parse operand_text symbols location line))) [
                | inl none_read ↦ absurd (absent (rw (double, none_read) at h))
                | inr (n, read) ↦
                    rw (← (some_eq (rw (double, read) at h)))
                      (two e double (word_value-IsWord _ n read))
              ]
      ]

-- A line with words has a statement, and no label.
pub data Stated (asm : Assembler) (symbols : Names) (location : ℕ) (line : SourceLine)
    (words : List ℕ) : Type 0 where
  stated :
      (split_label line).1 ≡ none
      → is_empty (split_label line).0 ≡ false
      → (let fields = split_operation (split_label line).0 in
          statement_words asm symbols location line fields.0 fields.1 ≡ some words)
      → Stated asm symbols location line words

pub line_words-Stated :
    (asm : Assembler) (symbols : Names) (location : ℕ) (line : SourceLine) {words : List ℕ}
    → line_words asm symbols location line ≡ some words
    → Stated asm symbols location line words
unfolding line_words
line_words-Stated asm symbols location line h = elim (some_or_none (split_label line).1) [
  | inr (label, named) ↦ absurd (absent (rw (line_words, named) at h))
  | inl unnamed ↦ elim (Bool-cases (is_empty (split_label line).0)) [
    | inl empty ↦ absurd (absent (rw (line_words, unnamed, empty) at h))
    | inr full ↦ stated unnamed full (rw (line_words, unnamed, full) at h)
  ]
]
