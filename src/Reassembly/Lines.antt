-- ===== src/Reassembly/Lines.antt =====
-- The words that a line without a label gives, at any location.
use tms32010_sv.Base.{ℕ, List, [], ◌∷◌, Option, none, some, leb, if◌then◌else◌}
use tms32010_sv.Base.Int.{ℤ, pos}
use tms32010_sv.Base.Text.{Text, is, is_empty}
use tms32010_sv.Database.{ok, failed}
use tms32010_sv.Assembler.Source.{SourceLine, Asm, split_label, split_operation, operand_list}
use tms32010_sv.Assembler.Expression.{Names, evaluate}
use tms32010_sv.Assembler.Encode.{Assembler}
use tms32010_sv.Assembler.Instruction.{is_two_word, encode}

-- The value of an expression, if it is a word.
abbrev pub word_value : Asm ℤ → Option ℕ
word_value (ok (pos n)) = if leb n 0xFFFF then some n else none
word_value _ = none

abbrev pub one_word : Option ℕ → Option (List ℕ)
one_word none = none
one_word (some n) = some (n ∷ [])

abbrev pub two_words : ℕ → Option ℕ → Option (List ℕ)
two_words word none = none
two_words word (some n) = some (word ∷ n ∷ [])

module _ (asm : Assembler) (symbols : Names) (location : ℕ) (line : SourceLine) where
  abbrev pub directive_words : Asm (List Text) → Option (List ℕ)
  directive_words (failed _) = none
  directive_words (ok []) = none
  directive_words (ok (expression ∷ [])) =
      one_word (word_value (evaluate asm.parse expression symbols location line))
  directive_words (ok (_ ∷ _ ∷ _)) = none

  abbrev pub instruction_words : Text → Text → Asm ℕ → Option (List ℕ)
  instruction_words operation operand_text (failed _) = none
  instruction_words operation operand_text (ok word) =
      if is_two_word operation
      then two_words word (word_value (evaluate asm.parse operand_text symbols location line))
      else some (word ∷ [])

  abbrev pub statement_words : Text → Text → Option (List ℕ)
  statement_words operation operand_text =
      if is operation ".ORG"
      then none
      else if is operation ".WORD"
      then directive_words (operand_list operand_text line)
      else instruction_words operation operand_text
          (encode asm operation symbols location line operand_text)

  unfoldable pub line_words : Option (List ℕ)
  unfolding split_label split_operation operand_list evaluate encode is_two_word
  line_words =
      let parts = split_label line in
      elim parts.1 [
        | some _ ↦ none
        | none ↦
            if is_empty parts.0
            then none
            else (let fields = split_operation parts.0 in statement_words fields.0 fields.1)
      ]
