-- ===== src/Assembler/Passes.antt =====
-- tools/assembler/tms32010_as.py: `_assemble`, the two passes over the lines, and `_emit`.
use tms32010_sv.Base.{
  ℕ, suc, ◌+◌, Bool, true, false, ◌||◌, List, [], ◌∷◌, ◌++◌, Option, none, some, ltb, leb, ◌==◌,
  if◌then◌else◌, length,
}
use tms32010_sv.Base.Int.{ℤ, pos, negsuc}
use tms32010_sv.Base.Text.{Text, is, is_empty}
use tms32010_sv.Database.{ok}
use tms32010_sv.Assembler.Source.{
  SourceLine, Asm, ◌>>=◌, error, require, operand_list, split_label, split_operation,
  checked_address, checked_location, program_words, duplicate_label, word_out_of_range,
  address_out_of_range, address_in_use,
}
use tms32010_sv.Assembler.Expression.{Names, lookup, evaluate}
use tms32010_sv.Assembler.Encode.{Assembler, entry_of, validate_instruction_shape}
use tms32010_sv.Assembler.Instruction.{is_two_word, encode}

pub record ListingRow : Type 0 where
  pub address : ℕ
  pub word : ℤ
  pub source : SourceLine

-- The dictionary of words, in the order of its keys' insertion, and the listing.
pub record Output : Type 0 where
  pub words : List (ℕ × ℤ)
  pub listing : List ListingRow

pub record AssemblyResult : Type 0 where
  pub output : Output
  pub symbols : Names

-- What the first pass carries from line to line, and what the second does.
pub record First : Type 0 where
  pub symbols : Names
  pub location : ℕ

pub record Second : Type 0 where
  pub output : Output
  pub location : ℕ

abbrev pub first_start : First
first_start = record { symbols = []; location = 0 }

abbrev pub second_start : Second
second_start = record { output = record { words = []; listing = [] }; location = 0 }

-- `address in words`.
unfoldable pub holds_word : ℕ → List (ℕ × ℤ) → Bool
holds_word address [] = false
holds_word address ((other, _) ∷ rest) = other == address || holds_word address rest

-- `_emit`.
unfoldable pub emit : Output → ℕ → ℤ → SourceLine → Asm Output
unfolding holds_word
emit output address word line =
    require line (ltb address program_words) (address_out_of_range (pos address)) >>= λ _.
    elim (holds_word address output.words) [
      | true ↦ error line (address_in_use address)
      | false ↦ ok record {
        words = output.words ++ ((address, word) ∷ []);
        listing = output.listing ++ (record { address = address; word = word; source = line } ∷ []);
      }
    ]

-- `symbols[label] = location`, if the line has a label.
unfoldable pub add_label : Option Text → First → SourceLine → Asm Names
unfolding lookup
add_label none state line = ok state.symbols
add_label (some label) state line = elim (lookup label state.symbols) [
  | some _ ↦ error line (duplicate_label label)
  | none ↦ ok ((label, pos state.location) ∷ state.symbols)
]

-- `0 <= value <= 0xFFFF`.
abbrev pub is_word_value : ℤ → Bool
is_word_value (pos n) = leb n 0xFFFF
is_word_value (negsuc n) = false

module _ (asm : Assembler) where
  -- The location after a statement, in the first pass.
  unfoldable pub advance : Names → ℕ → Text → Text → SourceLine → Asm ℕ
  unfolding evaluate operand_list validate_instruction_shape entry_of checked_address
      checked_location
  advance symbols location operation operand_text line =
      if is operation ".ORG"
      then (evaluate asm.parse operand_text symbols location line >>= λ value.
          checked_address value line)
      else if is operation ".WORD"
      then (operand_list operand_text line >>= λ operands.
          checked_location (location + length operands) line)
      else (validate_instruction_shape asm operation operand_text line >>= λ _.
          entry_of asm operation line >>= λ entry.
          checked_location (location + entry.word_count) line)

  unfoldable pub first_line : SourceLine → First → Asm First
  unfolding split_label split_operation add_label advance
  first_line line state =
      let parts = split_label line in
      let fields = split_operation parts.0 in
      add_label parts.1 state line >>= λ symbols.
      if is_empty parts.0
      then ok record { symbols = symbols; location = state.location }
      else (advance symbols state.location fields.0 fields.1 line >>= λ location.
          ok record { symbols = symbols; location = location })

  unfoldable pub first_pass : List SourceLine → First → Asm First
  unfolding first_line
  first_pass [] state = ok state
  first_pass (line ∷ rest) state = first_line line state >>= λ next. first_pass rest next

  -- The values of a `.WORD`, each at its own location, and the loop that emits them.
  unfoldable pub word_values : Names → ℕ → List Text → SourceLine → Asm (List ℤ)
  unfolding evaluate
  word_values symbols location [] line = ok []
  word_values symbols location (expression ∷ rest) line =
      evaluate asm.parse expression symbols location line >>= λ value.
      word_values symbols (suc location) rest line >>= λ values. ok (value ∷ values)

  unfoldable pub emit_words : List ℤ → Second → SourceLine → Asm Second
  unfolding emit
  emit_words [] state line = ok state
  emit_words (value ∷ values) state line =
      require line (is_word_value value) (word_out_of_range value) >>= λ _.
      emit state.output state.location value line >>= λ output.
      emit_words values record { output = output; location = suc state.location } line

  -- The words of an instruction.
  unfoldable pub emit_instruction : Names → Text → Text → Second → SourceLine → Asm Second
  unfolding encode evaluate emit is_two_word
  emit_instruction symbols operation operand_text state line =
      encode asm operation symbols state.location line operand_text >>= λ word.
      emit state.output state.location (pos word) line >>= λ output.
      if is_two_word operation
      then (evaluate asm.parse operand_text symbols state.location line >>= λ target.
          emit output (suc state.location) target line >>= λ both.
          ok record { output = both; location = suc (suc state.location) })
      else ok record { output = output; location = suc state.location }

  unfoldable pub second_statement : Names → Text → Text → Second → SourceLine → Asm Second
  unfolding evaluate operand_list checked_address word_values emit_words emit_instruction
  second_statement symbols operation operand_text state line =
      if is operation ".ORG"
      then (evaluate asm.parse operand_text symbols state.location line >>= λ value.
          checked_address value line >>= λ location.
          ok record { output = state.output; location = location })
      else if is operation ".WORD"
      then (operand_list operand_text line >>= λ operands.
          word_values symbols state.location operands line >>= λ values.
          emit_words values state line)
      else emit_instruction symbols operation operand_text state line

  unfoldable pub second_line : Names → SourceLine → Second → Asm Second
  unfolding split_label split_operation second_statement
  second_line symbols line state =
      let parts = split_label line in
      let fields = split_operation parts.0 in
      if is_empty parts.0 then ok state else second_statement symbols fields.0 fields.1 state line

  unfoldable pub second_pass : Names → List SourceLine → Second → Asm Second
  unfolding second_line
  second_pass symbols [] state = ok state
  second_pass symbols (line ∷ rest) state =
      second_line symbols line state >>= λ next. second_pass symbols rest next

  -- `_assemble`.
  unfoldable pub assemble : List SourceLine → Asm AssemblyResult
  unfolding first_pass second_pass
  assemble lines = first_pass lines first_start >>= λ named.
      second_pass named.symbols lines second_start >>= λ done.
      ok record { output = done.output; symbols = named.symbols }
