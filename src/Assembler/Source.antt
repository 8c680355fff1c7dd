-- ===== src/Assembler/Source.antt =====
-- tools/assembler/tms32010_as.py: source lines and how a line is split, the errors with the line they
-- are raised for, and the checks of addresses.
use tms32010_sv.Base.{
  ℕ, Bool, true, false, ◌||◌, List, [], ◌∷◌, Option, none, some, ltb, leb, ◌==◌, if◌then◌else◌,
}
use tms32010_sv.Base.Int.{ℤ, pos, negsuc}
use tms32010_sv.Base.Text.{
  Text, is_empty, is_space, is_letter, is_word, strip, lstrip, take_until, drop_until, split_on,
  upper,
}
use tms32010_sv.Database.{Checked, ok, failed}

pub record SourceLine : Type 0 where
  pub path : Text
  pub number : ℕ
  pub text : Text

-- The messages of the errors that `line.error` makes. The last two are Python's own.
pub data Reason : Type 0 where
  duplicate_label : Text → Reason
  missing_operand program_exceeds : Reason
  address_out_of_range word_out_of_range : ℤ → Reason
  not_implemented unknown_directive unknown_instruction wrong_operand_count : Text → Reason
  constant_out_of_range program_address_out_of_range shift_out_of_range : Text → ℤ → Reason
  next_pointer_out_of_range direct_address_out_of_range : Text → ℤ → Reason
  next_pointer_needs_indirect bad_register bad_port : Text → Reason
  port_out_of_range : ℤ → Reason
  address_in_use : ℕ → Reason
  invalid_expression : Text → Reason
  key_error index_error : Reason

-- An error of a line, the errors of the inclusion of files, and a run out of the fuel of the model.
pub data AssemblyError : Type 0 where
  at_line : SourceLine → Reason → AssemblyError
  recursive_include : List Text → AssemblyError
  cannot_read cannot_decode cannot_resolve : Text → AssemblyError
  out_of_fuel : AssemblyError

abbrev pub Asm : Type 0 → Type 0
Asm A = Checked AssemblyError A

infixl 5 ◌>>=◌
unfoldable pub ◌>>=◌ : {A B : Type 0} → Asm A → (A → Asm B) → Asm B
m >>= f = elim m [ ok a ↦ f a | failed e ↦ failed e ]

-- `raise line.error(…)`, and `if not test: raise line.error(…)`.
abbrev pub error : {A : Type 0} → SourceLine → Reason → Asm A
error line reason = failed (at_line line reason)

unfoldable pub require : SourceLine → Bool → Reason → Asm (Unit {0})
require line true reason = ok tt
require line false reason = error line reason

-- `_statement`.
unfoldable pub statement : Text → Text
unfolding strip take_until
statement text = strip (take_until (λ c. c == 59) text)

abbrev starts_label : Text → Bool
starts_label [] = false
starts_label (c ∷ _) = is_letter c

-- The text behind the colon that ends a label, if there is one.
abbrev behind_colon : Text → Option Text
behind_colon [] = none
behind_colon (c ∷ rest) = if c == 58 then some rest else none

abbrev not_word : ℕ → Bool
not_word c = elim (is_word c) [ true ↦ false | false ↦ true ]

-- `_split_label`: the statement, without its label, and the label.
unfoldable pub split_label : SourceLine → Text × Option Text
unfolding statement is_letter is_word take_until drop_until upper strip
split_label line =
    let whole = statement line.text in
    if starts_label whole
    then (elim (behind_colon (drop_until not_word whole)) [
      | none ↦ (whole, none)
      | some rest ↦ (strip rest, some (upper (take_until not_word whole)))
    ])
    else (whole, none)

-- `_split_operation` of a statement that is not empty.
unfoldable pub split_operation : Text → Text × Text
unfolding is_space take_until drop_until upper strip lstrip
split_operation whole =
    let text = lstrip whole in (upper (take_until is_space text), strip (drop_until is_space text))

abbrev strip_all : List Text → List Text
strip_all [] = []
strip_all (piece ∷ pieces) = strip piece ∷ strip_all pieces

abbrev any_empty : List Text → Bool
any_empty [] = false
any_empty (piece ∷ pieces) = is_empty piece || any_empty pieces

-- `_operand_list`.
unfoldable pub operand_list : Text → SourceLine → Asm (List Text)
unfolding strip split_on
operand_list text line =
    let operands = strip_all (split_on 44 text) in
    if is_empty text || any_empty operands then error line missing_operand else ok operands

abbrev pub program_words : ℕ
program_words = 4096

-- `_checked_address` and `_checked_location`. A location is a sum that is never negative.
unfoldable pub checked_address : ℤ → SourceLine → Asm ℕ
checked_address (pos n) line =
    if ltb n program_words then ok n else error line (address_out_of_range (pos n))
checked_address (negsuc n) line = error line (address_out_of_range (negsuc n))

unfoldable pub checked_location : ℕ → SourceLine → Asm ℕ
checked_location n line = if leb n program_words then ok n else error line program_exceeds
