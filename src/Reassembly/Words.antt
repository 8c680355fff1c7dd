-- ===== src/Reassembly/Words.antt =====
-- tools/disassembler/tms32010_dis.py: the text of a word, and the line of a branch with its target,
-- tested with `_encode` and `_evaluate` of tools/assembler/tms32010_as.py.
use Prim.Native.String.{String, ◌++◌}
use tms32010_sv.Base.{
  ℕ, Bool, true, false, ◌&&◌, ◌||◌, List, [], ◌∷◌, Option, none, some, ◌==◌, same_text,
  if◌then◌else◌,
}
use tms32010_sv.Base.Text.{Text, codes, is_line_break}
use tms32010_sv.Isa.{mnemonic, decoded_operands}
use tms32010_sv.Decode.{decode}
use tms32010_sv.Database.{ok, failed}
use tms32010_sv.Disassembler.{D, is_two_word, instruction_text, word_directive}
use tms32010_sv.Disassembler.Format.{hex}
use tms32010_sv.Assembler.Source.{SourceLine, statement}
use tms32010_sv.Assembler.Expression.{Expr, Names}
use tms32010_sv.Assembler.Encoding.{shipped}
use tms32010_sv.Assembler.Include.{include_name}
use tms32010_sv.Reassembly.Literals.{reading}
use tms32010_sv.Reassembly.Lines.{line_words}

-- A text without a line boundary.
unfoldable pub one_line : Text → Bool
unfolding is_line_break
one_line [] = true
one_line (c ∷ text) = elim (is_line_break c) [ true ↦ false | false ↦ one_line text ]

abbrev pub same_words : List ℕ → List ℕ → Bool
same_words [] [] = true
same_words (a ∷ r) (b ∷ s) = a == b && same_words r s
same_words _ _ = false

abbrev pub gives : Option (List ℕ) → List ℕ → Bool
gives none words = false
gives (some found) words = same_words found words

abbrev pub no_name : Option Text → Bool
no_name none = true
no_name (some _) = false

-- The text of a word, by the model's own decoder.
unfoldable pub text_of_word : ℕ → D String
unfolding decode instruction_text
text_of_word word = elim (decode word) [
  | none ↦ ok (word_directive word)
  | some i ↦ instruction_text (mnemonic i) (decoded_operands i) word
]

-- The words of TWO_WORD_CONTROL_FLOW.
unfoldable pub pairs : List (String × ℕ)
pairs =
    ("B", 0xF900)
    ∷ ("BANZ", 0xF400)
    ∷ ("BGEZ", 0xFD00)
    ∷ ("BGZ", 0xFC00)
    ∷ ("BIOZ", 0xF600)
    ∷ ("BLEZ", 0xFB00)
    ∷ ("BLZ", 0xFA00)
    ∷ ("BNZ", 0xFE00)
    ∷ ("BV", 0xF500)
    ∷ ("BZ", 0xFF00)
    ∷ ("CALL", 0xF800)
    ∷ []

abbrev pub is_listed : String → ℕ → List (String × ℕ) → Bool
is_listed name word [] = false
is_listed name word ((other, first) ∷ rest) =
    (same_text name other && word == first) || is_listed name word rest

-- A word that the decoder takes for a branch or a call is the one of its operation.
unfoldable pub is_known_pair : ℕ → Bool
unfolding decode pairs
is_known_pair word = elim (decode word) [
  | none ↦ true
  | some i ↦ if is_two_word (mnemonic i) then is_listed (mnemonic i) word pairs else true
]

abbrev pub pair_text : String → ℕ → String
pair_text name target = name ++ " 0x" ++ hex 3 target

module _ (documented : List String) (parse : Text → Option Expr) (symbols : Names) (location : ℕ)
    (path : Text) (number : ℕ) where
  -- A line of source gives these words, and includes nothing.
  unfoldable pub gives_back : Text → List ℕ → Bool
  unfolding one_line include_name statement line_words reading
  gives_back text words =
      let line : SourceLine = record { path = path; number = number; text = text } in
      one_line text
      && (no_name (include_name (statement text))
          && gives (line_words (shipped documented (reading parse)) symbols location line) words)

  unfoldable pub word_comes_back : ℕ → Bool
  unfolding gives_back text_of_word is_known_pair
  word_comes_back word = is_known_pair word && elim (text_of_word word) [
    | ok text ↦ gives_back (codes text) (word ∷ [])
    | failed _ ↦ false
  ]

  unfoldable pub pair_comes_back : String → ℕ → ℕ → Bool
  unfolding gives_back
  pair_comes_back name first target =
      gives_back (codes (pair_text name target)) (first ∷ target ∷ [])
