-- ===== src/Reassembly/Printed.antt =====
-- tools/disassembler/tms32010_dis.py: `disassemble_word` with the entries of
-- docs/generated/tms32010_isa.yaml, as a line of the assembler.
use Prim.Native.String.{String}
use mathlib.Core.Path.{fun_ext}
use tms32010_sv.Base.Cases.{no, both, given, absent, some_eq, some_or_none}
use tms32010_sv.Base.{
  ℕ, ◌≤◌, ◌<◌, ◌≡◌, inl, inr, refl, sym, ap, ◌∙◌, arith, Bool, true, false, Bool-cases, List, [],
  ◌∷◌, Option, none, some, le→leb, ◌==◌, ==_iff,
}
use tms32010_sv.Base.Text.{Text, codes}
use tms32010_sv.Isa.{Instruction, Operands, mnemonic, decoded_operands}
use tms32010_sv.Decode.{decode}
use tms32010_sv.Database.{Entry, ok, failed, decode_word}
use tms32010_sv.Database.Entries.{instructions}
use tms32010_sv.Database.Agreement.{Agrees, decode_word-decode}
use tms32010_sv.Disassembler.{D, is_two_word, decoded, disassemble_word, starts_pair}
use tms32010_sv.Assembler.Source.{statement}
use tms32010_sv.Assembler.Expression.{Expr, Names}
use tms32010_sv.Assembler.Include.{include_name}
use tms32010_sv.Assembler.Encoding.{shipped}
use tms32010_sv.Reassembly.Literals.{IsReader, reading-same}
use tms32010_sv.Reassembly.Words.{
  one_line, same_words, gives, no_name, text_of_word, is_known_pair, is_listed, pairs, pair_text,
  gives_back, word_comes_back, pair_comes_back,
}
use tms32010_sv.Reassembly.Blocks.{word_comes_back_lem, pair_comes_back_lem}
use tms32010_sv.Reassembly.Program.{Writes}

same_words-eq : (a b : List ℕ) → same_words a b ≡ true → a ≡ b
same_words-eq [] [] h = refl
same_words-eq (x ∷ r) (y ∷ s) h =
    let parts = both (x == y) (same_words r s) h in
    rw ((==_iff x y).0 parts.0, same_words-eq r s parts.1) refl
same_words-eq [] (_ ∷ _) h = absurd (no h)
same_words-eq (_ ∷ _) [] h = absurd (no h)

gives-eq :
    (found : Option (List ℕ)) (words : List ℕ) → gives found words ≡ true → found ≡ some words
gives-eq none words h = absurd (no h)
gives-eq (some found) words h = ap given (same_words-eq found words h)

no_name-eq : (name : Option Text) → no_name name ≡ true → name ≡ none
no_name-eq none h = refl
no_name-eq (some _) h = absurd (no h)

module _ (documented : List String) (parse : Text → Option Expr) (reader : IsReader parse) where
  AlwaysGives : Text → List ℕ → Type 0
  AlwaysGives text words =
      (symbols : _) (location : ℕ) (path : Text) (number : ℕ)
      → gives_back documented parse symbols location path number text words ≡ true

  gives_back-Writes :
      (text : Text) (words : List ℕ)
      → AlwaysGives text words
      → Writes (shipped documented parse) text words
  unfolding gives_back AlwaysGives
  gives_back-Writes text words h =
      let once = h [] 0 [] 0 in
      let unbroken = both (one_line text) _ once in
      let plain = both (no_name (include_name (statement text))) _ unbroken.1 in
      record {
        unbroken = unbroken.0;
        plain = no_name-eq _ plain.0;
        words_of = λ symbols location path number.
            (let again = both (one_line text) _ (h symbols location path number) in
              rw (← (fun_ext (reading-same parse reader)))
                (gives-eq _ words (both (no_name (include_name (statement text))) _ again.1).1));
      }

-- A word, and what the two decoders make of it.
data Decoded (word : ℕ) : Type 0 where
  unknown : decode word ≡ none → decoded instructions word ≡ ok none → Decoded word
  known :
      (i : Instruction) (entry : Entry)
      → decode word ≡ some i
      → entry.mnemonic ≡ mnemonic i
      → decoded instructions word ≡ ok (some (entry, decoded_operands i))
      → Decoded word

decoded_lem : (word : ℕ) → word ≤ 0xFFFF → Decoded word
decoded_lem word fits = elim (some_or_none (decode word)) [
  | inl no_instruction ↦
      (let agrees : decode_word instructions word ≡ ok none =
          rw no_instruction at (decode_word-decode word fits) in
        unknown no_instruction (rw (decoded, agrees) refl))
  | inr (i, found) ↦
      (let agrees : Agrees (some i) (decode_word instructions word) =
          rw found at (decode_word-decode word fits) in
        known i agrees.0 found agrees.1 (rw (decoded, agrees.2) refl))
]

pub decoded_found :
    (word : ℕ)
    → word ≤ 0xFFFF
    → (found : Option (Entry × Operands)) × (decoded instructions word ≡ ok found)
decoded_found word fits = elim (decoded_lem word fits) [
  | unknown _ e ↦ (none, e)
  | known i entry _ _ e ↦ (some (entry, decoded_operands i), e)
]

pub disassemble_word_lem :
    (word : ℕ) → word ≤ 0xFFFF → disassemble_word instructions word ≡ text_of_word word
unfolding disassemble_word text_of_word
disassemble_word_lem word fits = elim (decoded_lem word fits) [
  | unknown none_found e ↦ rw (le→leb word 0xFFFF fits, e, text_of_word, none_found) refl
  | known i entry found same e ↦ rw (le→leb word 0xFFFF fits, e, text_of_word, found, same) refl
]

text_cases :
    (d : D String)
    → (f : String → Bool) → elim d [ ok text ↦ f text | failed _ ↦ false ] ≡ true
    → (text : String) × (d ≡ ok text) × (f text ≡ true)
text_cases (ok text) f h = (text, refl, h)
text_cases (failed _) f h = absurd (no h)

known_pair : (word : ℕ) → word ≤ 0xFFFF → is_known_pair word ≡ true
unfolding word_comes_back
known_pair word fits =
    (both (is_known_pair word) _
      (word_comes_back_lem [] (λ _. none) [] 0 [] 0 word (omega arith))).0

abbrev answer : Option (Entry × Operands) → D (Option (Entry × Operands))
answer found = ok found

same_answer : {a b : Option (Entry × Operands)} → answer a ≡ answer b → a ≡ b
same_answer h = cc

-- A branch or a call that is paired with its target is in the table of pairs.
pub starts_pair-is_listed :
    (word : ℕ) (found : Option (Entry × Operands)) {name : String}
    → word ≤ 0xFFFF
    → decoded instructions word ≡ ok found
    → starts_pair found ≡ some name
    → is_listed name word pairs ≡ true
unfolding is_known_pair
starts_pair-is_listed word found {name = name} fits e h = elim (decoded_lem word fits) [
  | unknown _ empty ↦ absurd (absent (rw (← (same_answer (sym empty ∙ e))) at h))
  | known i entry listed same full ↦
      (let starts = rw (← (same_answer (sym full ∙ e)), same) at h in
        elim (Bool-cases (is_two_word (mnemonic i))) [
          | inr single ↦ absurd (absent (rw single at starts))
          | inl double ↦
              rw (← (some_eq (rw double at starts)))
                (rw (is_known_pair, listed, double) at (known_pair word fits))
        ])
]

module _ (documented : List String) (parse : Text → Option Expr) (reader : IsReader parse) where
  word_gives :
      (word : ℕ) (symbols : Names) (location : ℕ) (path : Text) (number : ℕ)
      → word ≤ 0xFFFF
      → elim (text_of_word word) [
        | ok text ↦
            gives_back documented parse symbols location path number (codes text) (word ∷ [])
        | failed _ ↦ false
      ]
        ≡ true
  unfolding word_comes_back
  word_gives word symbols location path number fits =
      (both (is_known_pair word) _
        (word_comes_back_lem documented parse symbols location path number word (omega arith))).1

  pub word_line :
      (word : ℕ)
      → word ≤ 0xFFFF
      → (text : String) × (disassemble_word instructions word ≡ ok text)
        × Writes (shipped documented parse) (codes text) (word ∷ [])
  unfolding AlwaysGives
  word_line word fits =
      let (text, e, _) = text_cases (text_of_word word) _ (word_gives word [] 0 [] 0 fits) in
      (
        text,
        disassemble_word_lem word fits ∙ e,
        gives_back-Writes documented parse reader (codes text) (word ∷ [])
            (λ symbols location path number.
              rw e at (word_gives word symbols location path number fits)),
      )

  pub pair_line :
      (word target : ℕ) (name : String)
      → is_listed name word pairs ≡ true
      → target < 0x1000
      → Writes (shipped documented parse) (codes (pair_text name target)) (word ∷ target ∷ [])
  unfolding pair_comes_back AlwaysGives
  pair_line word target name listed below =
      gives_back-Writes documented parse reader (codes (pair_text name target)) (word ∷ target ∷ [])
        (λ symbols location path number.
          pair_comes_back_lem documented parse symbols location path number name word target listed
            below)
