-- ===== src/Reassembly/Program.antt =====
-- tools/assembler/tms32010_as.py: `assemble_text` on lines without labels whose words are known.
use mathlib.Core.List.{append_assoc, append-nil}
use tms32010_sv.Base.{
  ℕ, suc, ◌+◌, ◌≤◌, ◌≡◌, inl, inr, refl, ap, ◌∙◌, arith, true, Bool-cases, List, [], ◌∷◌, ◌++◌,
  none, some, length,
}
use tms32010_sv.Base.Cases.{no}
use tms32010_sv.Base.Text.{Text, is_line_break, split_lines}
use tms32010_sv.Database.{ok}
use tms32010_sv.Assembler.Source.{SourceLine, Asm, ◌>>=◌, statement, program_words}
use tms32010_sv.Assembler.Expression.{Names}
use tms32010_sv.Assembler.Encode.{Assembler}
use tms32010_sv.Assembler.Passes.{
  Second, AssemblyResult, first_pass, second_pass, second_start, assemble,
}
use tms32010_sv.Assembler.Include.{
  FileSystem, include_name, expand_line, expand_lines, expand_text, assemble_text,
}
use tms32010_sv.Assembler.WordCounts.{counts_agree}
use tms32010_sv.Reassembly.Lines.{line_words}
use tms32010_sv.Reassembly.Words.{one_line}
use tms32010_sv.Reassembly.Passes.{numbered, IsAt, GoesOn, first_line-words, second_line-words}

-- A text gives these words as a line, wherever it stands.
pub record Writes (asm : Assembler) (text : Text) (words : List ℕ) : Type 0 where
  pub unbroken : one_line text ≡ true
  pub plain : include_name (statement text) ≡ none
  pub words_of :
      (symbols : Names) (location : ℕ) (path : Text) (number : ℕ)
      → line_words asm symbols location record { path = path; number = number; text = text }
        ≡ some words

pub data Program (asm : Assembler) : List Text → List ℕ → Type 0 where
  no_line : Program asm [] []
  line :
      {text : Text} {words : List ℕ} {texts : List Text} {more : List ℕ}
      → Writes asm text words
      → Program asm texts more
      → Program asm (text ∷ texts) (words ++ more)

-- The lines, each with a line feed.
abbrev pub joined : List Text → Text
joined [] = []
joined (text ∷ texts) = text ++ (10 ∷ joined texts)

split_lines-one_line :
    (text rest : Text)
    → one_line text ≡ true
    → split_lines (text ++ (10 ∷ rest)) ≡ text ∷ split_lines rest
unfolding split_lines one_line is_line_break
split_lines-one_line [] rest h = refl
split_lines-one_line (c ∷ text) rest h = elim (Bool-cases (is_line_break c)) [
  | inl break ↦ absurd (no (rw (one_line, break) at h))
  | inr same ↦ rw (same, split_lines-one_line text rest (rw (one_line, same) at h)) refl
]

split_lines-joined :
    {asm : Assembler} {texts : List Text} {words : List ℕ}
    → Program asm texts words
    → split_lines (joined texts) ≡ texts
unfolding split_lines
split_lines-joined no_line = refl
split_lines-joined (line {text = text} {texts = texts} writes program) =
    split_lines-one_line text (joined texts) writes.unbroken
    ∙ ap (λ (lines : List Text). text ∷ lines) (split_lines-joined program)

abbrev source_lines : Text → ℕ → List Text → List SourceLine
source_lines path number [] = []
source_lines path number (text ∷ texts) =
    record { path = path; number = number; text = text } ∷ source_lines path (suc number) texts

expand_lines-Program :
    {asm : Assembler} {texts : List Text} {words : List ℕ} (include : Text → Asm (List SourceLine))
    (path : Text) (number : ℕ)
    → Program asm texts words
    → expand_lines include path number texts ≡ ok (source_lines path number texts)
unfolding expand_lines expand_line ◌>>=◌
expand_lines-Program include path number no_line = refl
expand_lines-Program include path number (line writes program) =
    rw (expand_line, writes.plain, expand_lines-Program include path (suc number) program) refl

length-append : (xs ys : List ℕ) → length (xs ++ ys) ≡ length xs + length ys
length-append [] ys = omega arith
length-append (x ∷ xs) ys = omega (arith, length-append xs ys)

module _ (asm : Assembler) (agree : counts_agree asm.entries ≡ true) where
  first_pass-Program :
      {texts : List Text} {words : List ℕ} (path : Text) (number location : ℕ) (symbols : Names)
      → Program asm texts words
      → location + length words ≤ program_words
      → (last : ℕ) × (first_pass asm
            (source_lines path number texts)
            record { symbols = symbols; location = location }
          ≡ ok record { symbols = symbols; location = last })
  unfolding first_pass ◌>>=◌
  first_pass-Program path number location symbols no_line fits = (location, refl)
  first_pass-Program path number location symbols
        (line {words = words} {more = more} writes program) fits =
      let total = length-append words more in
      let one =
        first_line-words asm symbols _ location agree (writes.words_of symbols location path number)
          (omega (arith, total)) in
      let (last, others) =
        first_pass-Program path (suc number) (location + length words) symbols program
          (omega (arith, total)) in
      (last, rw one others)

  second_pass-Program :
      {texts : List Text} {words : List ℕ} (path : Text) (number : ℕ) (symbols : Names)
      (state : Second) (so_far : List ℕ)
      → IsAt state so_far
      → Program asm texts words
      → length so_far + length words ≤ program_words
      → GoesOn (second_pass asm symbols (source_lines path number texts) state) (so_far ++ words)
  unfolding second_pass ◌>>=◌
  second_pass-Program path number symbols state so_far at no_line fits =
      (state, refl, rw (append-nil so_far) at)
  second_pass-Program path number symbols state so_far at
        (line {words = words} {more = more} writes program) fits =
      let total = length-append words more in
      let grown = length-append so_far words in
      let (next, one, there) =
        second_line-words asm symbols _ state so_far at
          (writes.words_of symbols state.location path number) (omega (arith, total)) in
      let (last, others, done) =
        second_pass-Program path (suc number) symbols next (so_far ++ words) there program
          (omega (arith, total, grown)) in
      (last, rw one others, rw (← (append_assoc so_far words more)) done)

  -- The words from address 0 on, in the order of the lines, and no symbol.
  pub assemble_text-Program :
      {texts : List Text} {words : List ℕ} (fs : FileSystem) (fuel : ℕ) (name root : Text)
      → Program asm texts words
      → length words ≤ program_words
      → (result : AssemblyResult) × (assemble_text fs asm fuel (joined texts) name root ≡ ok result)
        × (result.output.words ≡ numbered 0 words)
        × (result.symbols ≡ [])
  unfolding assemble_text expand_text assemble ◌>>=◌
  assemble_text-Program fs fuel name root program fits =
      let (_, first) = first_pass-Program name 1 0 [] program (omega (arith, fits)) in
      let (last, second, done) =
        second_pass-Program name 1 [] second_start [] record { held = refl; here = refl } program
          (omega (arith, fits)) in
      rw (split_lines-joined program, expand_lines-Program _ name 1 program, first, second)
        (_, refl, done.held, refl)
