-- ===== src/Reassembly/Passes.antt =====
-- tools/assembler/tms32010_as.py: what the two passes of `_assemble` make of a line without a label
-- whose words are known.
use tms32010_sv.Base.Cases.{absent}
use mathlib.Core.List.{append_assoc}
use tms32010_sv.Base.{
  ℕ, suc, ◌+◌, ◌≤◌, ◌<◌, ◌≡◌, inl, inr, refl, sym, ap, ◌∙◌, arith, true, false, Bool-cases, List,
  [], ◌∷◌, ◌++◌, some, le→leb, lt→ltb, length,
}
use tms32010_sv.Base.Int.{ℤ, pos}
use tms32010_sv.Base.Text.{Text, is}
use tms32010_sv.Database.{ok}
use tms32010_sv.Assembler.Source.{
  SourceLine, Asm, ◌>>=◌, require, split_label, split_operation, checked_location, program_words,
}
use tms32010_sv.Assembler.Expression.{Names}
use tms32010_sv.Assembler.Encode.{Assembler}
use tms32010_sv.Assembler.Instruction.{encode}
use tms32010_sv.Assembler.Passes.{
  Second, Output, holds_word, emit, word_values, emit_words, emit_instruction, advance, add_label,
  first_line, second_line, second_statement,
}
use tms32010_sv.Assembler.Inversion.{bind-ok, ok-bind}
use tms32010_sv.Assembler.Encoding.{entry_of-named}
use tms32010_sv.Assembler.WordCounts.{counts_agree, entry_named-count}
use tms32010_sv.Reassembly.Lines.{statement_words, line_words}
use tms32010_sv.Reassembly.Statements.{
  Directive, Encoded, single_value, one, two, stated, directive_words-Directive,
  instruction_words-Encoded, line_words-Stated,
}

-- The words from an address on, as the assembler's dictionary holds them.
abbrev pub numbered : ℕ → List ℕ → List (ℕ × ℤ)
numbered address [] = []
numbered address (word ∷ words) = (address, pos word) ∷ numbered (suc address) words

checked_location_lem :
    (n : ℕ) (line : SourceLine) → n ≤ program_words → checked_location n line ≡ ok n
unfolding checked_location
checked_location_lem n line fits = rw (le→leb n program_words fits) refl

numbered-snoc :
    (start : ℕ) (words : List ℕ) (address word : ℕ)
    → address ≡ start + length words
    → numbered start (words ++ (word ∷ [])) ≡ numbered start words ++ ((address, pos word) ∷ [])
numbered-snoc start [] address word h = ap (λ (a : ℕ). (a, pos word) ∷ []) (omega (arith, h))
numbered-snoc start (first ∷ words) address word h =
    ap (λ (ws : List (ℕ × ℤ)). (start, pos first) ∷ ws)
      (numbered-snoc (suc start) words address word (omega (arith, h)))

holds_word-numbered :
    (start : ℕ) (words : List ℕ) (address : ℕ)
    → start + length words ≤ address
    → holds_word address (numbered start words) ≡ false
unfolding holds_word
holds_word-numbered start [] address h = refl
holds_word-numbered start (word ∷ words) address h =
    ground (arith, holds_word-numbered (suc start) words address (omega arith))

length-snoc : (words : List ℕ) (word : ℕ) → length (words ++ (word ∷ [])) ≡ suc (length words)
length-snoc [] word = refl
length-snoc (_ ∷ words) word = ap suc (length-snoc words word)

-- The next word goes behind the words so far.
emit-next :
    (output : Output) (so_far : List ℕ) (address word : ℕ) (line : SourceLine)
    → output.words ≡ numbered 0 so_far
    → address ≡ length so_far
    → address < program_words
    → (next : Output) × (emit output address (pos word) line ≡ ok next)
      × (next.words ≡ numbered 0 (so_far ++ (word ∷ [])))
unfolding emit ◌>>=◌ require
emit-next output so_far address word line held here below =
    let free = holds_word-numbered 0 so_far address (omega (arith, here)) in
    rw (lt→ltb address program_words below, ap (holds_word address) held ∙ free)
      (
        _,
        refl,
        ap (λ (ws : List (ℕ × ℤ)). ws ++ ((address, pos word) ∷ [])) held
            ∙ sym (numbered-snoc 0 so_far address word (omega (arith, here))),
      )

module _ (asm : Assembler) (agree : counts_agree asm.entries ≡ true) (symbols : Names)
    (line : SourceLine) where
  advance-Encoded :
      (location : ℕ) (operation operand_text : Text) {words : List ℕ}
      → is operation ".ORG" ≡ false
      → is operation ".WORD" ≡ false
      → Encoded asm symbols location line operation operand_text words
      → location + length words ≤ program_words
      → advance asm symbols location operation operand_text line ≡ ok (location + length words)
  unfolding advance encode
  advance-Encoded location operation operand_text no_org no_word (one encoded single) fits =
      let (u, valid, rest) = bind-ok encoded in
      let (entry, found, _) = bind-ok rest in
      let count =
        entry_named-count asm.entries operation entry agree
          (entry_of-named asm operation line entry found) in
      rw (no_org, no_word)
        (ok-bind _ valid
          (ok-bind _ found (rw (count, single) (checked_location_lem (location + 1) line fits))))
  advance-Encoded location operation operand_text no_org no_word (two encoded double _) fits =
      let (u, valid, rest) = bind-ok encoded in
      let (entry, found, _) = bind-ok rest in
      let count =
        entry_named-count asm.entries operation entry agree
          (entry_of-named asm operation line entry found) in
      rw (no_org, no_word)
        (ok-bind _ valid
          (ok-bind _ found (rw (count, double) (checked_location_lem (location + 2) line fits))))

  advance-Directive :
      (location : ℕ) (operation operand_text : Text) {words : List ℕ}
      → is operation ".ORG" ≡ false
      → is operation ".WORD" ≡ true
      → Directive asm symbols location line operand_text words
      → location + length words ≤ program_words
      → advance asm symbols location operation operand_text line ≡ ok (location + length words)
  unfolding advance
  advance-Directive location operation operand_text no_org word (single_value expression e value)
        fits =
      rw (no_org, word) (ok-bind _ e (checked_location_lem (location + 1) line fits))

  advance-words :
      (location : ℕ) (operation operand_text : Text) {words : List ℕ}
      → statement_words asm symbols location line operation operand_text ≡ some words
      → location + length words ≤ program_words
      → advance asm symbols location operation operand_text line ≡ ok (location + length words)
  unfolding advance
  advance-words location operation operand_text h fits = elim (Bool-cases (is operation ".ORG")) [
    | inl org ↦ absurd (absent (rw org at h))
    | inr no_org ↦ elim (Bool-cases (is operation ".WORD")) [
      | inl word ↦
          advance-Directive location operation operand_text no_org word
            (directive_words-Directive asm symbols location line operand_text _ refl
              (rw (no_org, word) at h))
            fits
      | inr no_word ↦
          advance-Encoded location operation operand_text no_org no_word
            (instruction_words-Encoded asm symbols location line operation operand_text _ refl
              (rw (no_org, no_word) at h))
            fits
    ]
  ]

-- The second pass has placed all words so far from address 0 on, and is behind them.
pub record IsAt (state : Second) (so_far : List ℕ) : Type 0 where
  pub held : state.output.words ≡ numbered 0 so_far
  pub here : state.location ≡ length so_far

-- It goes on with these words.
abbrev pub GoesOn : Asm Second → List ℕ → Type 0
GoesOn outcome so_far = (next : Second) × (outcome ≡ ok next) × IsAt next so_far

module _ (asm : Assembler) (symbols : Names) (line : SourceLine) (state : Second) (so_far : List ℕ)
    (at : IsAt state so_far) where
  second_statement-Directive :
      (operation operand_text : Text) {words : List ℕ}
      → is operation ".ORG" ≡ false
      → is operation ".WORD" ≡ true
      → Directive asm symbols state.location line operand_text words
      → length so_far + length words ≤ program_words
      → GoesOn (second_statement asm symbols operation operand_text state line) (so_far ++ words)
  unfolding second_statement word_values emit_words require ◌>>=◌
  second_statement-Directive operation operand_text no_org word
        (single_value {n = n} expression e value) fits =
      let (next, emitted, held) =
        emit-next state.output so_far state.location n line at.held at.here
          (omega (arith, at.here)) in
      rw (no_org, word, e, value.same, value.fits, emitted)
        (_, refl, record { held = held; here = ap suc at.here ∙ sym (length-snoc so_far n) })

  second_statement-Encoded :
      (operation operand_text : Text) {words : List ℕ}
      → is operation ".ORG" ≡ false
      → is operation ".WORD" ≡ false
      → Encoded asm symbols state.location line operation operand_text words
      → length so_far + length words ≤ program_words
      → GoesOn (second_statement asm symbols operation operand_text state line) (so_far ++ words)
  unfolding second_statement emit_instruction require ◌>>=◌
  second_statement-Encoded operation operand_text no_org no_word (one {word = word} encoded single)
        fits =
      let (next, emitted, held) =
        emit-next state.output so_far state.location word line at.held at.here
          (omega (arith, at.here)) in
      rw (no_org, no_word, encoded, emitted, single)
        (_, refl, record { held = held; here = ap suc at.here ∙ sym (length-snoc so_far word) })
  second_statement-Encoded operation operand_text no_org no_word
        (two {word = word} {n = n} encoded double value) fits =
      let (next, emitted, held) =
        emit-next state.output so_far state.location word line at.held at.here
          (omega (arith, at.here)) in
      let there = ap suc at.here ∙ sym (length-snoc so_far word) in
      let (last, placed, all_held) =
        emit-next next (so_far ++ (word ∷ [])) (suc state.location) n line held there
          (omega (arith, at.here)) in
      rw (no_org, no_word, encoded, emitted, double, value.same, placed)
        (
          _,
          refl,
          record {
            held = all_held ∙ ap (numbered 0) (append_assoc so_far (word ∷ []) (n ∷ []));
            here =
                ap suc there
                ∙ sym (length-snoc (so_far ++ (word ∷ [])) n)
                ∙ ap length (append_assoc so_far (word ∷ []) (n ∷ []));
          },
        )

  second_statement-words :
      (operation operand_text : Text) {words : List ℕ}
      → statement_words asm symbols state.location line operation operand_text ≡ some words
      → length so_far + length words ≤ program_words
      → GoesOn (second_statement asm symbols operation operand_text state line) (so_far ++ words)
  second_statement-words operation operand_text h fits = elim (Bool-cases (is operation ".ORG")) [
    | inl org ↦ absurd (absent (rw org at h))
    | inr no_org ↦ elim (Bool-cases (is operation ".WORD")) [
      | inl word ↦
          second_statement-Directive operation operand_text no_org word
            (directive_words-Directive asm symbols state.location line operand_text _ refl
              (rw (no_org, word) at h))
            fits
      | inr no_word ↦
          second_statement-Encoded operation operand_text no_org no_word
            (instruction_words-Encoded asm symbols state.location line operation operand_text _ refl
              (rw (no_org, no_word) at h))
            fits
    ]
  ]

pub first_line-words :
    (asm : Assembler) (symbols : Names) (line : SourceLine) (location : ℕ) {words : List ℕ}
    → counts_agree asm.entries ≡ true
    → line_words asm symbols location line ≡ some words
    → location + length words ≤ program_words
    → first_line asm line record { symbols = symbols; location = location }
      ≡ ok record { symbols = symbols; location = location + length words }
unfolding first_line add_label ◌>>=◌
first_line-words asm symbols line location agree h fits =
    elim (line_words-Stated asm symbols location line h) [
      | stated unnamed full words_given ↦
          (let fields = split_operation (split_label line).0 in
            rw
              (
                unnamed,
                full,
                advance-words asm agree symbols line location fields.0 fields.1 words_given fits,
              )
              refl)
    ]

pub second_line-words :
    (asm : Assembler) (symbols : Names) (line : SourceLine) (state : Second) (so_far : List ℕ)
    {words : List ℕ}
    → IsAt state so_far
    → line_words asm symbols state.location line ≡ some words
    → length so_far + length words ≤ program_words
    → GoesOn (second_line asm symbols line state) (so_far ++ words)
unfolding second_line
second_line-words asm symbols line state so_far at h fits =
    elim (line_words-Stated asm symbols state.location line h) [
      | stated unnamed full words_given ↦
          (let fields = split_operation (split_label line).0 in
            rw full (
              second_statement-words asm symbols line state so_far at fields.0 fields.1 words_given
                fits))
    ]
