-- ===== src/Assembler/Placement.antt =====
-- tools/assembler/tms32010_as.py: `_emit` and what the second pass emits.
use tms32010_sv.Base.Cases.{no}
use Prim.Native.String.{String}
use tms32010_sv.Base.{
  ℕ, suc, ◌≤◌, ◌<◌, ◌≡◌, inl, inr, refl, sym, ◌∙◌, ap, arith, true, false, Bool-cases, List, [],
  ◌∷◌, ◌++◌, Option, ltb→lt, leb, leb→le,
}
use tms32010_sv.Base.Int.{ℤ, pos, negsuc}
use tms32010_sv.Base.Text.{Text, codes, is, is_empty, same_codes-eq}
use tms32010_sv.Database.{ok}
use tms32010_sv.Assembler.Source.{
  SourceLine, Reason, split_label, split_operation, program_words, program_address_out_of_range,
  address_out_of_range, word_out_of_range,
}
use tms32010_sv.Assembler.Expression.{Expr, Names, evaluate}
use tms32010_sv.Assembler.Encode.{Assembler, within}
use tms32010_sv.Assembler.Instruction.{Form, form_of, is_two_word, encode, encode_fields}
use tms32010_sv.Assembler.Passes.{
  ListingRow, Output, Second, AssemblyResult, holds_word, emit, emit_words, emit_instruction,
  second_statement, second_line, second_pass, assemble, second_start,
}
use tms32010_sv.Assembler.Inversion.{not_raised, same_value, bind-ok, require-ok}
use tms32010_sv.Assembler.Encoding.{shipped, encode-decode}

-- Words that were placed one by one, each in the program space, at an address that was free.
pub data Placed : List (ℕ × ℤ) → Type 0 where
  nothing : Placed []
  then_word :
      {words : List (ℕ × ℤ)} {address word : ℕ}
      → Placed words
      → address < program_words
      → holds_word address words ≡ false
      → word ≤ 0xFFFF
      → Placed (words ++ ((address, pos word) ∷ []))

abbrev pub words_of_rows : List ListingRow → List (ℕ × ℤ)
words_of_rows [] = []
words_of_rows (row ∷ rows) = (row.address, row.word) ∷ words_of_rows rows

-- The dictionary of words and the listing hold the same.
pub record IsImage (output : Output) : Type 0 where
  pub placed : Placed output.words
  pub listed : output.words ≡ words_of_rows output.listing

words_of_rows-append :
    (rows : List ListingRow) (row : ListingRow)
    → words_of_rows (rows ++ (row ∷ [])) ≡ words_of_rows rows ++ ((row.address, row.word) ∷ [])
words_of_rows-append [] row = refl
words_of_rows-append (first ∷ rows) row =
    ap (λ (ws : List (ℕ × ℤ)). (first.address, first.word) ∷ ws) (words_of_rows-append rows row)

emit-IsImage :
    (output : Output) (address word : ℕ) (line : SourceLine) {next : Output}
    → IsImage output
    → word ≤ 0xFFFF
    → emit output address (pos word) line ≡ ok next
    → IsImage next
unfolding emit
emit-IsImage output address word line image fits h =
    let (_, inside, rest) = bind-ok h in
    let free = Bool-cases (holds_word address output.words) in
    let below =
      ltb→lt address program_words (require-ok line (address_out_of_range (pos address)) inside) in
    elim free [
      | inl used ↦ absurd (not_raised (rw used at rest))
      | inr unused ↦ rw (← (same_value (rw unused at rest))) record {
        placed = then_word image.placed below unused fits;
        listed =
            (ap (λ (ws : List (ℕ × ℤ)). ws ++ ((address, pos word) ∷ [])) image.listed)
            ∙ sym (words_of_rows-append output.listing _);
      }
    ]

emit_pos-IsImage :
    (output : Output) (address : ℕ) (word : ℤ) (n : ℕ) (line : SourceLine) {next : Output}
    → IsImage output
    → word ≡ pos n
    → n ≤ 0xFFFF
    → emit output address word line ≡ ok next
    → IsImage next
emit_pos-IsImage output address word n line image same fits h =
    emit-IsImage output address n line image fits (rw same at h)

within-eq :
    (line : SourceLine) (limit : ℕ) (reason : ℤ → Reason) (value : ℤ) {n : ℕ}
    → within line limit reason value ≡ ok n
    → (value ≡ pos n) × (n ≤ limit)
unfolding within
within-eq line limit reason (pos k) h = elim (Bool-cases (leb k limit)) [
  | inl fits ↦ rw (← (same_value (rw (fits, within) at h))) (refl, leb→le k limit fits)
  | inr beyond ↦ absurd (not_raised (rw (beyond, within) at h))
]
within-eq line limit reason (negsuc k) h = absurd (not_raised h)

two_word_form : (operation : Text) → is_two_word operation ≡ true → form_of operation ≡ Form.target
unfolding form_of is_two_word
two_word_form operation h = elim (Bool-cases (is operation "LACK")) [
  | inl lack ↦ absurd (no (rw (same_codes-eq operation (codes "LACK") lack) at h))
  | inr other ↦ rw (other, h) refl
]

module _ (asm : Assembler) (symbols : Names) (line : SourceLine) where
  -- The target that `_encode` has checked.
  target_le :
      (operation operand_text : Text) (location : ℕ) {word : ℕ} {target : ℤ}
      → is_two_word operation ≡ true
      → encode asm operation symbols location line operand_text ≡ ok word
      → evaluate asm.parse operand_text symbols location line ≡ ok target
      → (n : ℕ) × (target ≡ pos n) × (n ≤ 4095)
  unfolding encode encode_fields
  target_le operation operand_text location two h e =
      let (_, _, valid) = bind-ok h in
      let (entry, _, listed) = bind-ok valid in
      let (operands, _, encoded) = bind-ok listed in
      let (n, checked, _) = bind-ok (rw (two_word_form operation two) at encoded) in
      let (value, again, in_range) = bind-ok checked in
      let (same, fits) =
        within-eq line 4095 (program_address_out_of_range operation) value in_range in
      (n, same_value (sym e ∙ again) ∙ same, fits)

  emit_words-IsImage :
      (values : List ℤ) (state : Second) {next : Second}
      → IsImage state.output
      → emit_words asm values state line ≡ ok next
      → IsImage next.output
  unfolding emit_words
  emit_words-IsImage [] state image h = rw (← (same_value h)) image
  emit_words-IsImage (pos n ∷ values) state image h =
      let (_, inside, emitting) = bind-ok h in
      let (output, emitted, more) = bind-ok emitting in
      let fits = leb→le n 0xFFFF (require-ok line (word_out_of_range (pos n)) inside) in
      emit_words-IsImage values record { output = output; location = suc state.location }
        (emit-IsImage state.output state.location n line image fits emitted) more
  emit_words-IsImage (negsuc n ∷ values) state image h =
      let (_, inside, _) = bind-ok h in
      absurd (no (require-ok line (word_out_of_range (negsuc n)) inside))

-- `_encode` returns words of 16 bits.
FitsWords : Assembler → Type 0
FitsWords asm =
    (operation : Text) (symbols : Names) (location : ℕ) (line : SourceLine) (operand_text : Text)
    (word : ℕ)
    → encode asm operation symbols location line operand_text ≡ ok word
    → word ≤ 0xFFFF

module _ (asm : Assembler) (fits : FitsWords asm) (symbols : Names) where
  emit_instruction-IsImage :
      (operation operand_text : Text) (state : Second) (line : SourceLine) {next : Second}
      → IsImage state.output
      → emit_instruction asm symbols operation operand_text state line ≡ ok next
      → IsImage next.output
  unfolding emit_instruction FitsWords
  emit_instruction-IsImage operation operand_text state line image h =
      let (word, encoded, emitting) = bind-ok h in
      let (output, emitted, more) = bind-ok emitting in
      let small = fits operation symbols state.location line operand_text word encoded in
      let one = emit-IsImage state.output state.location word line image small emitted in
      elim (Bool-cases (is_two_word operation)) [
        | inr single ↦ rw (← (same_value (rw single at more))) one
        | inl two ↦
            (let (target, evaluated, last) = bind-ok (rw two at more) in
              let (all, placed, end) = bind-ok last in
              let (n, same, below) =
                target_le asm symbols line operation operand_text state.location two encoded
                  evaluated in
              rw (← (same_value end)) (
                emit_pos-IsImage output (suc state.location) target n line one same (omega arith)
                  placed))
      ]

  second_line-IsImage :
      (line : SourceLine) (state : Second) {next : Second}
      → IsImage state.output
      → second_line asm symbols line state ≡ ok next
      → IsImage next.output
  unfolding second_line second_statement
  second_line-IsImage line state image h =
      let operation = (split_operation (split_label line).0).0 in
      elim (Bool-cases (is_empty (split_label line).0)) [
        | inl empty ↦ rw (← (same_value (rw empty at h))) image
        | inr full ↦ elim (Bool-cases (is operation ".ORG")) [
          | inl org ↦
              (let (_, _, checked) = bind-ok (rw (full, org) at h) in
                let (_, _, end) = bind-ok checked in rw (← (same_value end)) image)
          | inr other ↦ elim (Bool-cases (is operation ".WORD")) [
            | inl word ↦
                (let (_, _, listed) = bind-ok (rw (full, other, word) at h) in
                  let (values, _, emitted) = bind-ok listed in
                  emit_words-IsImage asm symbols line values state image emitted)
            | inr instruction ↦
                emit_instruction-IsImage operation (split_operation (split_label line).0).1 state
                  line image (rw (full, other, instruction) at h)
          ]
        ]
      ]

  second_pass-IsImage :
      (lines : List SourceLine) (state : Second) {last : Second}
      → IsImage state.output
      → second_pass asm symbols lines state ≡ ok last
      → IsImage last.output
  unfolding second_pass
  second_pass-IsImage [] state image h = rw (← (same_value h)) image
  second_pass-IsImage (line ∷ rest) state image h =
      let (next, one, others) = bind-ok h in
      second_pass-IsImage rest next (second_line-IsImage line state image one) others

shipped_fits :
    (documented : List String) (parse : Text → Option Expr) → FitsWords (shipped documented parse)
unfolding FitsWords
shipped_fits documented parse operation symbols location line operand_text word h =
    (encode-decode documented parse operation symbols location line operand_text word h).0

-- With the shipped database, every assembly that succeeds places its words one by one in the program
-- space, none over another and each of 16 bits, and the listing has the same words in the same order.
pub assemble-IsImage :
    (documented : List String) (parse : Text → Option Expr) (lines : List SourceLine)
    (result : AssemblyResult)
    → assemble (shipped documented parse) lines ≡ ok result
    → IsImage result.output
unfolding assemble
assemble-IsImage documented parse lines result h =
    let (named, _, rest) = bind-ok h in
    let (last, second, end) = bind-ok rest in
    rw (← (same_value end)) (
      second_pass-IsImage (shipped documented parse) (shipped_fits documented parse) named.symbols
        lines second_start record { placed = nothing; listed = refl } second)
