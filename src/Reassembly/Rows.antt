-- ===== src/Reassembly/Rows.antt =====
-- tools/disassembler/tms32010_dis.py: `disassemble_source` with the entries of
-- docs/generated/tms32010_isa.yaml, as lines of the assembler.
use Prim.Native.String.{String, ◌++◌ as ◌+++◌}
use Prim.Native.String.append
use Prim.Native.Char.{code}
use mathlib.Core.List.{append_assoc}
use tms32010_sv.Base.Cases.{absent, some_or_none}
use tms32010_sv.Base.{
  ℕ, ◌/◌, ◌^◌, ◌≤◌, ◌<◌, ◌≡◌, inl, inr, refl, ap, ◌∙◌, arith, true, Bool-cases, List, [], ◌∷◌, ◌++◌,
  Option, some, ◌==◌, ==_iff, bit_and, AllBelow, nil, cons,
}
use tms32010_sv.Base.Masks.{bit_and-low, bit_and-high}
use tms32010_sv.Base.Text.{Text, codes}
use tms32010_sv.Isa.{Operands}
use tms32010_sv.Database.{Entry, ok}
use tms32010_sv.Database.Entries.{instructions}
use tms32010_sv.Disassembler.{D, ◌>>=◌, rows_then, pair_at, starts_pair, source_rows}
use tms32010_sv.Disassembler.Format.{hex}
use tms32010_sv.Assembler.Expression.{Expr}
use tms32010_sv.Assembler.Encoding.{shipped}
use tms32010_sv.Reassembly.Literals.{IsReader}
use tms32010_sv.Reassembly.Words.{pair_text}
use tms32010_sv.Reassembly.Program.{Writes, Program, no_line, line, joined}
use tms32010_sv.Reassembly.Printed.{decoded_found, starts_pair-is_listed, word_line, pair_line}

codes-append : (a b : String) → codes (a +++ b) ≡ codes a ++ codes b
codes-append String.[] b = ap codes (append.nil b)
codes-append (String.◌∷◌ c a) b =
    ap codes (append.cons c a b) ∙ ap (λ (t : Text). code c ∷ t) (codes-append a b)

-- The text of the rows.
abbrev pub output_text : List String → Text
output_text [] = []
output_text (row ∷ rows) = codes row ++ output_text rows

high_digit_zero :
    (target : ℕ) → target ≤ 0xFFFF → (bit_and target 0xF000 == 0) ≡ true → target < 0x1000
high_digit_zero target fits h = omega (
  arith,
  (==_iff (bit_and target 0xF000) 0).0 h,
  bit_and-high 12 target 15,
  bit_and-low 4 (target / 2 ^ 12),
)

pair_at-cases :
    (found : Option (Entry × Operands)) (target : ℕ) {name : String}
    → pair_at found target ≡ some name
    → ((bit_and target 0xF000 == 0) ≡ true) × (starts_pair found ≡ some name)
pair_at-cases found target h = elim (Bool-cases (bit_and target 0xF000 == 0)) [
  | inl low ↦ (low, rw low at h)
  | inr high ↦ absurd (absent (rw high at h))
]

module _ (documented : List String) (parse : Text → Option Expr) (reader : IsReader parse) where
  -- A listing of source succeeds, and its rows are lines of a program of the words.
  unfoldable pub Listing : D (List String) → List ℕ → Type 0
  Listing outcome words =
      (rows : List String) × (texts : List Text) × (outcome ≡ ok rows)
      × Program (shipped documented parse) texts words
      × (output_text rows ≡ joined texts)

  row_text : (text : String) → codes (text +++ "\n") ≡ codes text ++ (10 ∷ [])
  row_text text = codes-append text "\n"

  pair_row_text :
      (name : String) (target : ℕ)
      → codes (name +++ " 0x" +++ hex 3 target +++ "\n")
        ≡ codes (pair_text name target) ++ (10 ∷ [])
  pair_row_text name target = simp (codes-append, append_assoc) refl

  first_row :
      (row : String) (text : Text) {words : List ℕ} (more : List ℕ) (later : D (List String))
      → codes row ≡ text ++ (10 ∷ [])
      → Writes (shipped documented parse) text words
      → Listing later more
      → Listing (rows_then (row ∷ []) later) (words ++ more)
  unfolding Listing
  first_row row text more later same writes (rows, texts, e, program, joined_same) = (
    row ∷ rows,
    text ∷ texts,
    rw e refl,
    line writes program,
    rw (same, joined_same) (append_assoc text (10 ∷ []) (joined texts)),
  )

  pub source_rows-Listing :
      (words : List ℕ) → AllBelow (2 ^ 16) words → Listing (source_rows instructions words) words
  unfolding source_rows Listing
  source_rows-Listing [] nil = ([], [], refl, no_line, refl)
  source_rows-Listing (word ∷ []) (cons below nil) =
      let fits : word ≤ 0xFFFF = omega (arith, below) in
      let (found, e) = decoded_found word fits in
      let (text, printed, writes) = word_line documented parse reader word fits in
      rw (e, printed)
        (first_row (text +++ "\n") (codes text) [] (ok []) (row_text text) writes
          ([], [], refl, no_line, refl))
  source_rows-Listing (word ∷ target ∷ rest) (cons below (cons target_below more)) =
      let fits : word ≤ 0xFFFF = omega (arith, below) in
      let (found, e) = decoded_found word fits in
      elim (some_or_none (pair_at found target)) [
        | inl alone ↦
            (let (text, printed, writes) = word_line documented parse reader word fits in
              let later = source_rows-Listing (target ∷ rest) (cons target_below more) in
              rw (e, ◌>>=◌, alone, printed)
                (first_row (text +++ "\n") (codes text) (target ∷ rest)
                  (source_rows instructions (target ∷ rest)) (row_text text) writes later))
        | inr (name, pair) ↦
            (let (low, starts) = pair_at-cases found target pair in
              let writes =
                pair_line documented parse reader word target name
                  (starts_pair-is_listed word found fits e starts)
                  (high_digit_zero target (omega (arith, target_below)) low) in
              rw (e, ◌>>=◌, pair)
                (first_row (name +++ " 0x" +++ hex 3 target +++ "\n") _ rest
                  (source_rows instructions rest) (pair_row_text name target) writes
                  (source_rows-Listing rest more)))
      ]
