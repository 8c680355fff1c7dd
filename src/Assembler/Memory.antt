-- ===== src/Assembler/Memory.antt =====
-- tools/assembler/tms32010_as.py and `load_binary` of sim/reference_models/tms32010_model.py: from the
-- lines of a program to the memory of the model.
use tms32010_sv.Base.Cases.{given, absent, some_eq}
use Prim.Native.String.{String}
use tms32010_sv.Base.{
  ℕ, zero, suc, ◌≤◌, ◌<◌, ◌≡◌, ◌≢◌, ◌⊎◌, inl, inr, refl, sym, ◌∙◌, ap, arith, true, false,
  Bool-cases, ◌||◌, List, [], ◌∷◌, ◌++◌, Option, some, ◌==◌, ==_iff, get_elem?, same_text,
  if◌then◌else◌, done,
}
use tms32010_sv.Base.Int.{ℤ, pos}
use tms32010_sv.Base.Text.{Text}
use tms32010_sv.Machine.{Model}
use tms32010_sv.Access.Laws
use tms32010_sv.WellFormed.{IsWellFormed}
use tms32010_sv.Database.{ok}
use tms32010_sv.Loader.{load_binary}
use tms32010_sv.Assembler.Source.{SourceLine}
use tms32010_sv.Assembler.Expression.{Expr}
use tms32010_sv.Assembler.Passes.{ListingRow, AssemblyResult, holds_word, assemble}
use tms32010_sv.Assembler.Result.{address_end, word_at, raw_bytes}
use tms32010_sv.Assembler.Encoding.{shipped}
use tms32010_sv.Assembler.Placement.{Placed, nothing, then_word, words_of_rows, assemble-IsImage}
use tms32010_sv.Assembler.LoadBack.{word_at-append, load_binary-raw_bytes}

-- An element of a list with one more is an earlier one, or the last.
get_elem?-append :
    {A : Type 0} (xs : List A) (last : A) (i : ℕ) (x : A)
    → get_elem? (xs ++ (last ∷ [])) i ≡ some x
    → (get_elem? xs i ≡ some x) ⊎ (x ≡ last)
get_elem?-append [] last zero x h = inr (sym (some_eq h))
get_elem?-append [] last (suc i) x h = absurd (absent h)
get_elem?-append (first ∷ xs) last zero x h = inl h
get_elem?-append (first ∷ xs) last (suc i) x h = get_elem?-append xs last i x h

holds_word-get_elem? :
    (words : List (ℕ × ℤ)) (i address : ℕ) (word : ℤ)
    → get_elem? words i ≡ some (address, word)
    → holds_word address words ≡ true
unfolding holds_word
holds_word-get_elem? [] i address word h = absurd (absent h)
holds_word-get_elem? ((other, value) ∷ words) zero address word h =
    let same : other ≡ address = ap (λ (p : ℕ × ℤ). p.0) (some_eq h) in ground (arith, same)
holds_word-get_elem? ((other, value) ∷ words) (suc i) address word h =
    ground (arith, holds_word-get_elem? words i address word h)

address_end-get_elem? :
    (words : List (ℕ × ℤ)) (i address : ℕ) (word : ℤ)
    → get_elem? words i ≡ some (address, word)
    → address < address_end words
unfolding address_end
address_end-get_elem? [] i address word h = absurd (absent h)
address_end-get_elem? ((other, value) ∷ words) zero address word h =
    let same : other ≡ address = ap (λ (p : ℕ × ℤ). p.0) (some_eq h) in ground (arith, same)
address_end-get_elem? ((other, value) ∷ words) (suc i) address word h =
    ground (arith, address_end-get_elem? words i address word h)

word_at-free :
    (words : List (ℕ × ℤ)) (fill : ℤ) (address : ℕ)
    → holds_word address words ≡ false
    → word_at words fill address ≡ fill
unfolding holds_word word_at
word_at-free [] fill address free = refl
word_at-free ((other, value) ∷ words) fill address free =
    ground (arith, word_at-free words fill address)

clash : true ≢ false
clash h = cc

last_word :
    (words : List (ℕ × ℤ)) (last : ℕ) (word fill : ℤ)
    → holds_word last words ≡ false
    → word_at (words ++ ((last, word) ∷ [])) fill last ≡ word
last_word words last word fill free =
    word_at-append words last word fill last
    ∙ word_at-free words (if last == last then word else fill) last free
    ∙ rw ((==_iff last last).1 refl) refl

-- Every word that was placed is the one of its address.
word_at-get_elem? :
    {words : List (ℕ × ℤ)} (fill : ℤ) (i address : ℕ) (word : ℤ)
    → Placed words
    → get_elem? words i ≡ some (address, word)
    → word_at words fill address ≡ word
word_at-get_elem? fill i address word nothing h = absurd (absent h)
word_at-get_elem? fill i address word
      (then_word {words} {address = last} {word = value} placed inside free small) h =
    elim (get_elem?-append words (last, pos value) i (address, word) h) [
      | inl earlier ↦ elim (Bool-cases (last == address)) [
        | inl here ↦ absurd (
            clash (
              sym (holds_word-get_elem? words i address word earlier)
              ∙ (rw ((==_iff last address).0 here) at free)))
        | inr elsewhere ↦
            word_at-append words last (pos value) fill address
            ∙ rw elsewhere (word_at-get_elem? fill i address word placed earlier)
      ]
      | inr this ↦
          rw (ap (λ (p : ℕ × ℤ). p.0) this, ap (λ (p : ℕ × ℤ). p.1) this)
            (last_word words last (pos value) fill free)
    ]

get_elem?-words_of_rows :
    (rows : List ListingRow) (i : ℕ) (row : ListingRow)
    → get_elem? rows i ≡ some row
    → get_elem? (words_of_rows rows) i ≡ some (row.address, row.word)
get_elem?-words_of_rows [] i row h = absurd (absent h)
get_elem?-words_of_rows (first ∷ rows) zero row h =
    ap (λ (r : ListingRow). given (r.address, r.word)) (some_eq h)
get_elem?-words_of_rows (first ∷ rows) (suc i) row h = get_elem?-words_of_rows rows i row h

-- Each row of a listing in program memory.
pub InMemory : List ListingRow → Model → Type 0
InMemory rows m =
    (i : ℕ) (row : ListingRow)
    → get_elem? rows i ≡ some row
    → pos (Laws.word_at m.program row.address) ≡ row.word

-- From source lines to program memory: with the shipped database, if the assembly of some lines
-- succeeds, `raw_bytes` with a fill of 16 bits and either byte order returns bytes, `load_binary` of
-- them at 0 into a well-formed model succeeds, and each row of the listing stands in program memory
-- with its word at its address.
pub assemble-load_binary :
    (documented : List String) (parse : Text → Option Expr) (lines : List SourceLine)
    (result : AssemblyResult) (byteorder : String) (fill : ℕ) (m : Model)
    → assemble (shipped documented parse) lines ≡ ok result
    → fill ≤ 0xFFFF
    → (same_text byteorder "big" || same_text byteorder "little") ≡ true
    → IsWellFormed m
    → (bytes : List ℕ) × (raw_bytes result.output.words byteorder (pos fill) ≡ ok bytes)
      × ((m' : Model) × (load_binary bytes byteorder (pos 0) m ≡ done tt m')
          × InMemory result.output.listing m')
unfolding InMemory
assemble-load_binary documented parse lines result byteorder fill m h fits order well =
    let made = assemble-IsImage documented parse lines result h in
    let (bytes, written, (m', loaded, memory)) =
      load_binary-raw_bytes result.output.words byteorder fill m made.placed fits order well in
    (
      bytes,
      written,
      (
        m',
        loaded,
        λ i row e.
            let there =
              ap (λ (ws : List (ℕ × ℤ)). get_elem? ws i) made.listed
              ∙ get_elem?-words_of_rows result.output.listing i row e in
            memory.inside row.address
              (address_end-get_elem? result.output.words i row.address row.word there)
            ∙ word_at-get_elem? (pos fill) i row.address row.word made.placed there,
      ),
    )
