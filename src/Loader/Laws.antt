-- ===== src/Loader/Laws.antt =====
-- sim/reference_models/tms32010_model.py: `load_words` on an image of words, and the memory after it.
use tms32010_sv.Base.{
  ℕ, zero, suc, ◌+◌, ◌≤◌, ◌<◌, ◌^◌, ◌≡◌, refl, ap, ◌∙◌, arith, List, [], ◌∷◌, ◌++◌, length, get_or,
  set, get_or-set_self, get_or-set_ne, AllBelow, ltb, lt→ltb, le→leb, false, done, raised, ◌>>=◌,
}
use native.Mathlib.Numerals.{unary_clauses}
use tms32010_sv.Base.Int.{ℤ, pos, negsuc}
use tms32010_sv.Machine.{Model, program_words}
use tms32010_sv.Access.Laws
use tms32010_sv.WellFormed.{IsWellFormed, Kept, Kept-refl, Kept-trans, Kept-program}
use tms32010_sv.Loader.{assign, load_word, load_from, load_words, image_exceeds}

-- The words of a program image, as Python integers.
abbrev pub image : List ℕ → List ℤ
image [] = []
image (w ∷ ws) = pos w ∷ image ws

-- The model `m'` is `m` with the words `ws` from `origin` on, and no other word of program memory
-- changed.
pub record Loaded (ws : List ℕ) (origin : ℕ) (m m' : Model) : Type 0 where
  pub kept : Kept m m'
  pub inside : (i : ℕ) → i < length ws → Laws.word_at m'.program (origin + i) ≡ get_or ws i 0
  pub below : (i : ℕ) → i < origin → Laws.word_at m'.program i ≡ Laws.word_at m.program i
  pub above :
      (i : ℕ) → origin + length ws ≤ i → Laws.word_at m'.program i ≡ Laws.word_at m.program i

next : (a b : ℕ) → a + suc b ≡ suc a + b
next a b = omega arith

pub assign-eq :
    {m : Model} (h : IsWellFormed m) (i v : ℕ)
    → i < program_words
    → assign i v m ≡ done tt (record m { program = set m.program i v })
unfolding assign
assign-eq h i v fits = rw (Laws.write_program-eq h i v fits, assign)

-- One word.
load_word-eq :
    {m : Model} (h : IsWellFormed m) (i v : ℕ)
    → i < program_words
    → v < 2 ^ 16
    → load_word i (pos v) m ≡ done tt (record m { program = set m.program i v })
unfolding load_word
load_word-eq h i v fits small =
    rw (lt→ltb i program_words fits, le→leb v 0xFFFF (omega arith)) (assign-eq h i v fits)

module _ {m : Model} (h : IsWellFormed m) where
  inside_size : (i : ℕ) → i < program_words → i < length m.program
  inside_size i fits = omega (arith, h.program_ok.size)

  first_inside :
      (v : ℕ) (ws : List ℕ) (origin : ℕ) {m' : Model}
      → origin < program_words
      → Loaded ws (suc origin) (record m { program = set m.program origin v }) m'
      → (i : ℕ) → i < suc (length ws)
      → Laws.word_at m'.program (origin + i) ≡ get_or (v ∷ ws) i 0
  first_inside v ws origin {m'} fits later zero less = simp unary_clauses (
      later.below origin (omega arith)
      ∙ get_or-set_self m.program origin v 0 (inside_size origin fits))
  first_inside v ws origin {m'} fits later (suc i) less =
      rw (next origin i) (later.inside i (omega arith))

  first_word :
      (v : ℕ) (ws : List ℕ) (origin : ℕ) {m' : Model}
      → origin < program_words
      → Kept m (record m { program = set m.program origin v })
      → Loaded ws (suc origin) (record m { program = set m.program origin v }) m'
      → Loaded (v ∷ ws) origin m m'
  first_word v ws origin {m'} fits kept later = record {
    kept = Kept-trans kept later.kept;
    inside = first_inside v ws origin fits later;
    below =
        λ i less. later.below i (omega arith) ∙ get_or-set_ne m.program origin i v 0 (omega arith);
    above =
        λ i more. later.above i (omega arith) ∙ get_or-set_ne m.program origin i v 0 (omega arith);
  }

nothing_loaded : {m : Model} (origin : ℕ) → IsWellFormed m → Loaded [] origin m m
nothing_loaded origin h = record {
  kept = Kept-refl h;
  inside = λ i impossible. absurd (omega arith);
  below = λ i _. refl;
  above = λ i _. refl;
}

not_below : (i : ℕ) → program_words ≤ i → ltb i program_words ≡ false
not_below i past = ground arith

-- A load comes past the words that fit, whatever follows them.
pub record Reaches (ws : List ℕ) (origin : ℕ) (m : Model) : Type 0 where
  pub model : Model
  pub loaded : Loaded ws origin m model
  pub goes_on :
      (rest : List ℤ)
      → load_from (image ws ++ rest) origin m ≡ load_from rest (origin + length ws) model

pub load_from-Reaches :
    {m : Model} (ws : List ℕ) (origin : ℕ)
    → IsWellFormed m
    → AllBelow (2 ^ 16) ws
    → origin + length ws ≤ program_words
    → Reaches ws origin m
unfolding load_from
load_from-Reaches {m} [] origin h small fits = record {
  model = m;
  loaded = nothing_loaded origin h;
  goes_on = λ rest. simp unary_clauses refl;
}
load_from-Reaches {m} (w ∷ ws) origin h (AllBelow.cons small smalls) fits =
    let kept = Kept-program h origin w small in
    let later = load_from-Reaches ws (suc origin) kept.well_formed smalls (omega arith) in
    record {
      model = later.model;
      loaded = first_word h w ws origin (omega arith) kept later.loaded;
      goes_on = λ rest.
          rw (load_word-eq h origin w (omega arith) small, ◌>>=◌)
            (rw (next origin (length ws)) (later.goes_on rest));
    }

-- Past the end of the memory, the loop stops whatever the word is.
beyond :
    (i : ℕ) (word : ℤ) (rest : List ℤ) (m : Model)
    → program_words ≤ i
    → load_from (word ∷ rest) i m ≡ raised image_exceeds m
unfolding load_from load_word
beyond i (pos n) rest m past = rw (not_below i past) refl
beyond i (negsuc n) rest m past = rw (not_below i past) refl

image-end : (ws : List ℕ) → image ws ++ [] ≡ image ws
image-end [] = refl
image-end (w ∷ ws) = ap (λ (xs : List ℤ). pos w ∷ xs) (image-end ws)

module _ {m : Model} (ws : List ℕ) (origin : ℕ) (h : IsWellFormed m) (small : AllBelow (2 ^ 16) ws)
    (starts : origin < program_words) where
  -- `load_words` after its check of the origin.
  started : (words : List ℤ) → load_words words (pos origin) m ≡ load_from words origin m
  unfolding load_words
  started words = rw (lt→ltb origin program_words starts) refl

  -- In a well-formed model, a load of 16-bit words that fit between the origin and the end of the
  -- memory succeeds: the words stand from the origin on, every other word of the program memory is
  -- as before, and so is the interrupt pipeline.
  pub load_words-Loaded :
      origin + length ws ≤ program_words
      → (m' : Model) × (load_words (image ws) (pos origin) m ≡ done tt m') × Loaded ws origin m m'
  load_words-Loaded fits =
      let run = load_from-Reaches ws origin h small fits in
      (
        run.model,
        started (image ws) ∙ (rw (image-end ws) at (run.goes_on [])) ∙ unfold load_from in refl,
        run.loaded,
      )

  -- In a well-formed model, a load of 16-bit words that fill the memory from the origin to its end,
  -- and of at least one word more, raises that the image exceeds the program space, with the words
  -- that fit already written.
  pub load_words-image_exceeds :
      (word : ℤ) (rest : List ℤ)
      → origin + length ws ≡ program_words
      → (m' : Model) × (load_words (image ws ++ (word ∷ rest)) (pos origin) m
          ≡ raised image_exceeds m')
        × Loaded ws origin m m'
  load_words-image_exceeds word rest full =
      let run = load_from-Reaches ws origin h small (omega (arith, full)) in
      (
        run.model,
        started _
            ∙ run.goes_on (word ∷ rest)
            ∙ beyond (origin + length ws) word rest run.model (omega (arith, full)),
        run.loaded,
      )
