-- ===== src/Assembler/LoadBack.antt =====
-- tools/assembler/tms32010_as.py: `raw_bytes`, against `load_binary` of
-- sim/reference_models/tms32010_model.py, which reads its bytes back.
use Prim.Native.String.{String}
use tms32010_sv.Base.{
  ℕ, zero, suc, ◌+◌, ◌*◌, ◌/◌, ◌%◌, ◌^◌, ◌≤◌, ◌<◌, ◌≡◌, inl, inr, refl, sym, ◌∙◌, ap, arith, Bool,
  true, false, Bool-cases, ◌||◌, List, [], ◌∷◌, ◌++◌, le→leb, ◌==◌, length, AllBelow, same_text,
  if◌then◌else◌, done,
}
use tms32010_sv.Base.Int.{ℤ, pos}
use tms32010_sv.Machine.{Model}
use tms32010_sv.Access.Laws
use tms32010_sv.WellFormed.{IsWellFormed}
use tms32010_sv.Database.{ok}
use tms32010_sv.Loader.{words_of, load_binary}
use tms32010_sv.Loader.Laws.{image as numbers_image, Loaded, load_words-Loaded}
use tms32010_sv.Assembler.Source.{program_words}
use tms32010_sv.Assembler.Result.{address_end, word_at, image, to_bytes, raw_bytes}
use tms32010_sv.Assembler.Placement.{Placed, nothing, then_word}

-- Bytes that stand for some words.
record Packed (big : Bool) (ns : List ℕ) : Type 0 where
  bytes : List ℕ
  packed : to_bytes big (numbers_image ns) ≡ ok bytes
  unpacked : words_of big bytes ≡ numbers_image ns
  even : length bytes % 2 ≡ 0

split_word : (n : ℕ) → n / 256 * 256 + n % 256 ≡ n
split_word n = omega arith

two_more : (n : ℕ) → n % 2 ≡ 0 → suc (suc n) % 2 ≡ 0
two_more n h = omega arith

pack : (big : Bool) (ns : List ℕ) → AllBelow (2 ^ 16) ns → Packed big ns
unfolding to_bytes words_of
pack big [] small = record { bytes = []; packed = refl; unpacked = refl; even = refl }
pack true (n ∷ ns) (AllBelow.cons fits small) =
    let later = pack true ns small in
    record {
      bytes = n / 256 ∷ n % 256 ∷ later.bytes;
      packed = rw (le→leb n 0xFFFF (omega arith), later.packed) refl;
      unpacked = rw (later.unpacked, split_word n) refl;
      even = two_more (length later.bytes) later.even;
    }
pack false (n ∷ ns) (AllBelow.cons fits small) =
    let later = pack false ns small in
    record {
      bytes = n % 256 ∷ n / 256 ∷ later.bytes;
      packed = rw (le→leb n 0xFFFF (omega arith), later.packed) refl;
      unpacked = rw (later.unpacked, split_word n) refl;
      even = two_more (length later.bytes) later.even;
    }

pub word_at-append :
    (words : List (ℕ × ℤ)) (last : ℕ) (word fill : ℤ) (address : ℕ)
    → word_at (words ++ ((last, word) ∷ [])) fill address
      ≡ word_at words (if last == address then word else fill) address
unfolding word_at
word_at-append [] last word fill address = refl
word_at-append ((other, value) ∷ words) last word fill address =
    ap (λ (later : ℤ). if other == address then value else later)
      (word_at-append words last word fill address)

-- A word of a placed image fits 16 bits.
word_at-Placed :
    {words : List (ℕ × ℤ)} (address fill : ℕ)
    → Placed words
    → fill ≤ 0xFFFF
    → (n : ℕ) × (word_at words (pos fill) address ≡ pos n) × (n ≤ 0xFFFF)
unfolding word_at
word_at-Placed address fill nothing fits = (fill, refl, fits)
word_at-Placed address fill
      (then_word {words} {address = last} {word = word} placed inside free small) fits =
    elim (Bool-cases (last == address)) [
      | inl here ↦
          (let (n, e, below) = word_at-Placed address word placed small in
            (n, word_at-append words last (pos word) (pos fill) address ∙ rw here e, below))
      | inr elsewhere ↦
          (let (n, e, below) = word_at-Placed address fill placed fits in
            (n, word_at-append words last (pos word) (pos fill) address ∙ rw elsewhere e, below))
    ]

address_end-append :
    (words : List (ℕ × ℤ)) (last : ℕ) (word : ℤ) (bound : ℕ)
    → address_end words ≤ bound
    → last < bound
    → address_end (words ++ ((last, word) ∷ [])) ≤ bound
unfolding address_end
address_end-append [] last word bound h below = ground arith
address_end-append ((other, value) ∷ words) last word bound h below =
    ground (arith, address_end-append words last word bound)

address_end-Placed : {words : List (ℕ × ℤ)} → Placed words → address_end words ≤ program_words
unfolding address_end
address_end-Placed nothing = omega arith
address_end-Placed (then_word {words} {address = last} {word = word} placed inside free small) =
    address_end-append words last (pos word) program_words (address_end-Placed placed) inside

-- The words of an image from an address on, as numbers.
record Numbers (words : List (ℕ × ℤ)) (fill : ℤ) (address n : ℕ) : Type 0 where
  numbers : List ℕ
  same : image words fill address n ≡ numbers_image numbers
  size : length numbers ≡ n
  small : AllBelow (2 ^ 16) numbers
  each : (i : ℕ) → i < n → pos (Laws.word_at numbers i) ≡ word_at words fill (address + i)

plus_zero : (a : ℕ) → a + 0 ≡ a
plus_zero a = omega arith

plus_suc : (a i : ℕ) → a + suc i ≡ suc a + i
plus_suc a i = omega arith

zero_plus : (i : ℕ) → 0 + i ≡ i
zero_plus i = omega arith

image-Numbers :
    {words : List (ℕ × ℤ)} (fill address n : ℕ)
    → Placed words
    → fill ≤ 0xFFFF
    → Numbers words (pos fill) address n
unfolding image
image-Numbers fill address zero placed fits = record {
  numbers = [];
  same = refl;
  size = refl;
  small = AllBelow.nil;
  each = λ i below. absurd (omega arith);
}
image-Numbers {words} fill address (suc n) placed fits =
    let later = image-Numbers fill (suc address) n placed fits in
    let (k, e, below) = word_at-Placed address fill placed fits in
    record {
      numbers = k ∷ later.numbers;
      same = rw (e, later.same) refl;
      size = ap suc later.size;
      small = AllBelow.cons (omega arith) later.small;
      each = numbered words (pos fill) address n k later.numbers e later.each;
    }
  where
    numbered :
        (words : List (ℕ × ℤ)) (fill : ℤ) (address n k : ℕ) (rest : List ℕ)
        → word_at words fill address ≡ pos k
        → ((i : ℕ) → i < n → pos (Laws.word_at rest i) ≡ word_at words fill (suc address + i))
        → (i : ℕ) → i < suc n
        → pos (Laws.word_at (k ∷ rest) i) ≡ word_at words fill (address + i)
    numbered words fill address n k rest e h zero below = rw (plus_zero address) (sym e)
    numbered words fill address n k rest e h (suc i) below =
        rw (plus_suc address i) (h i (omega arith))

-- The memory after the load of an image with a fill: the words of the image below its end, and every
-- other word as before.
pub record LoadedImage (words : List (ℕ × ℤ)) (fill : ℤ) (before after : Model) : Type 0 where
  pub inside :
      (i : ℕ) → i < address_end words → pos (Laws.word_at after.program i) ≡ word_at words fill i
  pub beyond :
      (i : ℕ) → address_end words ≤ i → Laws.word_at after.program i ≡ Laws.word_at before.program i

loaded_image :
    {words : List (ℕ × ℤ)} {fill : ℤ} {m m' : Model} (ns : Numbers words fill 0 (address_end words))
    → Loaded ns.numbers 0 m m'
    → LoadedImage words fill m m'
loaded_image {words} {fill} ns loaded = record {
  inside = λ i below.
      ap pos (rw (zero_plus i) at (loaded.inside i (omega (arith, ns.size))))
      ∙ (rw (zero_plus i) at (ns.each i below));
  beyond = λ i above. loaded.above i (omega (arith, ns.size));
}

-- What `raw_bytes` writes, `load_binary` reads back: for words that were placed one by one, a fill of
-- 16 bits and either byte order, `raw_bytes` returns bytes, and `load_binary` of them at 0 into a
-- well-formed model succeeds, with each word of the image at its address and no other word changed.
pub load_binary-raw_bytes :
    (words : List (ℕ × ℤ)) (byteorder : String) (fill : ℕ) (m : Model)
    → Placed words
    → fill ≤ 0xFFFF
    → (same_text byteorder "big" || same_text byteorder "little") ≡ true
    → IsWellFormed m
    → (bytes : List ℕ) × (raw_bytes words byteorder (pos fill) ≡ ok bytes)
      × ((m' : Model) × (load_binary bytes byteorder (pos 0) m ≡ done tt m')
          × LoadedImage words (pos fill) m m')
unfolding raw_bytes load_binary
load_binary-raw_bytes words byteorder fill m placed fits order h =
    let image_words = image-Numbers fill 0 (address_end words) placed fits in
    let stream = pack (same_text byteorder "big") image_words.numbers image_words.small in
    let within_memory = address_end-Placed placed in
    let (m', run, loaded) =
      load_words-Loaded image_words.numbers 0 h image_words.small (omega arith)
        (omega (arith, image_words.size)) in
    (
      stream.bytes,
      rw (order, le→leb fill 0xFFFF fits, image_words.same) stream.packed,
      (m', rw (order, stream.even, stream.unpacked) run, loaded_image image_words loaded),
    )
