-- ===== src/Disassembler/Rows.antt =====
-- The rows of `disassemble_listing`.
use Prim.Native.String.{String, ◌++◌}
use tms32010_sv.Base.{
  ℕ, suc, ◌+◌, ◌≤◌, ◌<◌, ◌≡◌, ◌≢◌, refl, arith, false, List, [], ◌∷◌, ◌==◌, leb, le→leb, length,
  Bool-cases, ◌⊎◌, inl, inr, Option, none, some,
}
use tms32010_sv.Isa.{Operands}
use tms32010_sv.Database.{Entry, ok, failed}
use tms32010_sv.Disassembler.{
  D, DisassemblyError, ◌>>=◌, decoded, disassemble_word, pair_at, listing_row, target_text,
  in_space, listing_rows, disassemble_listing,
}
use tms32010_sv.Disassembler.Format.{hex}

-- The rows that list the words from an address on: each shows its address and its word.
pub data Lists : List ℕ → ℕ → List String → Type 0 where
  no_row : {address : ℕ} → Lists [] address []
  row :
      {word : ℕ} {words : List ℕ} {address : ℕ} {rows : List String} (text : String)
      → Lists words (suc address) rows
      → Lists (word ∷ words) address (listing_row address word text ∷ rows)

-- Every word has a text of its own.
pub data AllText (entries : List Entry) : List ℕ → Type 0 where
  no_word : AllText entries []
  text_of :
      {word : ℕ} {words : List ℕ} (text : String)
      → disassemble_word entries word ≡ ok text
      → AllText entries words
      → AllText entries (word ∷ words)

-- A listing succeeds, with those rows.
Listing : D (List String) → List ℕ → ℕ → Type 0
Listing outcome words address =
    (rows : List String) × (outcome ≡ ok rows) × Lists words address rows

decoded_cases :
    (entries : List Entry) (word : ℕ)
    → ((found : Option (Entry × Operands)) × (decoded entries word ≡ ok found))
      ⊎ ((e : DisassemblyError) × (decoded entries word ≡ failed e))
decoded_cases entries word = cases (decoded entries word)
  where
    cases :
        (d : D (Option (Entry × Operands)))
        → ((found : Option (Entry × Operands)) × (d ≡ ok found))
          ⊎ ((e : DisassemblyError) × (d ≡ failed e))
    cases (ok found) = inl (found, refl)
    cases (failed e) = inr (e, refl)

abbrev returned : String → D String
returned text = ok text

text_fails : {e : DisassemblyError} {text : String} → failed e ≢ returned text
text_fails h = cc

-- A word with a text has been decoded without an error.
text-decoded :
    (entries : List Entry) (word : ℕ) {text : String}
    → disassemble_word entries word ≡ ok text
    → (found : Option (Entry × Operands)) × (decoded entries word ≡ ok found)
unfolding disassemble_word
text-decoded entries word h = elim (decoded_cases entries word) [
  | inl found ↦ found
  | inr (e, fails) ↦ elim (Bool-cases (leb word 0xFFFF)) [
    | inl fits ↦ absurd (text_fails (rw fits at (rw fails at h)))
    | inr beyond ↦ absurd (text_fails (rw beyond at h))
  ]
]

in_space_lem : (address : ℕ) → address < 0x1000 → in_space address ≡ ok tt
in_space_lem address fits = rw (le→leb address 0xFFF (omega arith)) refl

last_word : (address : ℕ) → address < 0xFFF → (address == 0xFFF) ≡ false
last_word address before = ground arith

after_first :
    {entries : List Entry} {word : ℕ} {words : List ℕ}
    → AllText entries (word ∷ words)
    → AllText entries words
after_first (text_of text h more) = more

pair_cases : (o : Option String) → (o ≡ none) ⊎ ((m : String) × (o ≡ some m))
pair_cases none = inl refl
pair_cases (some m) = inr (m, refl)

listing_rows-Listing :
    (entries : List Entry) (words : List ℕ) (address : ℕ)
    → AllText entries words
    → address + length words ≤ 0x1000
    → Listing (listing_rows entries words address) words address
unfolding listing_rows Listing
listing_rows-Listing entries [] address no_word fits = ([], refl, no_row)
listing_rows-Listing entries (word ∷ []) address (text_of text h no_word) fits =
    let found = text-decoded entries word h in
    rw (in_space_lem address (omega arith), found.1, h)
      (listing_row address word text ∷ [], refl, row text no_row)
listing_rows-Listing entries (word ∷ target ∷ rest) address (text_of text h more) fits =
    let found = text-decoded entries word h in
    elim (pair_cases (pair_at found.0 target)) [
      | inl alone ↦
          (let later =
              listing_rows-Listing entries (target ∷ rest) (suc address) more (omega arith) in
            rw (in_space_lem address (omega arith), found.1, ◌>>=◌, alone, h, later.1)
              (listing_row address word text ∷ later.0, refl, row text later.2))
      | inr (mnemonic, pair) ↦
          (let later =
              listing_rows-Listing entries rest (suc (suc address)) (after_first more)
                (omega arith) in
            rw
              (
                in_space_lem address (omega arith),
                found.1,
                ◌>>=◌,
                pair,
                last_word address (omega arith),
                later.1,
              )
              (
                _,
                refl,
                row (mnemonic ++ " 0x" ++ hex 3 target) (row (target_text mnemonic target) later.2),
              ))
    ]

-- A listing of an image that fits the 4096 words, whose words all have a text, succeeds: it has one row
-- for each word, in order, which shows the word at its address.
pub disassemble_listing-Lists :
    (entries : List Entry) (words : List ℕ) (origin : ℕ)
    → AllText entries words
    → origin < 0x1000
    → origin + length words ≤ 0x1000
    → (rows : List String) × (disassemble_listing entries words origin ≡ ok rows)
      × Lists words origin rows
unfolding disassemble_listing Listing
disassemble_listing-Lists entries words origin texts starts fits =
    rw (le→leb origin 0xFFF (omega arith)) (listing_rows-Listing entries words origin texts fits)
