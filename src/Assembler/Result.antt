-- ===== src/Assembler/Result.antt =====
-- tools/assembler/tms32010_as.py: the class `AssemblyResult`.
use Prim.Native.String.{String, ◌++◌ as ◌+++◌}
use tms32010_sv.Base.{
  ℕ, zero, suc, ◌/◌, ◌%◌, Bool, ◌||◌, not, List, [], ◌∷◌, ◌++◌, leb, ◌==◌, same_text, if◌then◌else◌,
}
use tms32010_sv.Base.Int.{ℤ, pos, negsuc}
use tms32010_sv.Base.Text.{Text, codes, rstrip}
use tms32010_sv.Database.{Checked, ok, failed}
use tms32010_sv.Disassembler.Format.{hex, decimal}
use tms32010_sv.Assembler.Passes.{ListingRow}

-- The `ValueError`s of `raw_bytes`, and the `OverflowError` of `to_bytes`.
pub data ImageError : Type 0 where
  bad_byteorder bad_fill overflow : ImageError

abbrev max : ℕ → ℕ → ℕ
max a b = if leb a b then b else a

-- The end of `address_range`.
unfoldable pub address_end : List (ℕ × ℤ) → ℕ
address_end [] = 0
address_end ((address, _) ∷ rest) = max (suc address) (address_end rest)

-- `words.get(address, fill)`.
unfoldable pub word_at : List (ℕ × ℤ) → ℤ → ℕ → ℤ
word_at [] fill address = fill
word_at ((other, word) ∷ rest) fill address =
    let later = word_at rest fill address in if other == address then word else later

-- The words of an image, from an address on.
unfoldable pub image : List (ℕ × ℤ) → ℤ → ℕ → ℕ → List ℤ
unfolding word_at
image words fill address zero = []
image words fill address (suc n) = word_at words fill address ∷ image words fill (suc address) n

-- `word.to_bytes(2, byteorder)`, and their concatenation.
abbrev bytes_of : Bool → ℕ → List ℕ
bytes_of big word = if big then word / 256 ∷ word % 256 ∷ [] else word % 256 ∷ word / 256 ∷ []

unfoldable pub to_bytes : Bool → List ℤ → Checked ImageError (List ℕ)
to_bytes big [] = ok []
to_bytes big (negsuc n ∷ rest) = failed overflow
to_bytes big (pos n ∷ rest) =
    let later = to_bytes big rest in
    if leb n 0xFFFF
    then (elim later [ ok bytes ↦ ok (bytes_of big n ++ bytes) | failed e ↦ failed e ])
    else failed overflow

-- `raw_bytes`.
unfoldable pub raw_bytes : List (ℕ × ℤ) → String → ℤ → Checked ImageError (List ℕ)
unfolding image address_end to_bytes
raw_bytes words byteorder fill =
    if not (same_text byteorder "big" || same_text byteorder "little")
    then failed bad_byteorder
    else (elim fill [
      | negsuc n ↦ failed bad_fill
      | pos n ↦
          if leb n 0xFFFF
          then to_bytes (same_text byteorder "big") (image words (pos n) 0 (address_end words))
          else failed bad_fill
    ])

-- `f"{word:04x}"`.
abbrev hex_word : ℤ → String
hex_word (pos n) = hex 4 n
hex_word (negsuc n) = "-" +++ hex 3 (suc n)

abbrev hex_rows : List ℤ → List String
hex_rows [] = []
hex_rows (word ∷ rest) = (hex_word word +++ "\n") ∷ hex_rows rest

-- The rows of `hex_text`.
unfoldable pub hex_text : List (ℕ × ℤ) → ℤ → List String
unfolding image address_end hex
hex_text words fill = hex_rows (image words fill 0 (address_end words))

-- A row of `listing_text`, and its rows.
unfoldable pub listing_line : ListingRow → Text
unfolding hex decimal rstrip
listing_line row =
    codes (hex 3 row.address +++ " " +++ hex_word row.word +++ " ")
    ++ row.source.path
    ++ codes (":" +++ decimal (pos row.source.number) +++ " ")
    ++ rstrip row.source.text
    ++ codes "\n"

unfoldable pub listing_text : List ListingRow → List Text
unfolding listing_line
listing_text [] = []
listing_text (row ∷ rows) = listing_line row ∷ listing_text rows
