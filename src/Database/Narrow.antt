-- ===== src/Database/Narrow.antt =====
-- The entries whose opcode can match a word with a given high byte, and a comparison of the two decoders
-- on a block of words.
use tms32010_sv.Base.Cases.{some_or_none}
use tms32010_sv.Base.{
  ℕ, zero, suc, ◌+◌, ◌-◌, ◌*◌, ◌/◌, ◌%◌, ◌^◌, ◌≤◌, ◌<◌, ◌≡◌, ◌≢◌, ◌⊎◌, inl, inr, refl, ap, sym, ◌∙◌,
  arith, Bool, true, false, ◌&&◌, Bool-cases, List, [], ◌∷◌, ◌==◌, ==_iff, same_text, Option, none,
  some,
}
use tms32010_sv.Base.Bits.{bit_and-shift}
use tms32010_sv.Isa.{Instruction, Operands, mnemonic, decoded_operands}
use tms32010_sv.Decode.{decode}
use tms32010_sv.Database.{Pattern, Entry, same_ℤ, matches_masked, decode_entry, legal_matches}
use tms32010_sv.Database.Entries.{instructions}

-- A pattern on the high byte.
abbrev high : Pattern → Pattern
high p = record { mask = p.mask / 2 ^ 8; value = p.value / 2 ^ 8 }

unfoldable pub narrow : ℕ → List Entry → List Entry
narrow byte [] = []
narrow byte (entry ∷ rest) =
    let later = narrow byte rest in
    elim (matches_masked (high entry.opcode) byte) [ true ↦ entry ∷ later | false ↦ later ]

same_eq : (a b : ℕ) → (a == b) ≡ true → a ≡ b
same_eq a b h = (==_iff a b).0 h

eq_same : (a b : ℕ) → a ≡ b → (a == b) ≡ true
eq_same a b h = (==_iff a b).1 h

-- A word that matches a pattern matches it with its high byte.
matches-high :
    (p : Pattern) (word : ℕ)
    → matches_masked p word ≡ true
    → matches_masked (high p) (word / 2 ^ 8) ≡ true
matches-high p word h = eq_same _ _ (
    sym (bit_and-shift 8 word p.mask)
    ∙ ap (λ (x : ℕ). x / 2 ^ 8) (same_eq _ _ h)
    ∙ bit_and-shift 8 p.value p.mask)

different : true ≢ false
different h = cc

unmatched :
    (entry : Entry) (word : ℕ)
    → matches_masked (high entry.opcode) (word / 2 ^ 8) ≡ false
    → decode_entry entry word ≡ none
unfolding decode_entry
unmatched entry word h = elim (Bool-cases (matches_masked entry.opcode word)) [
  | inl matched ↦ absurd (different (sym (matches-high entry.opcode word matched) ∙ h))
  | inr other ↦ rw other refl
]

-- The other entries decode nothing of the word.
pub legal_matches-narrow :
    (entries : List Entry) (word : ℕ)
    → legal_matches (narrow (word / 2 ^ 8) entries) word ≡ legal_matches entries word
unfolding narrow legal_matches
legal_matches-narrow [] word = refl
legal_matches-narrow (entry ∷ rest) word =
    elim (Bool-cases (matches_masked (high entry.opcode) (word / 2 ^ 8))) [
      | inl kept ↦
          (let later = legal_matches-narrow rest word in
            elim (some_or_none (decode_entry entry word)) [
              | inl fails ↦ rw (kept, narrow, fails, legal_matches) later
              | inr (operands, match) ↦
                  rw (kept, narrow, match, legal_matches)
                    (ap (λ (xs : List (Entry × Operands)). (entry, operands) ∷ xs) later)
            ])
      | inr dropped ↦
          rw (dropped, narrow, unmatched entry word dropped, legal_matches)
            (legal_matches-narrow rest word)
    ]

-- The comparison of the two decoders at one word: neither knows it, or both have one mnemonic for it
-- with the same operands.
abbrev pub same_operands : Operands → Operands → Bool
same_operands [] [] = true
same_operands ((a, x) ∷ r) ((b, y) ∷ s) = same_text a b && same_ℤ x y && same_operands r s
same_operands _ _ = false

abbrev pub same_decoding : Option Instruction → List (Entry × Operands) → Bool
same_decoding none [] = true
same_decoding (some i) ((entry, operands) ∷ []) =
    same_text (mnemonic i) entry.mnemonic && same_operands (decoded_operands i) operands
same_decoding _ _ = false

abbrev agrees_among : List Entry → ℕ → Bool
agrees_among entries word = same_decoding (decode word) (legal_matches entries word)

-- The comparison at `count` words, and at all words of `count` high bytes.
unfoldable pub row : List Entry → ℕ → ℕ → Bool
row entries start zero = true
row entries start (suc n) = elim (agrees_among entries (start + n)) [
  | true ↦ row entries start n
  | false ↦ false
]

unfoldable pub rows : ℕ → ℕ → Bool
unfolding row
rows start zero = true
rows start (suc n) = elim (row (narrow (start + n) instructions) ((start + n) * 2 ^ 8) (2 ^ 8)) [
  | true ↦ rows start n
  | false ↦ false
]

earlier_or_last : (a b : ℕ) → a < suc b → (a < b) ⊎ (a ≡ b)
earlier_or_last a b h = ground arith

both_true : (a b : Bool) → elim a [ true ↦ b | false ↦ false ] ≡ true → (a ≡ true) × (b ≡ true)
both_true true b h = (refl, h)
both_true false b h = absurd (different (sym h))

row-each :
    (entries : List Entry) (start n k : ℕ)
    → row entries start n ≡ true
    → k < n
    → agrees_among entries (start + k) ≡ true
unfolding row
row-each entries start zero k h below = absurd (omega arith)
row-each entries start (suc n) k h below =
    let parts = both_true (agrees_among entries (start + n)) (row entries start n) h in
    elim (earlier_or_last k n below) [
      | inl earlier ↦ row-each entries start n k parts.1 earlier
      | inr same ↦ rw same parts.0
    ]

rows-row :
    (start n k : ℕ)
    → rows start n ≡ true
    → k < n
    → row (narrow (start + k) instructions) ((start + k) * 2 ^ 8) (2 ^ 8) ≡ true
unfolding rows
rows-row start zero k h below = absurd (omega arith)
rows-row start (suc n) k h below =
    let parts =
      both_true (row (narrow (start + n) instructions) ((start + n) * 2 ^ 8) (2 ^ 8)) (rows start n)
        h in
    elim (earlier_or_last k n below) [
      | inl earlier ↦ rows-row start n k parts.1 earlier
      | inr same ↦ rw same parts.0
    ]

back : (a b : ℕ) → a ≤ b → a + (b - a) ≡ b
back a b h = omega arith

whole : (word : ℕ) → word / 2 ^ 8 * 2 ^ 8 + word % 2 ^ 8 ≡ word
whole word = omega arith

-- A comparison of blocks covers each of their words.
pub rows-each :
    (start n word : ℕ)
    → rows start n ≡ true
    → start * 2 ^ 8 ≤ word
    → word < (start + n) * 2 ^ 8
    → same_decoding (decode word) (legal_matches instructions word) ≡ true
rows-each start n word h above below =
    let byte = word / 2 ^ 8 in
    let low = word % 2 ^ 8 in
    let block =
      rw (back start byte (omega arith)) at (rows-row start n (byte - start) h (omega arith)) in
    let compared =
      row-each (narrow byte instructions) (byte * 2 ^ 8) (2 ^ 8) low block (omega arith) in
    rw⁻¹ (legal_matches-narrow instructions word) (rw (whole word) at compared)
