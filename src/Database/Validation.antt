-- ===== src/Database/Validation.antt =====
-- tools/generators/isa_database.py: the check of `validate_database` that no two entries decode one
-- word, which runs over all words of 16 bits.
use tms32010_sv.Base.Cases.{some_or_none}
use Prim.Native.String.{String}
use tms32010_sv.Base.{
  ℕ, zero, suc, ◌≤◌, ◌<◌, ◌≡◌, ◌≢◌, ◌⊎◌, inl, inr, refl, ap, arith, Bool, true, false, Bool-cases,
  List, [], ◌∷◌, le→leb, if◌then◌else◌, Option, none, some,
}
use tms32010_sv.Isa.{Operands}
use tms32010_sv.Database.{Entry, Checked, ok, failed, decode_entry, legal_matches, decode_word}

pub data CollisionError : Type 0 where
  decode_collision : ℕ → List String → CollisionError

-- `matches`: the mnemonics of the entries that decode the word.
unfoldable pub matching_names : List Entry → ℕ → List String
matching_names [] word = []
matching_names (entry ∷ rest) word =
    let later = matching_names rest word in
    elim (decode_entry entry word) [ none ↦ later | some _ ↦ entry.mnemonic ∷ later ]

-- `len(matches) > 1`.
abbrev pub is_collision : List String → Bool
is_collision (_ ∷ _ ∷ _) = true
is_collision _ = false

-- The loop over the words below a bound, which stops at the first collision.
unfoldable pub collisions_below : List Entry → ℕ → Checked CollisionError (Unit {0})
unfolding matching_names
collisions_below entries zero = ok tt
collisions_below entries (suc word) = elim (collisions_below entries word) [
  | failed e ↦ failed e
  | ok _ ↦
      if is_collision (matching_names entries word)
      then failed (decode_collision word (matching_names entries word))
      else ok tt
]

abbrev passes : Checked CollisionError (Unit {0})
passes = ok tt

abbrev refuses : CollisionError → Checked CollisionError (Unit {0})
refuses e = failed e

not_refused : {e : CollisionError} → refuses e ≢ passes
not_refused h = cc

outcome_cases :
    (c : Checked CollisionError (Unit {0}))
    → (c ≡ passes) ⊎ ((e : CollisionError) × (c ≡ refuses e))
outcome_cases (ok tt) = inl refl
outcome_cases (failed e) = inr (e, refl)

pub earlier_or_last : (a b : ℕ) → a < suc b → (a < b) ⊎ (a ≡ b)
earlier_or_last a b h = ground arith

-- The last word of a loop that has come to its end.
collisions_below-last :
    (entries : List Entry) (bound : ℕ)
    → collisions_below entries (suc bound) ≡ passes
    → (collisions_below entries bound ≡ passes)
      × (is_collision (matching_names entries bound) ≡ false)
unfolding collisions_below
collisions_below-last entries bound h = elim (outcome_cases (collisions_below entries bound)) [
  | inr (e, refused) ↦ absurd (not_refused (rw (refused, collisions_below) at h))
  | inl before ↦ elim (Bool-cases (is_collision (matching_names entries bound))) [
    | inl collides ↦ absurd (not_refused (rw (before, collisions_below, collides) at h))
    | inr single ↦ (before, single)
  ]
]

-- Every word below the bound is free of collisions, if the loop comes to its end.
pub collisions_below-each :
    (entries : List Entry) (bound word : ℕ)
    → collisions_below entries bound ≡ passes
    → word < bound
    → is_collision (matching_names entries word) ≡ false
collisions_below-each entries zero word h below = absurd (omega arith)
collisions_below-each entries (suc bound) word h below =
    let last = collisions_below-last entries bound h in
    elim (earlier_or_last word bound below) [
      | inl earlier ↦ collisions_below-each entries bound word last.0 earlier
      | inr same ↦ rw same last.1
    ]

abbrev pub names : List (Entry × Operands) → List String
names [] = []
names ((entry, _) ∷ rest) = entry.mnemonic ∷ names rest

pub matching_names-legal_matches :
    (entries : List Entry) (word : ℕ)
    → matching_names entries word ≡ names (legal_matches entries word)
unfolding matching_names legal_matches
matching_names-legal_matches [] word = refl
matching_names-legal_matches (entry ∷ rest) word = elim (some_or_none (decode_entry entry word)) [
  | inl e ↦ rw (e, legal_matches, matching_names) (matching_names-legal_matches rest word)
  | inr (operands, e) ↦
      rw (e, legal_matches, matching_names)
        (ap (λ (ns : List String). entry.mnemonic ∷ ns) (matching_names-legal_matches rest word))
]

distinct : true ≢ false
distinct h = cc

-- What `decode_word` makes of matches that are no collision.
single_verdict :
    (entries : List Entry) (word : ℕ) (matches : List (Entry × Operands))
    → legal_matches entries word ≡ matches
    → is_collision (names matches) ≡ false
    → word ≤ 0xFFFF
    → (found : Option (Entry × Operands)) × (decode_word entries word ≡ ok found)
unfolding decode_word
single_verdict [] word matches e single fits = (none, refl)
single_verdict (entry ∷ rest) word [] e single fits = (none, rw (le→leb word 0xFFFF fits, e) refl)
single_verdict (entry ∷ rest) word (found ∷ []) e single fits =
    (some found, rw (le→leb word 0xFFFF fits, e) refl)
single_verdict (entry ∷ rest) word (found ∷ other ∷ more) e single fits = absurd (distinct single)

-- A database that passes the collision check of `validate_database` decodes without an error: for every
-- word of 16 bits, `decode_word` returns an entry or none.
pub decode_word-validated :
    (entries : List Entry) (word : ℕ)
    → collisions_below entries 0x1_0000 ≡ ok tt
    → word ≤ 0xFFFF
    → (found : Option (Entry × Operands)) × (decode_word entries word ≡ ok found)
decode_word-validated entries word checked fits =
    single_verdict entries word (legal_matches entries word) refl
      (rw (matching_names-legal_matches entries word) at
        (collisions_below-each entries 0x1_0000 word checked (omega arith)))
      fits
