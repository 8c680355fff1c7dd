-- ===== src/Database/Matches/Laws.antt =====
-- What the last loop of `validate_database` in tools/generators/isa_database.py has found at its end.
use Prim.Native.String.{String}
use tms32010_sv.Base.{
  ℕ, zero, suc, ◌≤◌, ◌<◌, ◌≡◌, ◌≢◌, ◌⊎◌, inl, inr, refl, ◌∙◌, sym, ap, arith, Bool, true, false,
  ◌||◌, Bool-cases, List, [], ◌∷◌, ◌==◌, none, some, same_text, le→leb, if◌then◌else◌,
}
use tms32010_sv.Base.Cases.{no, absent}
use tms32010_sv.Base.Text.{same_text-eq}
use tms32010_sv.Isa.{Operands}
use tms32010_sv.Database.{Entry, ok, legal_matches, decode_word}
use tms32010_sv.Database.Chains.{not_raised, same_value, outcome_cases}
use tms32010_sv.Database.Validation.{
  matching_names, is_collision, collisions_below, collisions_below-each, names,
  matching_names-legal_matches,
}
use tms32010_sv.Database.Matches.{
  holds_name, MatchCounts, mnemonics, no_matches, count_match, count_matches, matches_below,
  never_matched,
}

-- The dictionary whose values a function gives.
abbrev pub table : (String → ℕ) → List String → MatchCounts
table f [] = []
table f (name ∷ names) = (name, f name) ∷ table f names

abbrev pub one_more : String → (String → ℕ) → String → ℕ
one_more mnemonic f name = if same_text name mnemonic then suc (f name) else f name

abbrev pub more : List String → (String → ℕ) → String → ℕ
more [] f = f
more (mnemonic ∷ rest) f = more rest (one_more mnemonic f)

-- How often a name is among the matches of the words below a bound.
abbrev pub hits : List Entry → ℕ → String → ℕ
hits entries zero name = 0
hits entries (suc word) name = more (matching_names entries word) (hits entries word) name

no_matches-table : (names : List String) → no_matches names ≡ table (λ name. 0) names
unfolding no_matches
no_matches-table [] = refl
no_matches-table (name ∷ names) =
    ap (λ (rest : MatchCounts). (name, 0) ∷ rest) (no_matches-table names)

count_match-table :
    (mnemonic : String) (f : String → ℕ) (names : List String)
    → count_match mnemonic (table f names) ≡ table (one_more mnemonic f) names
unfolding count_match
count_match-table mnemonic f [] = refl
count_match-table mnemonic f (name ∷ names) =
    ap (λ (rest : MatchCounts). (name, one_more mnemonic f name) ∷ rest)
      (count_match-table mnemonic f names)

count_matches-table :
    (ms : List String) (f : String → ℕ) (names : List String)
    → count_matches ms (table f names) ≡ table (more ms f) names
unfolding count_matches
count_matches-table [] f names = refl
count_matches-table (mnemonic ∷ rest) f names =
    ap (count_matches rest) (count_match-table mnemonic f names)
    ∙ count_matches-table rest (one_more mnemonic f) names

-- The loop that has come to its end has found no collision, and its counts are the hits.
pub matches_below-table :
    (entries : List Entry) (bound : ℕ) (counts : MatchCounts)
    → matches_below entries bound ≡ ok counts
    → (collisions_below entries bound ≡ ok tt)
      × (counts ≡ table (hits entries bound) (mnemonics entries))
unfolding matches_below collisions_below
matches_below-table entries zero counts h =
    (refl, sym (same_value h) ∙ no_matches-table (mnemonics entries))
matches_below-table entries (suc word) counts h =
    elim (outcome_cases (matches_below entries word)) [
      | inl (e, refused) ↦ absurd (not_raised (rw (refused, matches_below) at h))
      | inr (before, found) ↦ elim (Bool-cases (is_collision (matching_names entries word))) [
        | inl collides ↦ absurd (not_raised (rw (found, matches_below, collides) at h))
        | inr single ↦
            (let (checked, e) = matches_below-table entries word before found in
              (
                rw (checked, collisions_below, single) refl,
                sym (same_value (rw (found, matches_below, single) at h))
                    ∙ ap (count_matches (matching_names entries word)) e
                    ∙ count_matches-table (matching_names entries word) (hits entries word)
                        (mnemonics entries),
              ))
      ]
    ]

-- The other way: without collisions, the loop comes to its end.
pub matches_below-ends :
    (entries : List Entry) (bound : ℕ)
    → collisions_below entries bound ≡ ok tt
    → (counts : MatchCounts) × (matches_below entries bound ≡ ok counts)
unfolding matches_below collisions_below
matches_below-ends entries zero h = (_, refl)
matches_below-ends entries (suc word) h = elim (outcome_cases (collisions_below entries word)) [
  | inl (e, refused) ↦ absurd (not_raised (rw (refused, collisions_below) at h))
  | inr (_, before) ↦ elim (Bool-cases (is_collision (matching_names entries word))) [
    | inl collides ↦ absurd (not_raised (rw (before, collisions_below, collides) at h))
    | inr single ↦
        (let (counts, e) = matches_below-ends entries word before in
          (count_matches (matching_names entries word) counts, rw (e, matches_below, single) refl))
  ]
]

-- A name that has been counted is among the matches, or had been counted before.
more-holds_name :
    (ms : List String) (f : String → ℕ) (name : String)
    → (more ms f name == 0) ≡ false
    → (holds_name name ms ≡ true) ⊎ ((f name == 0) ≡ false)
more-holds_name [] f name h = inr h
more-holds_name (mnemonic ∷ rest) f name h =
    elim (more-holds_name rest (one_more mnemonic f) name h) [
      | inl later ↦ inl (ground arith)
      | inr counted ↦ ground arith
    ]

hits-holds_name :
    (entries : List Entry) (bound : ℕ) (name : String)
    → (hits entries bound name == 0) ≡ false
    → (word : ℕ) × (word < bound) × (holds_name name (matching_names entries word) ≡ true)
hits-holds_name entries zero name h = absurd (no (sym h))
hits-holds_name entries (suc word) name h =
    elim (more-holds_name (matching_names entries word) (hits entries word) name h) [
      | inl here ↦ (word, omega arith, here)
      | inr before ↦
          (let (w, below, found) = hits-holds_name entries word name before in
            (w, omega arith, found))
    ]

never_matched-table :
    (f : String → ℕ) (ns : List String) (name : String)
    → never_matched (table f ns) ≡ none
    → holds_name name ns ≡ true
    → (f name == 0) ≡ false
unfolding never_matched
never_matched-table f [] name h listed = absurd (no listed)
never_matched-table f (other ∷ rest) name h listed = elim (Bool-cases (f other == 0)) [
  | inl missing ↦ absurd (absent (sym (rw missing at h)))
  | inr counted ↦ elim (Bool-cases (same_text name other)) [
    | inl same ↦ rw (same_text-eq name other same) counted
    | inr differs ↦ never_matched-table f rest name (rw counted at h) (rw differs at listed)
  ]
]

abbrev nothing_found : List (Entry × Operands)
nothing_found = []

not_empty :
    {found : Entry × Operands} {rest : List (Entry × Operands)} → nothing_found ≢ found ∷ rest
not_empty h = cc

only : (b : Bool) → (b || false) ≡ true → b ≡ true
only b h = ground arith

-- The one match of a word is what `decode_word` returns.
single_match :
    (entries : List Entry) (word : ℕ) (name : String) (matches : List (Entry × Operands))
    → legal_matches entries word ≡ matches
    → is_collision (names matches) ≡ false
    → holds_name name (names matches) ≡ true
    → word ≤ 0xFFFF
    → (entry : Entry) × (operands : Operands) × (decode_word entries word
        ≡ ok (some (entry, operands)))
      × (entry.mnemonic ≡ name)
unfolding decode_word legal_matches
single_match entries word name [] e single listed fits = absurd (no listed)
single_match [] word name (found ∷ more) e single listed fits = absurd (not_empty e)
single_match (first ∷ rest) word name ((entry, operands) ∷ []) e single listed fits = (
  entry,
  operands,
  rw (le→leb word 0xFFFF fits, e) refl,
  sym (same_text-eq name entry.mnemonic (only (same_text name entry.mnemonic) listed)),
)
single_match (first ∷ rest) word name (_ ∷ _ ∷ _) e single listed fits = absurd (no (sym single))

-- Where the loop ends with no mnemonic unmatched, each of them is what `decode_word` returns of some
-- word.
pub never_matched-decode_word :
    (entries : List Entry) (counts : MatchCounts) (name : String)
    → matches_below entries 0x1_0000 ≡ ok counts
    → never_matched counts ≡ none
    → holds_name name (mnemonics entries) ≡ true
    → (word : ℕ) × (entry : Entry) × (operands : Operands) × (word ≤ 0xFFFF)
      × (decode_word entries word ≡ ok (some (entry, operands)))
      × (entry.mnemonic ≡ name)
never_matched-decode_word entries counts name h all listed =
    let (checked, e) = matches_below-table entries 0x1_0000 counts h in
    let counted =
      never_matched-table (hits entries 0x1_0000) (mnemonics entries) name (rw e at all) listed in
    let (word, below, found) = hits-holds_name entries 0x1_0000 name counted in
    let same = matching_names-legal_matches entries word in
    let (entry, operands, decoded, spelled) =
      single_match entries word name (legal_matches entries word) refl
        (rw same at (collisions_below-each entries 0x1_0000 word checked below)) (rw same at found)
        (omega arith) in
    (word, entry, operands, omega arith, decoded, spelled)
