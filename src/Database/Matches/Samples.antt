-- ===== src/Database/Matches/Samples.antt =====
-- The last loop of `validate_database` in tools/generators/isa_database.py, when a word is known for each
-- entry.
use Prim.Native.String.{String}
use tms32010_sv.Base.{
  ℕ, zero, suc, ◌<◌, ◌≡◌, inl, inr, refl, arith, Bool, true, false, ◌&&◌, Bool-cases, leb, leb→le,
  List, [], ◌∷◌, ◌==◌, none, same_text,
}
use tms32010_sv.Base.Cases.{no, both}
use tms32010_sv.Database.{Entry, ok}
use tms32010_sv.Database.Validation.{matching_names, collisions_below, earlier_or_last}
use tms32010_sv.Database.Matches.{holds_name, MatchCounts, mnemonics, matches_below, never_matched}
use tms32010_sv.Database.Matches.Laws.{
  table, one_more, more, hits, matches_below-table, matches_below-ends,
}

more-kept :
    (ms : List String) (f : String → ℕ) (name : String)
    → (f name == 0) ≡ false
    → (more ms f name == 0) ≡ false
more-kept [] f name h = h
more-kept (mnemonic ∷ rest) f name h = more-kept rest (one_more mnemonic f) name (ground arith)

more-listed :
    (ms : List String) (f : String → ℕ) (name : String)
    → holds_name name ms ≡ true
    → (more ms f name == 0) ≡ false
more-listed [] f name h = absurd (no h)
more-listed (mnemonic ∷ rest) f name h = elim (Bool-cases (same_text name mnemonic)) [
  | inl same ↦ more-kept rest (one_more mnemonic f) name (ground arith)
  | inr differs ↦ more-listed rest (one_more mnemonic f) name (rw differs at h)
]

hits-listed :
    (entries : List Entry) (bound word : ℕ) (name : String)
    → word < bound
    → holds_name name (matching_names entries word) ≡ true
    → (hits entries bound name == 0) ≡ false
hits-listed entries zero word name below h = absurd (omega arith)
hits-listed entries (suc last) word name below h = elim (earlier_or_last word last below) [
  | inl earlier ↦
      more-kept (matching_names entries last) (hits entries last) name
        (hits-listed entries last word name earlier h)
  | inr same ↦ more-listed (matching_names entries last) (hits entries last) name (rw same at h)
]

-- The word of an entry with all of its operands zero is matched by its mnemonic.
abbrev pub samples_match : List Entry → List Entry → Bool
samples_match entries [] = true
samples_match entries (entry ∷ rest) =
    leb entry.opcode.value 0xFFFF
    && holds_name entry.mnemonic (matching_names entries entry.opcode.value)
    && samples_match entries rest

samples-never_matched :
    (entries es : List Entry)
    → samples_match entries es ≡ true
    → never_matched (table (hits entries 0x1_0000) (mnemonics es)) ≡ none
unfolding never_matched
samples-never_matched entries [] h = refl
samples-never_matched entries (entry ∷ rest) h =
    let (first, later) = both _ _ h in
    let (small, found) = both _ _ first in
    let fits = leb→le entry.opcode.value 0xFFFF small in
    rw (hits-listed entries 0x1_0000 entry.opcode.value entry.mnemonic (omega arith) found)
      (samples-never_matched entries rest later)

-- Without collisions, and with a word for each entry, the loop ends with no mnemonic unmatched.
pub matches_below-samples :
    (entries : List Entry)
    → collisions_below entries 0x1_0000 ≡ ok tt
    → samples_match entries entries ≡ true
    → (counts : MatchCounts) × (matches_below entries 0x1_0000 ≡ ok counts)
      × (never_matched counts ≡ none)
matches_below-samples entries free sampled =
    let (counts, ended) = matches_below-ends entries 0x1_0000 free in
    let (_, counted) = matches_below-table entries 0x1_0000 counts ended in
    (counts, ended, rw counted (samples-never_matched entries entries sampled))
