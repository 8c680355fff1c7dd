-- ===== src/Database/Matches.antt =====
-- tools/generators/isa_database.py: the last loop of `validate_database`, over all words of 16 bits,
-- which looks for collisions and counts the words of each mnemonic.
pub mod Laws
pub mod Samples
use Prim.Native.String.{String}
use tms32010_sv.Base.{
  ℕ, zero, suc, Bool, true, false, ◌||◌, List, [], ◌∷◌, ◌==◌, Option, none, some, same_text,
  if◌then◌else◌,
}
use tms32010_sv.Database.{Entry, Checked, ok, failed}
use tms32010_sv.Database.Validation.{CollisionError, decode_collision, matching_names, is_collision}

-- The dictionary `match_counts`.
abbrev pub MatchCounts : Type 0
MatchCounts = List (String × ℕ)

abbrev pub mnemonics : List Entry → List String
mnemonics [] = []
mnemonics (entry ∷ rest) = entry.mnemonic ∷ mnemonics rest

-- `name in names`.
abbrev pub holds_name : String → List String → Bool
holds_name name [] = false
holds_name name (other ∷ rest) = same_text name other || holds_name name rest

unfoldable pub no_matches : List String → MatchCounts
no_matches [] = []
no_matches (name ∷ names) = (name, 0) ∷ no_matches names

-- `match_counts[mnemonic] += 1`. A name is a key of a dictionary once.
unfoldable pub count_match : String → MatchCounts → MatchCounts
count_match mnemonic [] = []
count_match mnemonic ((name, count) ∷ rest) =
    (name, if same_text name mnemonic then suc count else count) ∷ count_match mnemonic rest

unfoldable pub count_matches : List String → MatchCounts → MatchCounts
unfolding count_match
count_matches [] counts = counts
count_matches (mnemonic ∷ rest) counts = count_matches rest (count_match mnemonic counts)

-- The loop over the words below a bound.
unfoldable pub matches_below : List Entry → ℕ → Checked CollisionError MatchCounts
unfolding matching_names no_matches count_matches
matches_below entries zero = ok (no_matches (mnemonics entries))
matches_below entries (suc word) = elim (matches_below entries word) [
  | failed e ↦ failed e
  | ok counts ↦
      if is_collision (matching_names entries word)
      then failed (decode_collision word (matching_names entries word))
      else ok (count_matches (matching_names entries word) counts)
]

-- The first mnemonic with no word.
unfoldable pub never_matched : MatchCounts → Option String
never_matched [] = none
never_matched ((name, count) ∷ rest) =
    let later = never_matched rest in if count == 0 then some name else later
