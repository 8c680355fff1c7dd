-- ===== src/Database/Laws.antt =====
-- tools/generators/isa_database.py: `decode_word` and `classify_word` against the entries of the
-- database, one by one.
use tms32010_sv.Base.Cases.{some_or_none}
use tms32010_sv.Base.{
  ℕ, ◌≤◌, ◌≡◌, ◌≢◌, ◌↔◌, inl, inr, refl, sym, ap, ◌∙◌, List, [], ◌∷◌, leb, leb→le, le→leb,
  Bool-cases, Option, none, some,
}
use Prim.Native.String.{String}
use tms32010_sv.Isa.{Operands}
use tms32010_sv.Database.{
  Entry, Checked, DatabaseError, undecoded_class, ok, failed, Classification, documented_legal,
  decode_entry, legal_matches, decode_word, classify_undecoded, classify_word, ambiguous_decode,
}

-- No entry of the list decodes the word.
pub data NoMatch (word : ℕ) : List Entry → Type 0 where
  nothing : NoMatch word []
  skip :
      {entry : Entry} {rest : List Entry}
      → decode_entry entry word ≡ none
      → NoMatch word rest
      → NoMatch word (entry ∷ rest)

-- One entry of the list, and no other, decodes the word, to these operands.
pub data OnlyMatch (word : ℕ) (found : Entry) (operands : Operands) : List Entry → Type 0 where
  here :
      {rest : List Entry}
      → decode_entry found word ≡ some operands
      → NoMatch word rest
      → OnlyMatch word found operands (found ∷ rest)
  there :
      {entry : Entry} {rest : List Entry}
      → decode_entry entry word ≡ none
      → OnlyMatch word found operands rest
      → OnlyMatch word found operands (entry ∷ rest)

NoMatch-legal_matches :
    {word : ℕ} {entries : List Entry} → NoMatch word entries → legal_matches entries word ≡ []
unfolding legal_matches
NoMatch-legal_matches nothing = refl
NoMatch-legal_matches (skip e h) = rw (e, legal_matches) (NoMatch-legal_matches h)

OnlyMatch-legal_matches :
    {word : ℕ} {found : Entry} {operands : Operands} {entries : List Entry}
    → OnlyMatch word found operands entries
    → legal_matches entries word ≡ (found, operands) ∷ []
unfolding legal_matches
OnlyMatch-legal_matches (here e h) = rw (e, legal_matches, NoMatch-legal_matches h) refl
OnlyMatch-legal_matches (there e h) = rw (e, legal_matches) (OnlyMatch-legal_matches h)

nonempty : {A : Type 0} {x : A} {xs : List A} → (x ∷ xs) ≢ []
nonempty e = cc

-- The way back: what the list of matches says of the entries.
legal_matches-NoMatch :
    (entries : List Entry) {word : ℕ} → legal_matches entries word ≡ [] → NoMatch word entries
unfolding legal_matches
legal_matches-NoMatch [] e = nothing
legal_matches-NoMatch (entry ∷ rest) {word} e = elim (some_or_none (decode_entry entry word)) [
  | inl fails ↦ skip fails (legal_matches-NoMatch rest (rw (fails, legal_matches) at e))
  | inr (operands, match) ↦ absurd (nonempty (rw (match, legal_matches) at e))
]

abbrev first_entry : Entry × Operands → Entry
first_entry pair = pair.0

abbrev first_operands : Entry × Operands → Operands
first_operands pair = pair.1

head_eq : {A : Type 0} {x y : A} {xs ys : List A} → (x ∷ xs) ≡ y ∷ ys → x ≡ y
head_eq e = cc

tail_eq : {A : Type 0} {x y : A} {xs ys : List A} → (x ∷ xs) ≡ y ∷ ys → xs ≡ ys
tail_eq e = cc

-- The matches are one pair: it is the one of the entry that decodes the word.
legal_matches-OnlyMatch :
    (entries : List Entry) {word : ℕ} {found : Entry} {operands : Operands}
    → legal_matches entries word ≡ (found, operands) ∷ []
    → OnlyMatch word found operands entries
unfolding legal_matches
legal_matches-OnlyMatch [] e = absurd (nonempty (sym e))
legal_matches-OnlyMatch (entry ∷ rest) {word} {found} {operands} e =
    elim (some_or_none (decode_entry entry word)) [
      | inl fails ↦ there fails (legal_matches-OnlyMatch rest (rw (fails, legal_matches) at e))
      | inr (values, match) ↦
          (let both = rw (match, legal_matches) at e in
            let this = ap first_entry (head_eq both) in
            rw this (
              here (rw this at match ∙ ap some (ap first_operands (head_eq both)))
                (legal_matches-NoMatch rest (tail_eq both))))
    ]

decodes-some :
    (entries : List Entry) {word : ℕ} {found : Entry × Operands}
    → word ≤ 0xFFFF
    → legal_matches entries word ≡ found ∷ []
    → decode_word entries word ≡ ok (some found)
unfolding decode_word
decodes-some [] fits e = absurd (nonempty (sym e))
decodes-some (entry ∷ rest) {word} fits e = rw (le→leb word 0xFFFF fits, e) refl

-- What `decode_word` and `classify_word` make of the matches.
abbrev pub verdict : List (Entry × Operands) → ℕ → Checked DatabaseError (Option (Entry × Operands))
verdict found word = elim found [
  | [] ↦ ok none
  | one ∷ [] ↦ ok (some one)
  | _ ∷ _ ∷ _ ↦ failed (ambiguous_decode word)
]

pub decode_word-verdict :
    (entries : List Entry) (word : ℕ)
    → word ≤ 0xFFFF
    → decode_word entries word ≡ verdict (legal_matches entries word) word
unfolding decode_word legal_matches
decode_word-verdict [] word fits = refl
decode_word-verdict (entry ∷ rest) word fits = rw (le→leb word 0xFFFF fits) refl

module _ {A : Type 0} where
  abbrev returns : A → Checked DatabaseError A
  returns a = ok a

  not_failed : {x : DatabaseError} {a : A} → failed x ≢ returns a
  not_failed e = cc

  same_ok : {a b : A} → returns a ≡ returns b → a ≡ b
  same_ok e = cc

not_none : {A : Type 0} {a : A} → returns none ≢ returns (some a)
not_none e = cc

singleton :
    (matches : List (Entry × Operands)) (word : ℕ) {found : Entry × Operands}
    → verdict matches word ≡ ok (some found)
    → matches ≡ found ∷ []
singleton [] word e = absurd (not_none e)
singleton (x ∷ []) word e = cc
singleton (x ∷ y ∷ rest) word e = absurd (not_failed e)

decode_word-some :
    (entries : List Entry) {word : ℕ} {found : Entry × Operands}
    → decode_word entries word ≡ ok (some found)
    → (word ≤ 0xFFFF) × (legal_matches entries word ≡ found ∷ [])
unfolding decode_word
decode_word-some [] e = absurd (not_none e)
decode_word-some (entry ∷ rest) {word} e = elim (Bool-cases (leb word 0xFFFF)) [
  | inr beyond ↦ absurd (not_failed (rw beyond at e))
  | inl fits ↦ (leb→le word 0xFFFF fits, singleton _ word (rw fits at e))
]

-- `decode_word` returns an entry with operands exactly if the word fits 16 bits, that entry decodes it
-- to those operands, and no other entry of the database decodes it.
pub decode_word_iff :
    (entries : List Entry) (word : ℕ) (found : Entry) (operands : Operands)
    → (decode_word entries word ≡ ok (some (found, operands)))
      ↔ ((word ≤ 0xFFFF) × OnlyMatch word found operands entries)
decode_word_iff entries word found operands = (
  (λ e. let h = decode_word-some entries e in (h.0, legal_matches-OnlyMatch entries h.1)),
  (λ h. decodes-some entries h.0 (OnlyMatch-legal_matches h.1)),
)

undecoded_class-legal :
    (a b c : List String) {found : Entry} {operands : Operands}
    → undecoded_class a b c ≢ documented_legal found operands
unfolding undecoded_class
undecoded_class-legal (_ ∷ _) b c e = cc
undecoded_class-legal [] (_ ∷ _) c e = cc
undecoded_class-legal [] [] (_ ∷ _) e = cc
undecoded_class-legal [] [] [] e = cc

-- What `classify_word` makes of the matches.
abbrev pub class_of :
    List (Entry × Operands) → Classification → ℕ → Checked DatabaseError Classification
class_of matches undecoded word = elim matches [
  | [] ↦ ok undecoded
  | (entry, operands) ∷ [] ↦ ok (documented_legal entry operands)
  | _ ∷ _ ∷ _ ↦ failed (ambiguous_decode word)
]

legal_class :
    (matches : List (Entry × Operands)) (entries : List Entry) (word : ℕ) {found : Entry}
    {operands : Operands}
    → class_of matches (classify_undecoded entries word) word ≡ ok (documented_legal found operands)
    → matches ≡ (found, operands) ∷ []
unfolding classify_undecoded
legal_class [] entries word e = absurd (undecoded_class-legal _ _ _ (same_ok e))
legal_class ((entry, operands) ∷ []) entries word e = cc
legal_class (x ∷ y ∷ rest) entries word e = absurd (not_failed e)

-- `classify_word` calls a word documented and legal, with an entry and operands, exactly if
-- `decode_word` returns that entry with those operands.
pub classify_word_iff :
    (entries : List Entry) (word : ℕ) (found : Entry) (operands : Operands)
    → (classify_word entries word ≡ ok (documented_legal found operands))
      ↔ (decode_word entries word ≡ ok (some (found, operands)))
unfolding classify_word
classify_word_iff entries word found operands = (
  (λ e. elim (Bool-cases (leb word 0xFFFF)) [
    | inr beyond ↦ absurd (not_failed (rw beyond at e))
    | inl fits ↦
        (decodes-some entries (leb→le word 0xFFFF fits)
          (legal_class (legal_matches entries word) entries word (rw fits at e)))
  ]),
  (λ e. let h = decode_word-some entries e in rw (le→leb word 0xFFFF h.0, h.1) refl),
)
