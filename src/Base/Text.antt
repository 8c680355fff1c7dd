-- ===== src/Base/Text.antt =====
-- Python texts as lists of code points: `strip`, `split`, `splitlines` and `upper`. `upper` changes the
-- code points whose upper case is ASCII, which is all that a comparison with an ASCII text can see.
use Prim.Native.Nat.{ℕ, ◌-◌, Ordering}
use Prim.Native.Char.{code}
use Prim.Native.String.{String, compare as compare_text}
use text.Mathlib.Text.{is_eq}
use text.Mathlib.TextEquality.{eq_iff}
use mathlib.Core.Path.{◌≡◌, refl, sym, ◌∙◌}
use native.Mathlib.Omega.{arith}
use mathlib.Core.Bool.{Bool, true, false, ◌&&◌, ◌||◌}
use mathlib.Core.List.{List, [], ◌∷◌, ◌++◌}
use tms32010_sv.Base.Tests.{same_text, leb, ◌==◌, if◌then◌else◌}

abbrev pub Text : Type 0
Text = List ℕ

-- The code points of a literal. `String` has its own `[]` and `∷`.
abbrev pub codes : String → Text
codes String.[] = []
codes (String.◌∷◌ c s) = code c ∷ codes s

abbrev pub same_codes : Text → Text → Bool
same_codes [] [] = true
same_codes (x ∷ xs) (y ∷ ys) = x == y && same_codes xs ys
same_codes _ _ = false

pub same_codes-eq : (a b : Text) → same_codes a b ≡ true → a ≡ b
same_codes-eq [] [] h = refl
same_codes-eq (x ∷ xs) (y ∷ ys) h = ground (arith, same_codes-eq xs ys)
same_codes-eq [] (_ ∷ _) h = cc
same_codes-eq (_ ∷ _) [] h = cc

pub same_codes_self : (a : Text) → same_codes a a ≡ true
same_codes_self [] = refl
same_codes_self (x ∷ xs) = ground (arith, same_codes_self xs)

text_test : (o : Ordering) → elim o [ Ordering.eq ↦ true | _ ↦ false ] ≡ is_eq o
text_test Ordering.lt = refl
text_test Ordering.eq = refl
text_test Ordering.gt = refl

pub same_text-eq : (a b : String) → same_text a b ≡ true → a ≡ b
same_text-eq a b h = (eq_iff a b).0 (sym (text_test (compare_text a b)) ∙ h)

-- Equality with a literal, and membership in a set of literals.
pub same_text_self : (a : String) → same_text a a ≡ true
same_text_self a = text_test (compare_text a a) ∙ (eq_iff a a).1 refl

abbrev pub is : Text → String → Bool
is text literal = same_codes text (codes literal)

abbrev pub is_one_of : Text → List String → Bool
is_one_of text [] = false
is_one_of text (literal ∷ rest) = is text literal || is_one_of text rest

abbrev pub is_empty : Text → Bool
is_empty [] = true
is_empty (_ ∷ _) = false

abbrev between : ℕ → ℕ → ℕ → Bool
between low high c = leb low c && leb c high

-- `str.isspace`, and the line boundaries of `str.splitlines`.
unfoldable pub is_space : ℕ → Bool
is_space c =
    between 9 13 c
    || between 28 32 c
    || c == 0x85
    || c == 0xA0
    || c == 0x1680
    || between 0x2000 0x200A c
    || between 0x2028 0x2029 c
    || c == 0x202F
    || c == 0x205F
    || c == 0x3000

unfoldable pub is_line_break : ℕ → Bool
is_line_break c = between 10 13 c || between 28 30 c || c == 0x85 || between 0x2028 0x2029 c

-- `[0-9A-Fa-f]`, `[A-Za-z_]` and `[A-Za-z0-9_]`.
unfoldable pub is_hex_digit : ℕ → Bool
is_hex_digit c = between 48 57 c || between 65 70 c || between 97 102 c

unfoldable pub is_letter : ℕ → Bool
is_letter c = between 65 90 c || between 97 122 c || c == 95

unfoldable pub is_word : ℕ → Bool
unfolding is_letter
is_word c = is_letter c || between 48 57 c

-- `strip`, `lstrip` and `rstrip`.
unfoldable pub lstrip : Text → Text
unfolding is_space
lstrip [] = []
lstrip (c ∷ text) = elim (is_space c) [ true ↦ lstrip text | false ↦ c ∷ text ]

unfoldable pub rstrip : Text → Text
unfolding is_space
rstrip [] = []
rstrip (c ∷ text) = let rest = rstrip text in if is_space c && is_empty rest then [] else c ∷ rest

unfoldable pub strip : Text → Text
unfolding lstrip rstrip
strip text = rstrip (lstrip text)

-- The text before the first character that passes a test, and the text from it on.
unfoldable pub take_until : (ℕ → Bool) → Text → Text
take_until stops [] = []
take_until stops (c ∷ text) = let rest = take_until stops text in if stops c then [] else c ∷ rest

unfoldable pub drop_until : (ℕ → Bool) → Text → Text
drop_until stops [] = []
drop_until stops (c ∷ text) = elim (stops c) [ true ↦ c ∷ text | false ↦ drop_until stops text ]

-- A character in front of the first piece.
abbrev on_first : ℕ → List Text → List Text
on_first c [] = (c ∷ []) ∷ []
on_first c (piece ∷ pieces) = (c ∷ piece) ∷ pieces

-- `text.split(separator)`.
unfoldable pub split_on : ℕ → Text → List Text
split_on separator [] = [] ∷ []
split_on separator (c ∷ text) =
    let pieces = split_on separator text in
    if c == separator then [] ∷ pieces else on_first c pieces

abbrev starts_line_feed : Text → Bool
starts_line_feed [] = false
starts_line_feed (c ∷ _) = c == 10

-- `text.splitlines()`: a carriage return with a line feed is one boundary.
unfoldable pub split_lines : Text → List Text
unfolding is_line_break
split_lines [] = []
split_lines (c ∷ text) =
    let lines = split_lines text in
    if is_line_break c
    then if c == 13 && starts_line_feed text then lines else [] ∷ lines
    else on_first c lines

-- The upper case of a character, where it is ASCII: that of the letters, of the dotless i, the long s
-- and the sharp s, and of the ligatures.
abbrev upper_code : ℕ → Text
upper_code c =
    if between 97 122 c
    then (c - 32) ∷ []
    else if c == 0xDF
    then codes "SS"
    else if c == 0x131
    then codes "I"
    else if c == 0x17F
    then codes "S"
    else if c == 0xFB00
    then codes "FF"
    else if c == 0xFB01
    then codes "FI"
    else if c == 0xFB02
    then codes "FL"
    else if c == 0xFB03
    then codes "FFI"
    else if c == 0xFB04
    then codes "FFL"
    else if c == 0xFB05 || c == 0xFB06
    then codes "ST"
    else c ∷ []

unfoldable pub upper : Text → Text
upper [] = []
upper (c ∷ text) = upper_code c ++ upper text

-- `text.replace(" ", "")`.
unfoldable pub remove_spaces : Text → Text
remove_spaces [] = []
remove_spaces (c ∷ text) = let rest = remove_spaces text in if c == 32 then rest else c ∷ rest
