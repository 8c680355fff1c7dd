-- ===== src/Reassembly/Literals.antt =====
-- The numbers that the disassembler prints, as Python reads them: decimal digits without a leading
-- zero, hexadecimal digits behind `0x`, and a minus sign in front of decimal digits.
use tms32010_sv.Base.{
  ℕ, ◌+◌, ◌-◌, ◌*◌, ◌≡◌, inl, inr, refl, sym, true, false, not, ◌&&◌, [], ◌∷◌, Option, none, some,
  leb, ltb, ◌==◌, if◌then◌else◌,
}
use tms32010_sv.Base.Text.{Text, is_empty}
use tms32010_sv.Base.Cases.{some_or_none}
use tms32010_sv.Assembler.Expression.{Expr, UnaryOperator}

abbrev digit_value : ℕ → ℕ
digit_value c =
    if leb 48 c && leb c 57 then c - 48 else if leb 97 c && leb c 102 then c - 87 else 16

unfoldable pub number_from : ℕ → ℕ → Text → Option ℕ
number_from base value [] = some value
number_from base value (c ∷ text) = elim (ltb (digit_value c) base) [
  | true ↦ number_from base (value * base + digit_value c) text
  | false ↦ none
]

abbrev decimal_number : Text → Option ℕ
decimal_number [] = none
decimal_number (c ∷ text) =
    if c == 48 && not (is_empty text) then none else number_from 10 0 (c ∷ text)

abbrev constant_of : Option ℕ → Option Expr
constant_of none = none
constant_of (some n) = some (Expr.constant n)

abbrev negated_of : Option ℕ → Option Expr
negated_of none = none
negated_of (some n) = some (Expr.unary UnaryOperator.usub (Expr.constant n))

unfoldable pub literal : Text → Option Expr
unfolding number_from
literal [] = none
literal (c ∷ []) = constant_of (decimal_number (c ∷ []))
literal (c ∷ d ∷ text) =
    if c == 48 && d == 120
    then if is_empty text then none else constant_of (number_from 16 0 text)
    else if c == 45
    then negated_of (decimal_number (d ∷ text))
    else constant_of (decimal_number (c ∷ d ∷ text))

-- A parser that reads those numbers.
pub record IsReader (parse : Text → Option Expr) : Type 0 where
  pub reads : (text : Text) (tree : Expr) → literal text ≡ some tree → parse text ≡ some tree

-- The parser, with its answers on those numbers written out.
unfoldable pub reading : (Text → Option Expr) → Text → Option Expr
unfolding literal
reading parse text = elim (literal text) [ some tree ↦ some tree | none ↦ parse text ]

pub reading-same :
    (parse : Text → Option Expr) → IsReader parse → (text : Text) → reading parse text ≡ parse text
unfolding reading
reading-same parse h text = elim (some_or_none (literal text)) [
  | inl none_read ↦ rw (none_read, reading) refl
  | inr (tree, read) ↦ rw (read, reading) (sym (h.reads text tree read))
]
