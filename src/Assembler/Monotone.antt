-- ===== src/Assembler/Monotone.antt =====
-- Values of expressions do not change when symbols are added.
use tms32010_sv.Base.Cases.{absent, some_or_none}
use tms32010_sv.Base.{ℕ, ◌≡◌, inl, inr, false, Bool-cases, Option, some}
use tms32010_sv.Base.Int.{ℤ}
use tms32010_sv.Base.Text.{Text, same_codes, upper}
use tms32010_sv.Database.{ok}
use tms32010_sv.Assembler.Source.{SourceLine}
use tms32010_sv.Assembler.Expression.{
  Expr, Names, lookup, visit, evaluate, names_at, current, ti_hex, replace_dollar,
}
use tms32010_sv.Assembler.Inversion.{not_raised}

-- Every name of the one has its value in the other.
pub record Extends (symbols more : Names) : Type 0 where
  pub keeps :
      (key : Text) (value : ℤ) → lookup key symbols ≡ some value → lookup key more ≡ some value

kept :
    {symbols more : Names} (location : ℕ)
    → Extends symbols more
    → (key : Text) (value : ℤ) → lookup key (names_at symbols location) ≡ some value
    → lookup key (names_at more location) ≡ some value
unfolding lookup
kept location h key value found = elim (Bool-cases (same_codes current key)) [
  | inl same ↦ rw (same, lookup) (rw (same, lookup) at found)
  | inr other ↦ rw (other, lookup) (h.keeps key value (rw (other, lookup) at found))
]

Extends-names_at :
    {symbols more : Names} (location : ℕ)
    → Extends symbols more
    → Extends (names_at symbols location) (names_at more location)
Extends-names_at location h = record { keeps = kept location h }

visit-Extends :
    {names more : Names} (tree : Expr) (value : ℤ)
    → Extends names more
    → visit names tree ≡ some value
    → visit more tree ≡ some value
unfolding visit
visit-Extends (Expr.constant n) value h e = e
visit-Extends Expr.other_constant value h e = absurd (absent e)
visit-Extends Expr.other_node value h e = absurd (absent e)
visit-Extends (Expr.name id) value h e = h.keeps (upper id) value e
visit-Extends {names} {more} (Expr.binary op left right) value h e =
    elim (some_or_none (visit names left)) [
      | inl fails ↦ absurd (absent (rw (fails, visit) at e))
      | inr (x, left_value) ↦ elim (some_or_none (visit names right)) [
        | inl fails ↦ absurd (absent (rw (left_value, visit, fails) at e))
        | inr (y, right_value) ↦
            rw (visit-Extends left x h left_value, visit, visit-Extends right y h right_value)
              (rw (left_value, visit, right_value) at e)
      ]
    ]
visit-Extends {names} {more} (Expr.unary op operand) value h e =
    elim (some_or_none (visit names operand)) [
      | inl fails ↦ absurd (absent (rw (fails, visit) at e))
      | inr (x, operand_value) ↦
          rw (visit-Extends operand x h operand_value, visit) (rw (operand_value, visit) at e)
    ]

pub evaluate-Extends :
    (parse : Text → Option Expr) (expression : Text) {symbols more : Names} (location : ℕ)
    (line : SourceLine) (value : ℤ)
    → Extends symbols more
    → evaluate parse expression symbols location line ≡ ok value
    → evaluate parse expression more location line ≡ ok value
unfolding evaluate
evaluate-Extends parse expression {symbols} {more} location line value h e =
    elim (some_or_none (parse (replace_dollar (ti_hex false expression)))) [
      | inl fails ↦ absurd (not_raised (rw (fails, evaluate) at e))
      | inr (tree, parsed) ↦ elim (some_or_none (visit (names_at symbols location) tree)) [
        | inl fails ↦ absurd (not_raised (rw (parsed, evaluate, fails) at e))
        | inr (x, found) ↦
            rw (parsed, evaluate, visit-Extends tree x (Extends-names_at location h) found)
              (rw (parsed, evaluate, found) at e)
      ]
    ]
