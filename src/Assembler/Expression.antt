-- ===== src/Assembler/Expression.antt =====
-- tools/assembler/tms32010_as.py: `_evaluate` and the class `_ExpressionEvaluator`. `ast.parse` is a
-- parameter that returns a tree, or none where it raises; the trees keep what the evaluator tells apart.
use tms32010_sv.Base.{
  ℕ, suc, ◌+◌, ◌-◌, ◌*◌, ◌/◌, ◌%◌, ◌^◌, bit_and, bit_or, bit_xor, Bool, false, not, ◌&&◌, List, [],
  ◌∷◌, ◌++◌, Option, none, some, ◌==◌, if◌then◌else◌,
}
use tms32010_sv.Base.Int.{ℤ, pos, negsuc, sub_ℕ, ◌+ℤ◌, ◌-ℤ◌, ◌*ℤ◌}
use tms32010_sv.Base.Text.{Text, codes, same_codes, is_word, is_hex_digit, upper}
use tms32010_sv.Assembler.Source.{SourceLine, Asm, error, invalid_expression}
use tms32010_sv.Database.{ok}

-- The keys of BINARY and of UNARY, and the operators that they lack.
pub data BinaryOperator : Type 0 where
  add sub mult floor_div modulo lshift rshift or_bits and_bits xor_bits unsupported_binary :
      BinaryOperator

pub data UnaryOperator : Type 0 where
  uadd usub invert unsupported_unary : UnaryOperator

-- The nodes of a parsed expression: an integer literal, another constant, a name, the two operations,
-- and every other node. A literal has no sign.
pub data Expr : Type 0 where
  constant : ℕ → Expr
  other_constant other_node : Expr
  name : Text → Expr
  binary : BinaryOperator → Expr → Expr → Expr
  unary : UnaryOperator → Expr → Expr

-- A dictionary of names. A key is added at most once.
abbrev pub Names : Type 0
Names = List (Text × ℤ)

unfoldable pub lookup : Text → Names → Option ℤ
lookup key [] = none
lookup key ((other, value) ∷ rest) =
    let later = lookup key rest in if same_codes other key then some value else later

-- `left // right` and `left % right`: the quotient is rounded down, and the remainder has the sign of
-- the divisor. Both raise for a divisor 0.
unfoldable pub floor_div_ℤ : ℤ → ℤ → Option ℤ
floor_div_ℤ (pos a) (pos b) = if b == 0 then none else some (pos (a / b))
floor_div_ℤ (negsuc a) (pos b) = if b == 0 then none else some (negsuc (a / b))
floor_div_ℤ (pos a) (negsuc b) = some (sub_ℕ 0 ((a + b) / suc b))
floor_div_ℤ (negsuc a) (negsuc b) = some (pos (suc a / suc b))

unfoldable pub mod_ℤ : ℤ → ℤ → Option ℤ
mod_ℤ (pos a) (pos b) = if b == 0 then none else some (pos (a % b))
mod_ℤ (negsuc a) (pos b) = if b == 0 then none else some (pos (b - 1 - a % b))
mod_ℤ (pos a) (negsuc b) = some (sub_ℕ ((a + b) % suc b) b)
mod_ℤ (negsuc a) (negsuc b) = some (sub_ℕ 0 (suc a % suc b))

-- Shifts raise for a negative count. A shift to the right rounds down.
unfoldable pub lshift_ℤ : ℤ → ℤ → Option ℤ
lshift_ℤ (pos a) (pos n) = some (pos (a * 2 ^ n))
lshift_ℤ (negsuc a) (pos n) = some (negsuc (suc a * 2 ^ n - 1))
lshift_ℤ _ (negsuc n) = none

unfoldable pub rshift_ℤ : ℤ → ℤ → Option ℤ
rshift_ℤ (pos a) (pos n) = some (pos (a / 2 ^ n))
rshift_ℤ (negsuc a) (pos n) = some (negsuc (a / 2 ^ n))
rshift_ℤ _ (negsuc n) = none

-- The bits of a that b lacks.
abbrev pub without : ℕ → ℕ → ℕ
without a b = a - bit_and a b

-- Bitwise operations on two's complement without end: `negsuc n` has the bits that n lacks.
unfoldable pub and_ℤ : ℤ → ℤ → ℤ
and_ℤ (pos a) (pos b) = pos (bit_and a b)
and_ℤ (pos a) (negsuc b) = pos (without a b)
and_ℤ (negsuc a) (pos b) = pos (without b a)
and_ℤ (negsuc a) (negsuc b) = negsuc (bit_or a b)

unfoldable pub or_ℤ : ℤ → ℤ → ℤ
or_ℤ (pos a) (pos b) = pos (bit_or a b)
or_ℤ (pos a) (negsuc b) = negsuc (without b a)
or_ℤ (negsuc a) (pos b) = negsuc (without a b)
or_ℤ (negsuc a) (negsuc b) = negsuc (bit_and a b)

unfoldable pub xor_ℤ : ℤ → ℤ → ℤ
xor_ℤ (pos a) (pos b) = pos (bit_xor a b)
xor_ℤ (pos a) (negsuc b) = negsuc (bit_xor a b)
xor_ℤ (negsuc a) (pos b) = negsuc (bit_xor a b)
xor_ℤ (negsuc a) (negsuc b) = pos (bit_xor a b)

-- `~value`.
unfoldable pub invert_ℤ : ℤ → ℤ
invert_ℤ (pos a) = negsuc a
invert_ℤ (negsuc a) = pos a

unfoldable pub apply_binary : BinaryOperator → ℤ → ℤ → Option ℤ
unfolding ◌+ℤ◌ ◌-ℤ◌ ◌*ℤ◌ floor_div_ℤ mod_ℤ lshift_ℤ rshift_ℤ and_ℤ or_ℤ xor_ℤ
apply_binary BinaryOperator.add a b = some (a +ℤ b)
apply_binary BinaryOperator.sub a b = some (a -ℤ b)
apply_binary BinaryOperator.mult a b = some (a *ℤ b)
apply_binary BinaryOperator.floor_div a b = floor_div_ℤ a b
apply_binary BinaryOperator.modulo a b = mod_ℤ a b
apply_binary BinaryOperator.lshift a b = lshift_ℤ a b
apply_binary BinaryOperator.rshift a b = rshift_ℤ a b
apply_binary BinaryOperator.or_bits a b = some (or_ℤ a b)
apply_binary BinaryOperator.and_bits a b = some (and_ℤ a b)
apply_binary BinaryOperator.xor_bits a b = some (xor_ℤ a b)
apply_binary BinaryOperator.unsupported_binary a b = none

unfoldable pub apply_unary : UnaryOperator → ℤ → Option ℤ
unfolding ◌-ℤ◌ invert_ℤ
apply_unary UnaryOperator.uadd a = some a
apply_unary UnaryOperator.usub a = some (pos 0 -ℤ a)
apply_unary UnaryOperator.invert a = some (invert_ℤ a)
apply_unary UnaryOperator.unsupported_unary a = none

-- `visit`: the value of a tree, or none where the evaluator raises.
unfoldable pub visit : Names → Expr → Option ℤ
unfolding lookup upper apply_binary apply_unary
visit names (Expr.constant n) = some (pos n)
visit names Expr.other_constant = none
visit names Expr.other_node = none
visit names (Expr.name id) = lookup (upper id) names
visit names (Expr.binary op left right) =
    let a = visit names left in
    let b = visit names right in
    elim a [ none ↦ none | some x ↦ elim b [ none ↦ none | some y ↦ apply_binary op x y ] ]
visit names (Expr.unary op operand) =
    let a = visit names operand in elim a [ none ↦ none | some x ↦ apply_unary op x ]

abbrev starts_hex : Text → Bool
starts_hex [] = false
starts_hex (c ∷ _) = is_hex_digit c

-- `TI_HEX_PATTERN.sub`. The flag says that a word character comes before.
unfoldable pub ti_hex : Bool → Text → Text
unfolding is_word is_hex_digit
ti_hex word_before [] = []
ti_hex word_before (c ∷ text) =
    let rest = ti_hex (is_word c) text in
    if c == 62 && not word_before && starts_hex text then 48 ∷ 120 ∷ rest else c ∷ rest

abbrev pub current : Text
current = codes "__CURRENT"

-- `normalized.replace("$", "__CURRENT")`.
unfoldable pub replace_dollar : Text → Text
replace_dollar [] = []
replace_dollar (c ∷ text) =
    let rest = replace_dollar text in if c == 36 then current ++ rest else c ∷ rest

-- `names["__CURRENT"] = location` over the symbols, whose names are in upper case.
abbrev pub names_at : Names → ℕ → Names
names_at symbols location = (current, pos location) ∷ symbols

-- `_evaluate`.
unfoldable pub evaluate : (Text → Option Expr) → Text → Names → ℕ → SourceLine → Asm ℤ
unfolding visit ti_hex replace_dollar
evaluate parse expression symbols location line =
    elim (parse (replace_dollar (ti_hex false expression))) [
      | none ↦ error line (invalid_expression expression)
      | some tree ↦ elim (visit (names_at symbols location) tree) [
        | none ↦ error line (invalid_expression expression)
        | some value ↦ ok value
      ]
    ]
