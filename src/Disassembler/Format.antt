-- ===== src/Disassembler/Format.antt =====
-- Python's format of integers: `{n}`, `{n:03x}` and `{n:04x}`.
use Prim.Native.String.{String, ◌++◌, len}
use tms32010_sv.Base.{ℕ, zero, suc, ◌-◌, ◌/◌, ◌%◌, true, false, [], ◌∷◌, get_or, ltb}
use tms32010_sv.Base.Int.{ℤ, pos, negsuc}

abbrev digit : ℕ → String
digit n =
    get_or
      ("0" ∷ "1" ∷ "2" ∷ "3" ∷ "4" ∷ "5" ∷ "6" ∷ "7" ∷ "8" ∷ "9" ∷ "a" ∷ "b" ∷ "c" ∷ "d" ∷ "e" ∷ "f"
        ∷ [])
      n ""

-- The digits of a number to a base above 1; as many rounds as the number are more than enough.
abbrev digits : ℕ → ℕ → ℕ → String
digits base zero n = digit n
digits base (suc rounds) n = elim (ltb n base) [
  | true ↦ digit n
  | false ↦ digits base rounds (n / base) ++ digit (n % base)
]

abbrev zeros : ℕ → String
zeros zero = ""
zeros (suc n) = "0" ++ zeros n

unfoldable pub hex : ℕ → ℕ → String
hex width n = let text = digits 16 n n in zeros (width - len text) ++ text

unfoldable pub decimal : ℤ → String
decimal (pos n) = digits 10 n n
decimal (negsuc n) = "-" ++ digits 10 (suc n) (suc n)
