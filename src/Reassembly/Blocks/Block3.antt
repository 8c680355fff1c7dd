-- ===== src/Reassembly/Blocks/Block3.antt =====
-- The texts of the words from 0x6000 to 0x7FFF.
use Prim.Native.String.{String}
use tms32010_sv.Base.{ℕ, ◌+◌, ◌≡◌, refl, true, List, Option}
use tms32010_sv.Base.Text.{Text}
use tms32010_sv.Isa.{mnemonic, decoded_operands}
use tms32010_sv.Database.Entries.{instructions}
use tms32010_sv.Disassembler.Format.{decimal, hex}
use tms32010_sv.Assembler.Source.{◌>>=◌, require}
use tms32010_sv.Assembler.Expression.{Expr, Names}
use tms32010_sv.Assembler.Ranges.{all_below}
use tms32010_sv.Reassembly.Words.{word_comes_back}

module _ (documented : List String) (parse : Text → Option Expr) (symbols : Names) (location : ℕ)
    (path : Text) (number : ℕ) where
  pub words_6 :
      all_below 0x1000
        (λ k. word_comes_back documented parse symbols location path number (0x6000 + k))
      ≡ true
  unfolding all_below word_comes_back instructions ◌>>=◌ require mnemonic decoded_operands decimal
      hex
  words_6 = refl

  pub words_7 :
      all_below 0x1000
        (λ k. word_comes_back documented parse symbols location path number (0x7000 + k))
      ≡ true
  unfolding all_below word_comes_back instructions ◌>>=◌ require mnemonic decoded_operands decimal
      hex
  words_7 = refl
