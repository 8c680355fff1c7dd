-- ===== src/Reassembly/Blocks/Targets3.antt =====
-- Branches and calls with all their targets.
use Prim.Native.String.{String}
use tms32010_sv.Base.{ℕ, ◌≡◌, refl, true, List, Option}
use tms32010_sv.Base.Text.{Text}
use tms32010_sv.Database.Entries.{instructions}
use tms32010_sv.Disassembler.Format.{hex}
use tms32010_sv.Assembler.Source.{◌>>=◌, require}
use tms32010_sv.Assembler.Expression.{Expr, Names}
use tms32010_sv.Assembler.Ranges.{all_below}
use tms32010_sv.Reassembly.Words.{pair_comes_back}

module _ (documented : List String) (parse : Text → Option Expr) (symbols : Names) (location : ℕ)
    (path : Text) (number : ℕ) where
  pub pairs_bz :
      all_below 0x1000 (pair_comes_back documented parse symbols location path number "BZ" 0xFF00)
      ≡ true
  unfolding all_below pair_comes_back instructions ◌>>=◌ require hex
  pairs_bz = refl

  pub pairs_call :
      all_below 0x1000 (pair_comes_back documented parse symbols location path number "CALL" 0xF800)
      ≡ true
  unfolding all_below pair_comes_back instructions ◌>>=◌ require hex
  pairs_call = refl
