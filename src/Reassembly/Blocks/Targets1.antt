-- ===== src/Reassembly/Blocks/Targets1.antt =====
-- Branches and calls with all their targets.
use Prim.Native.String.{String}
use tms32010_sv.Base.{ℕ, ◌≡◌, refl, true, List, Option}
use tms32010_sv.Base.Text.{Text}
use tms32010_sv.Database.Entries.{instructions}
use tms32010_sv.Disassembler.Format.{hex}
use tms32010_sv.Assembler.Source.{◌>>=◌, require}
use tms32010_sv.Assembler.Expression.{Expr, Names}
use tms32010_sv.Assembler.Ranges.{all_below}
use tms32010_sv.Reassembly.Words.{pair_comes_back}

module _ (documented : List String) (parse : Text → Option Expr) (symbols : Names) (location : ℕ)
    (path : Text) (number : ℕ) where
  pub pairs_bgz :
      all_below 0x1000 (pair_comes_back documented parse symbols location path number "BGZ" 0xFC00)
      ≡ true
  unfolding all_below pair_comes_back instructions ◌>>=◌ require hex
  pairs_bgz = refl

  pub pairs_bioz :
      all_below 0x1000 (pair_comes_back documented parse symbols location path number "BIOZ" 0xF600)
      ≡ true
  unfolding all_below pair_comes_back instructions ◌>>=◌ require hex
  pairs_bioz = refl

  pub pairs_blez :
      all_below 0x1000 (pair_comes_back documented parse symbols location path number "BLEZ" 0xFB00)
      ≡ true
  unfolding all_below pair_comes_back instructions ◌>>=◌ require hex
  pairs_blez = refl
