-- ===== src/Tests/Mame.antt =====
-- One step of the model against two states of MAME.
use Prim.Native.String.{String, ◌++◌}
use tms32010_sv.Base.{ℕ, ◌≡◌, ◌↔◌, refl, Bool, true, false, List, [], ◌∷◌}
use tms32010_sv.Base.Int.{pos}
use tms32010_sv.Base.Text.{Text, codes}
use tms32010_sv.Database.{ok}
use tms32010_sv.Database.Chains.{◌>>=◌}
use tms32010_sv.Mame.{
  Members, integer, boolean, array, object, no_item, item, no_member, member, MameState, ModelStep,
}
use tms32010_sv.Mame.Markers.{parse_mame_lines}
use tms32010_sv.Mame.Compare.{ComparisonResult, compare_steps}
use tms32010_sv.Mame.Compare.Laws.{FitsSteps, Aligned, compare_steps-Aligned}

abbrev marker : String → String
marker registers = "TMS32010_STATE " ++ registers ++ " STK0=0000 STK1=0000 STK2=0000 STK3=0001\n"

abbrev lines : List Text
lines =
    codes "a line of the trace\n"
    ∷ codes (marker "PC=0003 ACC=00000000 P=00000000 T=0000 AR0=0000 AR1=0000 STR=3FFE")
    ∷ codes (marker "PC=0004 ACC=00000005 P=00000000 T=0000 AR0=0000 AR1=0000 STR=bffe")
    ∷ []

abbrev state : ℕ → ℕ → ℕ → Bool → ℕ → MameState
state line_number pc acc ov raw_str = record {
  line_number = line_number;
  pc = pc;
  acc = acc;
  p = 0;
  t = 0;
  ar = (0, 0);
  stack = (1, 0, 0, 0);
  ov = ov;
  ovm = false;
  intm = true;
  arp = 1;
  dp = 0;
  raw_str = raw_str;
}

abbrev states : List MameState
states = state 2 3 0 false 0x3FFE ∷ state 3 4 5 true 0xBFFE ∷ []

parsed : parse_mame_lines lines ≡ ok states
unfolding parse_mame_lines
parsed = refl

abbrev after : Members
after = member (codes "pc") (integer (pos 4)) (
    member (codes "acc") (integer (pos 5)) (
      member (codes "p") (integer (pos 0)) (
        member (codes "t") (integer (pos 0)) (
          member (codes "ar") (array (item (integer (pos 0)) (item (integer (pos 0)) no_item))) (
            member (codes "stack")
              (array (
                item (integer (pos 1)) (
                  item (integer (pos 0))
                    (item (integer (pos 0)) (item (integer (pos 0)) no_item)))))
              (member (codes "status")
                (object (
                  member (codes "ov") (boolean true) (
                    member (codes "ovm") (boolean false) (
                      member (codes "intm") (boolean true) (
                        member (codes "arp") (integer (pos 1))
                          (member (codes "dp") (integer (pos 0)) no_member))))))
                no_member))))))

abbrev steps : List ModelStep
steps =
    record {
      line_number = 1;
      pc = 3;
      opcode = 0x7E05;
      mnemonic = codes "LACK";
      state_after = after;
    }
    ∷ []

compared :
    compare_steps steps states false
    ≡ ok record { compared_steps = 1; mame_rows = 2; mismatches = [] }
unfolding compare_steps ◌>>=◌
compared = refl

compare_steps-Aligned_example :
    ((result : ComparisonResult) × (compare_steps steps states false ≡ ok result)
      × (result.mismatches ≡ []))
    ↔ (FitsSteps steps states false × Aligned steps states)
compare_steps-Aligned_example = compare_steps-Aligned steps states false
