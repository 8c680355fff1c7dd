-- ===== src/Assembler/Encoding/Table.antt =====
-- The words of all operations of docs/generated/tms32010_isa.yaml, as the model decodes them.
use Prim.Native.String.{String}
use tms32010_sv.Base.{
  ℕ, ◌≡◌, refl, Bool, true, false, ◌&&◌, ◌||◌, List, [], ◌∷◌, none, some, leb, same_text,
}
use tms32010_sv.Base.Text.{codes}
use tms32010_sv.Isa.{mnemonic}
use tms32010_sv.Decode.{decode}
use tms32010_sv.Database.{Entry}
use tms32010_sv.Database.Entries.{instructions}
use tms32010_sv.Assembler.Instruction.{form_of}
use tms32010_sv.Assembler.Forms.{all_words}

-- `MAR` on an indirect operand with a new pointer, and no change of the register, is `LARP`.
abbrev pub names_match : String → String → Bool
names_match name found = same_text name found || (same_text name "MAR" && same_text found "LARP")

-- The word fits, and the model decodes it to the mnemonic.
abbrev pub decodes_to : String → ℕ → Bool
decodes_to name word =
    leb word 0xFFFF && elim (decode word) [ none ↦ false | some i ↦ names_match name (mnemonic i) ]

abbrev pub entry_passes : Entry → Bool
entry_passes entry =
    all_words (form_of (codes entry.mnemonic)) (codes entry.mnemonic) entry.opcode.value
      (decodes_to entry.mnemonic)

unfoldable pub all_pass : List Entry → Bool
all_pass [] = true
all_pass (entry ∷ rest) = entry_passes entry && all_pass rest

pub passes : all_pass instructions ≡ true
unfolding all_pass instructions all_words decode form_of mnemonic
passes = refl
