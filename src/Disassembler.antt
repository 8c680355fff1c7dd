-- ===== src/Disassembler.antt =====
-- tools/disassembler/tms32010_dis.py: the class `Disassembler`. The loaded database is a parameter,
-- and an output is the list of its rows, which the source joins.
pub mod Format
pub mod Rows
use Prim.Native.String.{String, ◌++◌}
use tms32010_sv.Base.{
  ℕ, suc, ◌+◌, ◌-◌, bit_and, Bool, true, false, not, ◌&&◌, ◌||◌, List, [], ◌∷◌, ◌==◌, leb, ltb,
  same_text, if◌then◌else◌, Option, none, some,
}
use tms32010_sv.Base.Int.{ℤ, pos, negsuc}
use tms32010_sv.Isa.{Operands}
use tms32010_sv.Database.{DatabaseError, Checked, ok, failed, Entry, decode_word}
use tms32010_sv.Disassembler.Format.{decimal, hex}

-- `ValueError`s, the database's errors, and Python's `KeyError`.
pub data DisassemblyError : Type 0 where
  word_out_of_range origin_out_of_range : ℕ → DisassemblyError
  image_exceeds : DisassemblyError
  operand_exceeds : String → DisassemblyError
  database_error : DatabaseError → DisassemblyError
  key_error : DisassemblyError

abbrev pub D : Type 0 → Type 0
D A = Checked DisassemblyError A

infixl 5 ◌>>=◌
abbrev pub ◌>>=◌ : {A B : Type 0} → D A → (A → D B) → D B
d >>= f = elim d [ ok a ↦ f a | failed e ↦ failed e ]

abbrev pub decoded : List Entry → ℕ → D (Option (Entry × Operands))
decoded entries word = elim (decode_word entries word) [
  | ok found ↦ ok found
  | failed e ↦ failed (database_error e)
]

abbrev one_of : String → List String → Bool
one_of name [] = false
one_of name (other ∷ rest) = same_text name other || one_of name rest

-- TWO_WORD_CONTROL_FLOW.
abbrev pub is_two_word : String → Bool
is_two_word name =
    one_of name
      ("B" ∷ "BANZ" ∷ "BGEZ" ∷ "BGZ" ∷ "BIOZ" ∷ "BLEZ" ∷ "BLZ" ∷ "BNZ" ∷ "BV" ∷ "BZ" ∷ "CALL" ∷ [])

-- `operands[name]`. Of two fields of one name, a dictionary keeps the later value.
abbrev operand : String → Operands → D ℤ
operand name [] = failed key_error
operand name ((other, value) ∷ rest) = elim (operand name rest) [
  | ok later ↦ ok later
  | failed e ↦ if same_text name other then ok value else failed e
]

abbrev pub word_directive : ℕ → String
word_directive word = ".word 0x" ++ hex 4 word

-- `x & mask`, for a mask that is not negative.
abbrev and_mask : ℤ → ℕ → ℕ
and_mask (pos n) mask = bit_and n mask
and_mask (negsuc n) mask = mask - bit_and n mask

-- `{0x00: "*", 0x20: "*+", 0x10: "*-"}[control & 0x30]`.
abbrev modifier : ℤ → D String
modifier control =
    let bits = and_mask control 0x30 in
    if bits == 0x00
    then ok "*"
    else if bits == 0x20
    then ok "*+"
    else if bits == 0x10
    then ok "*-"
    else failed key_error

abbrev is_zero : ℤ → Bool
is_zero (pos n) = n == 0
is_zero (negsuc n) = false

-- `control & 0x08`, and `control & 1`.
abbrev keeps_pointer : ℤ → Bool
keeps_pointer control = not (and_mask control 0x08 == 0)

abbrev pointer_bit : ℤ → ℕ
pointer_bit control = and_mask control 1

-- The three forms of an operand in data memory. `direct` follows the address, `kept` the modifier when
-- the pointer stays, and `changed` the modifier before the new pointer.
abbrev addressed : String → String → String → String → Operands → ℕ → D String
addressed head direct kept changed operands word = operand "indirect" operands >>= λ indirect.
    operand "addressing_field" operands >>= λ control.
    if is_zero indirect
    then ok (head ++ decimal control ++ direct)
    else (modifier control >>= λ text.
        if keeps_pointer control
        then if pointer_bit control == 1
          then ok (word_directive word)
          else ok (head ++ text ++ kept)
        else ok (head ++ text ++ changed ++ "," ++ decimal (pos (pointer_bit control))))

abbrev plain_mnemonics : List String
plain_mnemonics =
    "ADDH" ∷ "ADDS" ∷ "AND" ∷ "DMOV" ∷ "LDP" ∷ "LST" ∷ "LT" ∷ "LTA" ∷ "LTD" ∷ "MAR" ∷ "MPY" ∷ "OR"
    ∷ "SST" ∷ "SUBC" ∷ "SUBH" ∷ "SUBS" ∷ "TBLR" ∷ "TBLW" ∷ "XOR" ∷ "ZALH" ∷ "ZALS" ∷ []

-- `f",{shift}" if shift else ""`.
abbrev suffix : ℤ → String
suffix shift = if is_zero shift then "" else "," ++ decimal shift

-- The text of an entry with its operands.
unfoldable pub instruction_text : String → Operands → ℕ → D String
instruction_text mnemonic operands word =
    if is_two_word mnemonic
    then ok (word_directive word)
    else if one_of mnemonic ("LACK" ∷ "MPYK" ∷ "LARP" ∷ "LDPK" ∷ [])
    then (operand "constant" operands >>= λ constant. ok (mnemonic ++ " " ++ decimal constant))
    else if one_of mnemonic ("IN" ∷ "OUT" ∷ [])
    then (operand "port" operands >>= λ port.
        let port_text = "," ++ decimal port in
        addressed (mnemonic ++ " ") port_text port_text port_text operands word)
    else if one_of mnemonic ("ADD" ∷ "LAC" ∷ "SUB" ∷ "SACH" ∷ [])
    then (operand "shift" operands >>= λ shift.
        addressed (mnemonic ++ " ") (suffix shift) (suffix shift) ("," ++ decimal shift) operands
          word)
    else if same_text mnemonic "SACL"
    then addressed "SACL " "" "" ",0" operands word
    else if one_of mnemonic plain_mnemonics
    then addressed (mnemonic ++ " ") "" "" "" operands word
    else if one_of mnemonic ("LAR" ∷ "SAR" ∷ [])
    then (operand "auxiliary_register" operands >>= λ register.
        addressed (mnemonic ++ " AR" ++ decimal register ++ ",") "" "" "" operands word)
    else if same_text mnemonic "LARK"
    then (operand "auxiliary_register" operands >>= λ register.
        operand "constant" operands >>= λ constant.
        ok ("LARK AR" ++ decimal register ++ "," ++ decimal constant))
    else ok mnemonic

unfoldable pub disassemble_word : List Entry → ℕ → D String
unfolding instruction_text
disassemble_word entries word =
    if leb word 0xFFFF
    then (decoded entries word >>= λ found. elim found [
      | none ↦ ok (word_directive word)
      | some (entry, operands) ↦ instruction_text entry.mnemonic operands word
    ])
    else failed (word_out_of_range word)

-- The two-word mnemonic that a word starts, if it starts one.
abbrev pub starts_pair : Option (Entry × Operands) → Option String
starts_pair none = none
starts_pair (some (entry, operands)) =
    if is_two_word entry.mnemonic then some entry.mnemonic else none

-- The same, if the following word is a target.
abbrev pub pair_at : Option (Entry × Operands) → ℕ → Option String
pair_at found target = if bit_and target 0xF000 == 0 then starts_pair found else none

abbrev append : List String → List String → List String
append [] ys = ys
append (x ∷ xs) ys = x ∷ append xs ys

-- `rows.append(…)` in front of what the rest of the loop appends.
abbrev pub rows_then : List String → D (List String) → D (List String)
rows_then rows later = elim later [ ok more ↦ ok (append rows more) | failed e ↦ failed e ]

-- `disassemble_source`.
unfoldable pub source_rows : List Entry → List ℕ → D (List String)
source_rows entries [] = ok []
source_rows entries (word ∷ []) =
    decoded entries word >>= λ _. disassemble_word entries word >>= λ text. ok ((text ++ "\n") ∷ [])
source_rows entries (word ∷ target ∷ rest) = decoded entries word >>= λ found.
    elim (pair_at found target) [
      | some mnemonic ↦
          rows_then ((mnemonic ++ " 0x" ++ hex 3 target ++ "\n") ∷ []) (source_rows entries rest)
      | none ↦ disassemble_word entries word >>= λ text.
          rows_then ((text ++ "\n") ∷ []) (source_rows entries (target ∷ rest))
    ]

-- One row of a listing.
abbrev pub listing_row : ℕ → ℕ → String → String
listing_row address word text = hex 3 address ++ " " ++ hex 4 word ++ "  " ++ text ++ "\n"

abbrev pub target_text : String → ℕ → String
target_text mnemonic target = ".word 0x" ++ hex 4 target ++ " ; " ++ mnemonic ++ " target"

abbrev pub pair_listing : ℕ → ℕ → ℕ → String → List String
pair_listing address word target mnemonic =
    listing_row address word (mnemonic ++ " 0x" ++ hex 3 target)
    ∷ listing_row (suc address) target (target_text mnemonic target)
    ∷ []

-- `if address > 0xFFF: raise …`.
abbrev pub in_space : ℕ → D (Unit {0})
in_space address = if leb address 0xFFF then ok tt else failed image_exceeds

-- The loop of `disassemble_listing`, at `address` = origin + offset.
unfoldable pub listing_rows : List Entry → List ℕ → ℕ → D (List String)
listing_rows entries [] address = ok []
listing_rows entries (word ∷ []) address = in_space address >>= λ _. decoded entries word >>= λ _.
    disassemble_word entries word >>= λ text. ok (listing_row address word text ∷ [])
listing_rows entries (word ∷ target ∷ rest) address = in_space address >>= λ _.
    decoded entries word >>= λ found. elim (pair_at found target) [
      | some mnemonic ↦ elim (address == 0xFFF) [
        | true ↦ failed (operand_exceeds mnemonic)
        | false ↦
            (rows_then (pair_listing address word target mnemonic)
              (listing_rows entries rest (suc (suc address))))
      ]
      | none ↦
          (disassemble_word entries word >>= λ text.
          rows_then (listing_row address word text ∷ [])
            (listing_rows entries (target ∷ rest) (suc address)))
    ]

unfoldable pub disassemble_listing : List Entry → List ℕ → ℕ → D (List String)
unfolding listing_rows
disassemble_listing entries words origin =
    if leb origin 0xFFF
    then listing_rows entries words origin
    else failed (origin_out_of_range origin)
