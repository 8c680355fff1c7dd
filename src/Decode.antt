-- ===== src/Decode.antt =====
-- sim/reference_models/tms32010_model.py: `_decode`, the hand-written decoder. The chain of tests is
-- cut into stretches of the source, each of which ends in the next. `none` is the exception
-- `UnsupportedOpcode`, which `step` raises with the program counter and the opcode.
pub mod Legal
use tms32010_sv.Base.{
  ℕ, ◌/◌, ◌^◌, bit_and, Option, some, none, Bool, not, ◌&&◌, ◌||◌, ◌==◌, List, [], ◌∷◌,
  if◌then◌else◌,
}
use tms32010_sv.Base.Int.{pos, sub_ℕ}
use tms32010_sv.Isa.{Address, AccumulatorBranch, ControlFlow, MemoryOp, Instruction}

-- The reserved bits 6, 2 and 1 of an indirect control, and increment with decrement.
unfoldable pub bad_control : ℕ → Bool
bad_control control = not (bit_and control 0x46 == 0) || bit_and control 0x30 == 0x30

unfoldable pub indirect_bit : ℕ → Bool
indirect_bit opcode = bit_and (opcode / 2 ^ 7) 1 == 1

-- The address field with its check, which the source repeats for each pattern.
unfoldable pub with_address : ℕ → (Address → Instruction) → Option Instruction
unfolding bad_control indirect_bit
with_address opcode build =
    let indirect = indirect_bit opcode in
    let control = bit_and opcode 0x7F in
    if indirect && bad_control control
    then none
    else some (build (record { indirect = indirect; addressing_field = control }))

-- `(opcode >> 8) & mask`.
abbrev pub field_at_8 : ℕ → ℕ → ℕ
field_at_8 opcode mask = bit_and (opcode / 2 ^ 8) mask

-- A dictionary with words for keys, and `dict.get`.
abbrev pub lookup_word : ℕ → List (ℕ × Instruction) → Option Instruction
lookup_word opcode [] = none
lookup_word opcode ((key, value) ∷ rest) =
    if opcode == key then some value else lookup_word opcode rest

-- `fixed`.
abbrev pub fixed : List (ℕ × Instruction)
fixed =
    (0x7F80, Instruction.nop)
    ∷ (0x7F81, Instruction.dint)
    ∷ (0x7F82, Instruction.eint)
    ∷ (0x7F88, Instruction.abs)
    ∷ (0x7F89, Instruction.zac)
    ∷ (0x7F8A, Instruction.rovm)
    ∷ (0x7F8B, Instruction.sovm)
    ∷ (0x7F8C, Instruction.cala)
    ∷ (0x7F8D, Instruction.ret)
    ∷ (0x7F8E, Instruction.pac)
    ∷ (0x7F8F, Instruction.apac)
    ∷ (0x7F90, Instruction.spac)
    ∷ (0x7F9C, Instruction.push)
    ∷ (0x7F9D, Instruction.pop)
    ∷ []

-- From `MAR` to the end: the T-register loads, `MPY`, `MPYK`, `LDPK` and the fixed words.
unfoldable pub decode_multiplier : ℕ → Option Instruction
unfolding with_address
decode_multiplier opcode =
    if bit_and opcode 0xFF00 == 0x6800
    then with_address opcode Instruction.mar
    else if bit_and opcode 0xFF00 == 0x6F00
    then with_address opcode (Instruction.memory MemoryOp.ldp)
    else if bit_and opcode 0xFF00 == 0x6A00
    then with_address opcode (Instruction.memory MemoryOp.lt)
    else if bit_and opcode 0xFF00 == 0x6900
    then with_address opcode (Instruction.memory MemoryOp.dmov)
    else if bit_and opcode 0xFF00 == 0x6C00
    then with_address opcode (Instruction.memory MemoryOp.lta)
    else if bit_and opcode 0xFF00 == 0x6B00
    then with_address opcode (Instruction.memory MemoryOp.ltd)
    else if bit_and opcode 0xFF00 == 0x6D00
    then with_address opcode (Instruction.memory MemoryOp.mpy)
    else if bit_and opcode 0xE000 == 0x8000
    then (let constant = bit_and opcode 0x1FFF in
        some (
          Instruction.mpyk
            (if bit_and constant 0x1000 == 0 then pos constant else sub_ℕ constant 0x2000)))
    else if bit_and opcode 0xFFFE == 0x6E00
    then some (Instruction.ldpk (bit_and opcode 1))
    else lookup_word opcode fixed

-- From `XOR` to `LARP`. `SST` has a check of its own: its direct form reaches 16 words.
unfoldable pub decode_logic : ℕ → Option Instruction
unfolding with_address indirect_bit decode_multiplier
decode_logic opcode =
    if bit_and opcode 0xFF00 == 0x7800
    then with_address opcode (Instruction.memory MemoryOp.xor)
    else if bit_and opcode 0xFF00 == 0x7900
    then with_address opcode (Instruction.memory MemoryOp.and)
    else if bit_and opcode 0xFF00 == 0x7A00
    then with_address opcode (Instruction.memory MemoryOp.or)
    else if bit_and opcode 0xFF00 == 0x7B00
    then with_address opcode (Instruction.memory MemoryOp.lst)
    else if bit_and opcode 0xFF00 == 0x7C00
    then (if not (indirect_bit opcode) && not (bit_and (bit_and opcode 0x7F) 0x70 == 0)
        then none
        else with_address opcode (Instruction.memory MemoryOp.sst))
    else if bit_and opcode 0xFE00 == 0x7000
    then some (Instruction.lark (field_at_8 opcode 1) (bit_and opcode 0xFF))
    else if bit_and opcode 0xFFFE == 0x6880
    then some (Instruction.larp (bit_and opcode 1))
    else decode_multiplier opcode

-- From `LACK` to `SUBC`.
unfoldable pub decode_accumulator : ℕ → Option Instruction
unfolding with_address decode_logic
decode_accumulator opcode =
    if bit_and opcode 0xFF00 == 0x7E00
    then some (Instruction.lack (bit_and opcode 0xFF))
    else if bit_and opcode 0xFF00 == 0x5000
    then with_address opcode (Instruction.memory MemoryOp.sacl)
    else if bit_and opcode 0xF800 == 0x5800
    then (let shift = field_at_8 opcode 0x7 in
        if shift == 0 || shift == 1 || shift == 4
        then with_address opcode (Instruction.memory (MemoryOp.sach shift))
        else none)
    else if bit_and opcode 0xFF00 == 0x6500
    then with_address opcode (Instruction.memory MemoryOp.zalh)
    else if bit_and opcode 0xFF00 == 0x6600
    then with_address opcode (Instruction.memory MemoryOp.zals)
    else if bit_and opcode 0xFF00 == 0x6100
    then with_address opcode (Instruction.memory MemoryOp.adds)
    else if bit_and opcode 0xFF00 == 0x6000
    then with_address opcode (Instruction.memory MemoryOp.addh)
    else if bit_and opcode 0xFF00 == 0x6200
    then with_address opcode (Instruction.memory MemoryOp.subh)
    else if bit_and opcode 0xFF00 == 0x6300
    then with_address opcode (Instruction.memory MemoryOp.subs)
    else if bit_and opcode 0xFF00 == 0x6400
    then with_address opcode (Instruction.memory MemoryOp.subc)
    else decode_logic opcode

-- From `IN` to `LAR`: transfers, and the patterns with a shift or a register.
unfoldable pub decode_transfer : ℕ → Option Instruction
unfolding with_address decode_accumulator
decode_transfer opcode =
    if bit_and opcode 0xF800 == 0x4000
    then with_address opcode (Instruction.memory (MemoryOp.in_port (field_at_8 opcode 0x7)))
    else if bit_and opcode 0xF800 == 0x4800
    then with_address opcode (Instruction.memory (MemoryOp.out_port (field_at_8 opcode 0x7)))
    else if bit_and opcode 0xFF00 == 0x6700
    then with_address opcode (Instruction.memory MemoryOp.tblr)
    else if bit_and opcode 0xFF00 == 0x7D00
    then with_address opcode (Instruction.memory MemoryOp.tblw)
    else if bit_and opcode 0xF000 == 0x0000
    then with_address opcode (Instruction.memory (MemoryOp.add (field_at_8 opcode 0xF)))
    else if bit_and opcode 0xF000 == 0x1000
    then with_address opcode (Instruction.memory (MemoryOp.sub (field_at_8 opcode 0xF)))
    else if bit_and opcode 0xF000 == 0x2000
    then with_address opcode (Instruction.memory (MemoryOp.lac (field_at_8 opcode 0xF)))
    else if bit_and opcode 0xFE00 == 0x3000
    then with_address opcode (Instruction.memory (MemoryOp.sar (field_at_8 opcode 1)))
    else if bit_and opcode 0xFE00 == 0x3800
    then with_address opcode (Instruction.memory (MemoryOp.lar (field_at_8 opcode 1)))
    else decode_accumulator opcode

abbrev branch_if : AccumulatorBranch → Instruction
branch_if c = Instruction.control (ControlFlow.accumulator c)

-- `accumulator_branches`, and the tests for the other two-word mnemonics.
abbrev pub two_word : List (ℕ × Instruction)
two_word =
    (0xFA00, branch_if AccumulatorBranch.blz)
    ∷ (0xFB00, branch_if AccumulatorBranch.blez)
    ∷ (0xFC00, branch_if AccumulatorBranch.bgz)
    ∷ (0xFD00, branch_if AccumulatorBranch.bgez)
    ∷ (0xFE00, branch_if AccumulatorBranch.bnz)
    ∷ (0xFF00, branch_if AccumulatorBranch.bz)
    ∷ (0xF900, Instruction.control ControlFlow.b)
    ∷ (0xF400, Instruction.control ControlFlow.banz)
    ∷ (0xF500, Instruction.control ControlFlow.bv)
    ∷ (0xF600, Instruction.control ControlFlow.bioz)
    ∷ (0xF800, Instruction.control ControlFlow.call)
    ∷ []

-- `_decode`.
unfoldable pub decode : ℕ → Option Instruction
unfolding decode_transfer
decode opcode = elim (lookup_word opcode two_word) [
  | some instruction ↦ some instruction
  | none ↦ decode_transfer opcode
]
