-- ===== src/Isa.antt =====
-- sim/reference_models/tms32010_model.py: what `_decode` returns. A mnemonic with its operand
-- dictionary is one value: a constructor for each mnemonic, with the operands that it has.
-- `IN` and `OUT` are `in_port` and `out_port`, since `in` is a reserved word here.
use Prim.Native.String.{String}
use tms32010_sv.Base.{ℕ, Bool, List, [], ◌∷◌, ◌++◌, if◌then◌else◌}
use tms32010_sv.Base.Int.{ℤ, pos}

-- "indirect" and "addressing_field".
pub record Address : Type 0 where
  pub indirect : Bool
  pub addressing_field : ℕ

-- ACCUMULATOR_BRANCHES.
pub data AccumulatorBranch : Type 0 where
  bgez bgz blez blz bnz bz : AccumulatorBranch

-- TWO_WORD_CONTROL_FLOW.
pub data ControlFlow : Type 0 where
  accumulator : AccumulatorBranch → ControlFlow
  b banz bioz bv call : ControlFlow

-- The mnemonics whose operand is in data memory, with "shift", "auxiliary_register" or "port".
pub data MemoryOp : Type 0 where
  add lac sach sub : ℕ → MemoryOp
  lar sar : ℕ → MemoryOp
  in_port out_port : ℕ → MemoryOp
  addh adds and dmov ldp lst lt lta ltd mpy or sacl sst : MemoryOp
  subc subh subs tblr tblw xor zalh zals : MemoryOp

pub data Instruction : Type 0 where
  control : ControlFlow → Instruction
  cala pop push ret : Instruction
  memory : MemoryOp → Address → Instruction
  mar : Address → Instruction
  lack larp ldpk : ℕ → Instruction
  lark : ℕ → ℕ → Instruction
  mpyk : ℤ → Instruction
  abs apac dint eint nop pac rovm sovm spac zac : Instruction

pub accumulator_mnemonic : AccumulatorBranch → String
accumulator_mnemonic AccumulatorBranch.bgez = "BGEZ"
accumulator_mnemonic AccumulatorBranch.bgz = "BGZ"
accumulator_mnemonic AccumulatorBranch.blez = "BLEZ"
accumulator_mnemonic AccumulatorBranch.blz = "BLZ"
accumulator_mnemonic AccumulatorBranch.bnz = "BNZ"
accumulator_mnemonic AccumulatorBranch.bz = "BZ"

pub control_mnemonic : ControlFlow → String
unfolding accumulator_mnemonic
control_mnemonic (ControlFlow.accumulator c) = accumulator_mnemonic c
control_mnemonic ControlFlow.b = "B"
control_mnemonic ControlFlow.banz = "BANZ"
control_mnemonic ControlFlow.bioz = "BIOZ"
control_mnemonic ControlFlow.bv = "BV"
control_mnemonic ControlFlow.call = "CALL"

pub memory_mnemonic : MemoryOp → String
memory_mnemonic (MemoryOp.add _) = "ADD"
memory_mnemonic (MemoryOp.lac _) = "LAC"
memory_mnemonic (MemoryOp.sach _) = "SACH"
memory_mnemonic (MemoryOp.sub _) = "SUB"
memory_mnemonic (MemoryOp.lar _) = "LAR"
memory_mnemonic (MemoryOp.sar _) = "SAR"
memory_mnemonic (MemoryOp.in_port _) = "IN"
memory_mnemonic (MemoryOp.out_port _) = "OUT"
memory_mnemonic MemoryOp.addh = "ADDH"
memory_mnemonic MemoryOp.adds = "ADDS"
memory_mnemonic MemoryOp.and = "AND"
memory_mnemonic MemoryOp.dmov = "DMOV"
memory_mnemonic MemoryOp.ldp = "LDP"
memory_mnemonic MemoryOp.lst = "LST"
memory_mnemonic MemoryOp.lt = "LT"
memory_mnemonic MemoryOp.lta = "LTA"
memory_mnemonic MemoryOp.ltd = "LTD"
memory_mnemonic MemoryOp.mpy = "MPY"
memory_mnemonic MemoryOp.or = "OR"
memory_mnemonic MemoryOp.sacl = "SACL"
memory_mnemonic MemoryOp.sst = "SST"
memory_mnemonic MemoryOp.subc = "SUBC"
memory_mnemonic MemoryOp.subh = "SUBH"
memory_mnemonic MemoryOp.subs = "SUBS"
memory_mnemonic MemoryOp.tblr = "TBLR"
memory_mnemonic MemoryOp.tblw = "TBLW"
memory_mnemonic MemoryOp.xor = "XOR"
memory_mnemonic MemoryOp.zalh = "ZALH"
memory_mnemonic MemoryOp.zals = "ZALS"

-- The mnemonic, as `_decode` and the trace spell it.
unfoldable pub mnemonic : Instruction → String
unfolding control_mnemonic memory_mnemonic
mnemonic (Instruction.control c) = control_mnemonic c
mnemonic Instruction.cala = "CALA"
mnemonic Instruction.pop = "POP"
mnemonic Instruction.push = "PUSH"
mnemonic Instruction.ret = "RET"
mnemonic (Instruction.memory op _) = memory_mnemonic op
mnemonic (Instruction.mar _) = "MAR"
mnemonic (Instruction.lack _) = "LACK"
mnemonic (Instruction.larp _) = "LARP"
mnemonic (Instruction.ldpk _) = "LDPK"
mnemonic (Instruction.lark _ _) = "LARK"
mnemonic (Instruction.mpyk _) = "MPYK"
mnemonic Instruction.abs = "ABS"
mnemonic Instruction.apac = "APAC"
mnemonic Instruction.dint = "DINT"
mnemonic Instruction.eint = "EINT"
mnemonic Instruction.nop = "NOP"
mnemonic Instruction.pac = "PAC"
mnemonic Instruction.rovm = "ROVM"
mnemonic Instruction.sovm = "SOVM"
mnemonic Instruction.spac = "SPAC"
mnemonic Instruction.zac = "ZAC"

-- An operand dictionary, `dict[str, int]`.
abbrev pub Operands : Type 0
Operands = List (String × ℤ)

abbrev pub int_of : Bool → ℤ
int_of flag = if flag then pos 1 else pos 0

unfoldable pub address_operands : Address → Operands
address_operands a =
    ("indirect", int_of a.indirect) ∷ ("addressing_field", pos a.addressing_field) ∷ []

-- "shift", "auxiliary_register" and "port", which stand before the address.
pub leading_operands : MemoryOp → Operands
leading_operands (MemoryOp.add shift) = ("shift", pos shift) ∷ []
leading_operands (MemoryOp.lac shift) = ("shift", pos shift) ∷ []
leading_operands (MemoryOp.sach shift) = ("shift", pos shift) ∷ []
leading_operands (MemoryOp.sub shift) = ("shift", pos shift) ∷ []
leading_operands (MemoryOp.lar register) = ("auxiliary_register", pos register) ∷ []
leading_operands (MemoryOp.sar register) = ("auxiliary_register", pos register) ∷ []
leading_operands (MemoryOp.in_port port) = ("port", pos port) ∷ []
leading_operands (MemoryOp.out_port port) = ("port", pos port) ∷ []
leading_operands _ = []

-- The operand dictionary that `_decode` returns with the mnemonic.
unfoldable pub decoded_operands : Instruction → Operands
unfolding leading_operands address_operands
decoded_operands (Instruction.memory op a) = leading_operands op ++ address_operands a
decoded_operands (Instruction.mar a) = address_operands a
decoded_operands (Instruction.lack constant) = ("constant", pos constant) ∷ []
decoded_operands (Instruction.larp constant) = ("constant", pos constant) ∷ []
decoded_operands (Instruction.ldpk constant) = ("constant", pos constant) ∷ []
decoded_operands (Instruction.lark register constant) =
    ("auxiliary_register", pos register) ∷ ("constant", pos constant) ∷ []
decoded_operands (Instruction.mpyk constant) = ("constant", constant) ∷ []
decoded_operands _ = []
