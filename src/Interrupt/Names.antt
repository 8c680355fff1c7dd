-- ===== src/Interrupt/Names.antt =====
-- The multiplies by their mnemonics: `retired_mnemonic in {"MPY", "MPYK"}` of
-- `_advance_interrupt_pipeline`, in sim/reference_models/tms32010_model.py.
use Prim.Native.String.{String}
use tms32010_sv.Base.{◌≡◌, refl, Bool, ◌||◌, same_text}
use tms32010_sv.Isa.{AccumulatorBranch, ControlFlow, MemoryOp, Instruction, mnemonic}
use tms32010_sv.Interrupt.{is_multiply}

abbrev pub names_multiply : String → Bool
names_multiply name = same_text name "MPY" || same_text name "MPYK"

-- The mnemonics of the multiplies are theirs alone.
pub names_multiply-mnemonic : (i : Instruction) → names_multiply (mnemonic i) ≡ is_multiply i
unfolding mnemonic is_multiply
names_multiply-mnemonic (Instruction.control (ControlFlow.accumulator AccumulatorBranch.bgez)) =
    refl
names_multiply-mnemonic (Instruction.control (ControlFlow.accumulator AccumulatorBranch.bgz)) = refl
names_multiply-mnemonic (Instruction.control (ControlFlow.accumulator AccumulatorBranch.blez)) =
    refl
names_multiply-mnemonic (Instruction.control (ControlFlow.accumulator AccumulatorBranch.blz)) = refl
names_multiply-mnemonic (Instruction.control (ControlFlow.accumulator AccumulatorBranch.bnz)) = refl
names_multiply-mnemonic (Instruction.control (ControlFlow.accumulator AccumulatorBranch.bz)) = refl
names_multiply-mnemonic (Instruction.control ControlFlow.b) = refl
names_multiply-mnemonic (Instruction.control ControlFlow.banz) = refl
names_multiply-mnemonic (Instruction.control ControlFlow.bioz) = refl
names_multiply-mnemonic (Instruction.control ControlFlow.bv) = refl
names_multiply-mnemonic (Instruction.control ControlFlow.call) = refl
names_multiply-mnemonic (Instruction.memory (MemoryOp.add _) _) = refl
names_multiply-mnemonic (Instruction.memory (MemoryOp.lac _) _) = refl
names_multiply-mnemonic (Instruction.memory (MemoryOp.sach _) _) = refl
names_multiply-mnemonic (Instruction.memory (MemoryOp.sub _) _) = refl
names_multiply-mnemonic (Instruction.memory (MemoryOp.lar _) _) = refl
names_multiply-mnemonic (Instruction.memory (MemoryOp.sar _) _) = refl
names_multiply-mnemonic (Instruction.memory (MemoryOp.in_port _) _) = refl
names_multiply-mnemonic (Instruction.memory (MemoryOp.out_port _) _) = refl
names_multiply-mnemonic (Instruction.memory MemoryOp.addh _) = refl
names_multiply-mnemonic (Instruction.memory MemoryOp.adds _) = refl
names_multiply-mnemonic (Instruction.memory MemoryOp.and _) = refl
names_multiply-mnemonic (Instruction.memory MemoryOp.dmov _) = refl
names_multiply-mnemonic (Instruction.memory MemoryOp.ldp _) = refl
names_multiply-mnemonic (Instruction.memory MemoryOp.lst _) = refl
names_multiply-mnemonic (Instruction.memory MemoryOp.lt _) = refl
names_multiply-mnemonic (Instruction.memory MemoryOp.lta _) = refl
names_multiply-mnemonic (Instruction.memory MemoryOp.ltd _) = refl
names_multiply-mnemonic (Instruction.memory MemoryOp.mpy _) = refl
names_multiply-mnemonic (Instruction.memory MemoryOp.or _) = refl
names_multiply-mnemonic (Instruction.memory MemoryOp.sacl _) = refl
names_multiply-mnemonic (Instruction.memory MemoryOp.sst _) = refl
names_multiply-mnemonic (Instruction.memory MemoryOp.subc _) = refl
names_multiply-mnemonic (Instruction.memory MemoryOp.subh _) = refl
names_multiply-mnemonic (Instruction.memory MemoryOp.subs _) = refl
names_multiply-mnemonic (Instruction.memory MemoryOp.tblr _) = refl
names_multiply-mnemonic (Instruction.memory MemoryOp.tblw _) = refl
names_multiply-mnemonic (Instruction.memory MemoryOp.xor _) = refl
names_multiply-mnemonic (Instruction.memory MemoryOp.zalh _) = refl
names_multiply-mnemonic (Instruction.memory MemoryOp.zals _) = refl
names_multiply-mnemonic Instruction.cala = refl
names_multiply-mnemonic Instruction.pop = refl
names_multiply-mnemonic Instruction.push = refl
names_multiply-mnemonic Instruction.ret = refl
names_multiply-mnemonic (Instruction.mar _) = refl
names_multiply-mnemonic (Instruction.lack _) = refl
names_multiply-mnemonic (Instruction.larp _) = refl
names_multiply-mnemonic (Instruction.ldpk _) = refl
names_multiply-mnemonic (Instruction.lark _ _) = refl
names_multiply-mnemonic (Instruction.mpyk _) = refl
names_multiply-mnemonic Instruction.abs = refl
names_multiply-mnemonic Instruction.apac = refl
names_multiply-mnemonic Instruction.dint = refl
names_multiply-mnemonic Instruction.eint = refl
names_multiply-mnemonic Instruction.nop = refl
names_multiply-mnemonic Instruction.pac = refl
names_multiply-mnemonic Instruction.rovm = refl
names_multiply-mnemonic Instruction.sovm = refl
names_multiply-mnemonic Instruction.spac = refl
names_multiply-mnemonic Instruction.zac = refl
