-- ===== src/Operand.antt =====
-- sim/reference_models/tms32010_model.py: the instructions of `step` with an operand in data memory:
-- the effective address, the word on the bus, the logical transactions, what is performed, and the
-- modification of the auxiliary register afterwards.
pub mod Safe
pub mod StatusWord
use tms32010_sv.Base.{
  ℕ, ◌+◌, ◌*◌, ◌/◌, ◌^◌, bit_and, bit_or, Bool, true, false, not, ◌&&◌, List, [], ◌∷◌, ◌==◌,
  if◌then◌else◌, get, pure, ◌>>=◌,
}
use tms32010_sv.Base.Int.{pos, negsuc}
use tms32010_sv.Isa.{Address, MemoryOp}
use tms32010_sv.Machine.{M, Status, Transaction}
use tms32010_sv.Access.{read, read_ar}
use tms32010_sv.Alu.{modify_counter}
use tms32010_sv.Retire.{pc_plus, transaction}

-- The mnemonics that also move their word up by one: `DMOV` and `LTD`.
unfoldable pub moves : MemoryOp → Bool
moves MemoryOp.dmov = true
moves MemoryOp.ltd = true
moves _ = false

unfoldable pub is_sst : MemoryOp → Bool
is_sst MemoryOp.sst = true
is_sst _ = false

-- `data_address`.
unfoldable pub effective_address : MemoryOp → Address → M ℕ
effective_address op a = do
  m ← get
  register ← if a.indirect then read_ar m.state.status.arp else pure 0
  pure (
      if a.indirect
      then bit_and register 0xFF
      else if is_sst op
      then bit_or 0x80 a.addressing_field
      else bit_or (m.state.status.dp * 2 ^ 7) a.addressing_field)

-- One step of an auxiliary register, as the control bits ask for it.
unfoldable pub stepped : ℕ → ℕ → ℕ
stepped control value =
    if not (bit_and control 0x20 == 0)
    then modify_counter value (pos 1)
    else if not (bit_and control 0x10 == 0)
    then modify_counter value (negsuc 0)
    else value

-- What `SAR` stores: the register, or its stepped value if it is the one that addresses.
unfoldable pub stored_register : ℕ → Address → M ℕ
stored_register register a = do
  m ← get
  value ← read_ar register
  pure (
      if a.indirect && register == m.state.status.arp
      then stepped a.addressing_field value
      else value)

-- `int(flag) << k`.
abbrev pub flag_at : ℕ → Bool → ℕ
flag_at k flag = if flag then 2 ^ k else 0

-- The word that `SST` stores.
unfoldable pub status_word : Status → ℕ
status_word s =
    bit_or
      (bit_or
        (bit_or (bit_or (bit_or (flag_at 15 s.ov) (flag_at 14 s.ovm)) (flag_at 13 s.intm)) 0x1EFE)
        (bit_and s.arp 1 * 2 ^ 8))
      (bit_and s.dp 1)

-- The status that `LST` loads.
unfoldable pub load_status : ℕ → Status → Status
load_status word s = record s {
  ov = not (bit_and word 0x8000 == 0);
  ovm = not (bit_and word 0x4000 == 0);
  arp = bit_and (word / 2 ^ 8) 1;
  dp = bit_and word 1;
}

-- `((acc << shift) & ACC_MASK) >> 16`.
unfoldable pub high_word : ℕ → ℕ → ℕ
high_word acc shift = bit_and (acc * 2 ^ shift) 0xFFFF_FFFF / 2 ^ 16

-- `transaction_data`.
unfoldable pub transaction_data : MemoryOp → Address → ℕ → M ℕ
transaction_data (MemoryOp.in_port port) a ea = do
  m ← get
  word ← read m.io_input port
  pure (bit_and word 0xFFFF)
transaction_data MemoryOp.tblr a ea = do m ← get; read m.program (bit_and m.state.acc 0x0FFF)
transaction_data MemoryOp.sacl a ea = do m ← get; pure (bit_and m.state.acc 0xFFFF)
transaction_data (MemoryOp.sar register) a ea = stored_register register a
transaction_data MemoryOp.sst a ea = do m ← get; pure (status_word m.state.status)
transaction_data (MemoryOp.sach shift) a ea = do m ← get; pure (high_word m.state.acc shift)
transaction_data _ a ea = do m ← get; read m.data_memory ea

-- The last column of the trace: reads of the data memory, and not writes.
unfoldable pub reads_data : MemoryOp → Bool
reads_data MemoryOp.sacl = false
reads_data (MemoryOp.sach _) = false
reads_data (MemoryOp.sar _) = false
reads_data MemoryOp.sst = false
reads_data _ = true

-- The transactions after the instruction fetch, `DMOV`'s second one apart.
unfoldable pub operand_transactions : MemoryOp → ℕ → ℕ → ℕ → M (List Transaction)
operand_transactions (MemoryOp.in_port port) pc ea value = do
  m ← get
  pure (
      transaction (m.cycle_count + 1) "io" "read" port value
      ∷ transaction (m.cycle_count + 1) "data" "write" ea value
      ∷ [])
operand_transactions (MemoryOp.out_port port) pc ea value = do
  m ← get
  pure (
      transaction (m.cycle_count + 1) "data" "read" ea value
      ∷ transaction (m.cycle_count + 1) "io" "write" port value
      ∷ [])
operand_transactions MemoryOp.tblr pc ea value = do
  m ← get
  let following_address = pc_plus pc 1
  following ← read m.program following_address
  pure (
      transaction (m.cycle_count + 1) "program" "discarded_prefetch" following_address
        (bit_and following 0xFFFF)
      ∷ transaction (m.cycle_count + 2) "program" "table_read" (bit_and m.state.acc 0x0FFF) value
      ∷ transaction (m.cycle_count + 2) "data" "write" ea value
      ∷ [])
operand_transactions MemoryOp.tblw pc ea value = do
  m ← get
  let following_address = pc_plus pc 1
  following ← read m.program following_address
  pure (
      transaction (m.cycle_count + 1) "program" "discarded_prefetch" following_address
        (bit_and following 0xFFFF)
      ∷ transaction (m.cycle_count + 2) "data" "read" ea value
      ∷ transaction (m.cycle_count + 2) "program" "table_write" (bit_and m.state.acc 0x0FFF) value
      ∷ [])
operand_transactions op pc ea value = do
  m ← get
  pure (
      transaction m.cycle_count "data" (if reads_data op then "read" else "write") ea value
      ∷ (if moves op then transaction m.cycle_count "data" "write" (ea + 1) value ∷ [] else []))
