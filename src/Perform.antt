-- ===== src/Perform.antt =====
-- sim/reference_models/tms32010_model.py: what `step` performs for an instruction with an operand in
-- data memory, after the program counter has moved on, and the modification of the auxiliary
-- register and pointer that follows.
pub mod Safe
pub mod Tables
use tms32010_sv.Base.{
  ℕ, ◌+◌, ◌*◌, ◌/◌, ◌^◌, bit_and, bit_or, bit_xor, Bool, true, false, not, ◌&&◌, ◌||◌, ◌==◌,
  if◌then◌else◌, get, pure, ◌>>=◌, ◌>>◌,
}
use tms32010_sv.Isa.{Address, MemoryOp}
use tms32010_sv.Machine.{M, State, Status}
use tms32010_sv.Access.{
  read, write_data, write_program, write_output, read_ar, write_ar, modify_state, modify_status,
  set_acc,
}
use tms32010_sv.Alu.{
  add_accumulator, subtract_accumulator, conditional_subtract, shifted_operand, multiply,
}
use tms32010_sv.Operand.{stepped, stored_register, load_status, high_word}

-- `ADDH`: a sum in the high half alone.
unfoldable pub add_high : ℕ → ℕ → ℕ
add_high acc word = bit_or (bit_and (acc / 2 ^ 16 + word) 0xFFFF * 2 ^ 16) (bit_and acc 0xFFFF)

-- `XOR`.
unfoldable pub xor_low : ℕ → ℕ → ℕ
xor_low acc word = bit_or (bit_and acc 0xFFFF_0000) (bit_xor (bit_and acc 0xFFFF) word)

-- `self.state.stack[3] = self.state.stack[2]`, of the table transfers.
unfoldable pub spill_stack : State → State
spill_stack s = record s { stack = (s.stack.0, s.stack.1, s.stack.2, s.stack.2) }

-- An operation on the registers that takes the data word.
abbrev with_word : ℕ → (ℕ → State → State) → M (Unit {0})
with_word ea f = do m ← get; word ← read m.data_memory ea; modify_state (f word)

-- The branch of the long conditional for one mnemonic, at the effective address `ea`. `bus` is
-- `transaction_data`.
unfoldable pub perform : MemoryOp → Address → ℕ → ℕ → M (Unit {0})
unfolding add_high xor_low spill_stack
perform (MemoryOp.lac shift) a ea bus =
    with_word ea (λ word s. record s { acc = shifted_operand word shift })
perform (MemoryOp.lar register) a ea bus = do
  m ← get
  word ← read m.data_memory ea
  write_ar register word
perform MemoryOp.ldp a ea bus =
    with_word ea (λ word s. record s { status = record (s.status) { dp = bit_and word 1 } })
perform MemoryOp.lst a ea bus =
    with_word ea (λ word s. record s { status = load_status word s.status })
perform MemoryOp.lt a ea bus = with_word ea (λ word s. record s { t = word })
perform MemoryOp.lta a ea bus = with_word ea (λ word s. add_accumulator s.p (record s { t = word }))
perform MemoryOp.ltd a ea bus = do
  m ← get
  word ← read m.data_memory ea
  modify_state (λ s. record s { t = word })
  write_data (ea + 1) word
  modify_state (λ s. add_accumulator s.p s)
perform MemoryOp.dmov a ea bus = do m ← get; word ← read m.data_memory ea; write_data (ea + 1) word
perform (MemoryOp.in_port port) a ea bus = do
  m ← get
  word ← read m.io_input port
  write_data ea (bit_and word 0xFFFF)
perform (MemoryOp.out_port port) a ea bus = do
  m ← get
  word ← read m.data_memory ea
  write_output port (bit_and word 0xFFFF)
perform MemoryOp.tblr a ea bus = do
  m ← get
  word ← read m.program (bit_and m.state.acc 0x0FFF)
  write_data ea (bit_and word 0xFFFF)
  modify_state spill_stack
perform MemoryOp.tblw a ea bus = do
  m ← get
  word ← read m.data_memory ea
  write_program (bit_and m.state.acc 0x0FFF) (bit_and word 0xFFFF)
  modify_state spill_stack
perform MemoryOp.mpy a ea bus = with_word ea (λ word s. record s { p = multiply s.t word })
perform MemoryOp.sacl a ea bus = do m ← get; write_data ea (bit_and m.state.acc 0xFFFF)
perform (MemoryOp.sar register) a ea bus = do
  value ← stored_register register a
  write_data ea value
perform MemoryOp.sst a ea bus = write_data ea bus
perform (MemoryOp.sach shift) a ea bus = do m ← get; write_data ea (high_word m.state.acc shift)
perform MemoryOp.zalh a ea bus = with_word ea (λ word s. record s { acc = word * 2 ^ 16 })
perform MemoryOp.zals a ea bus = with_word ea (λ word s. record s { acc = word })
perform MemoryOp.adds a ea bus = with_word ea add_accumulator
perform MemoryOp.addh a ea bus = with_word ea (λ word s. record s { acc = add_high s.acc word })
perform (MemoryOp.add shift) a ea bus =
    with_word ea (λ word. add_accumulator (shifted_operand word shift))
perform (MemoryOp.sub shift) a ea bus =
    with_word ea (λ word. subtract_accumulator (shifted_operand word shift))
perform MemoryOp.subh a ea bus = with_word ea (λ word. subtract_accumulator (word * 2 ^ 16))
perform MemoryOp.subs a ea bus = with_word ea subtract_accumulator
perform MemoryOp.subc a ea bus = with_word ea conditional_subtract
perform MemoryOp.xor a ea bus = with_word ea (λ word s. record s { acc = xor_low s.acc word })
perform MemoryOp.and a ea bus =
    with_word ea (λ word s. record s { acc = bit_and (bit_and s.acc 0xFFFF) word })
perform MemoryOp.or a ea bus = with_word ea (λ word s. record s { acc = bit_or s.acc word })

-- `suppress_counter_update`: `LAR` into the register that addresses.
unfoldable pub suppresses_update : MemoryOp → ℕ → Bool
suppresses_update (MemoryOp.lar register) selected_arp = register == selected_arp
suppresses_update _ selected_arp = false

unfoldable pub is_lst : MemoryOp → Bool
is_lst MemoryOp.lst = true
is_lst _ = false

-- The modification of AR and ARP after an indirect access through `selected_arp`.
unfoldable pub post_modify : Address → Bool → Bool → ℕ → M (Unit {0})
unfolding stepped
post_modify a suppress_counter_update keeps_arp selected_arp = do
  m ← get
  let control = a.addressing_field
  let changes = not (bit_and control 0x20 == 0) || not (bit_and control 0x10 == 0)
  let count = do value ← read_ar selected_arp; write_ar selected_arp (stepped control value)
  if not suppress_counter_update && changes then count else pure tt
  if bit_and control 0x08 == 0 && not keeps_arp
      then modify_status (λ s. record s { arp = bit_and control 1 })
      else pure tt
