-- ===== src/Step/Memory.antt =====
-- The instructions of `step` with an operand in data memory, in a well-formed model.
use tms32010_sv.Base.{
  ℕ, ◌+◌, ◌≤◌, ◌<◌, bit_and, ◌≡◌, refl, arith, Bool, true, false, not, ◌&&◌, ◌||◌, ltb, ltb→lt,
  ◌==◌, if◌then◌else◌, inl, inr, Bool-cases, ◌>>=◌, pure, ◌>>◌, ◌++◌, ◌∷◌,
}
use tms32010_sv.Base.Masks.{bit_and-low}
use tms32010_sv.Isa.{Address, MemoryOp, Instruction, decoded_operands}
use tms32010_sv.Decode.Legal.{IsAddress, IsMemoryOp}
use tms32010_sv.Machine.{M, Model, data_words}
use tms32010_sv.Access.{set_pc, read_ar, write_ar, modify_status}
use tms32010_sv.Access.Laws
use tms32010_sv.WellFormed.{IsWellFormed, Kept, Kept-state, Kept-refl, ends, fails, Ends-bind}
use tms32010_sv.Interrupt.Laws.{IsScheduled}
use tms32010_sv.Retire.{pc_plus, retire, instruction_fetch}
use tms32010_sv.Retire.Laws.{Completes, retire-Completes}
use tms32010_sv.Operand.{stepped, moves, transaction_data, operand_transactions}
use tms32010_sv.Operand.Safe.{
  stepped-lt, effective_address-Reads, transaction_data-Reads, operand_transactions-runs,
}
use tms32010_sv.Perform.{perform, post_modify, suppresses_update, is_lst}
use tms32010_sv.Perform.Safe.{Safe, Safe-bind, Safe-write_ar, Safe-after, perform-Safe, mask_pc-lt}
use tms32010_sv.Control.Safe.{set_pc-Kept}
use tms32010_sv.Step.{address_entries, memory_cycles, execute_memory, execute_mar}

-- Two branches that keep the model.
Safe-choice :
    {m : Model} (b : Bool) (c d : M (Unit {0}))
    → Safe m (c m)
    → Safe m (d m)
    → Safe m ((if b then c else d) m)
Safe-choice true c d hc hd = hc
Safe-choice false c d hc hd = hd

module _ {m : Model} (h : IsWellFormed m) where
  count-Safe :
      (control arp : ℕ)
      → arp < 2
      → Safe m ((read_ar arp >>= λ value. write_ar arp (stepped control value)) m)
  count-Safe control arp fits =
      rw (Laws.read_ar-eq arp m fits, ◌>>=◌)
        (Safe-write_ar h arp (stepped control (Laws.ar_at arp m.state)) fits
          (stepped-lt control _ (Laws.ar_at-lt arp m.state h.state_ok)))

  next_arp-Kept :
      (control : ℕ)
      → Kept m (record m {
        state = record (m.state) { status = record (m.state.status) { arp = bit_and control 1 } };
      })
  next_arp-Kept control = Kept-state h _ (ground (arith, bit_and-low 1 control)) refl

module _ {m : Model} (h : IsWellFormed m) where
  post_modify-Safe :
      (a : Address) (suppress keeps : Bool) (arp : ℕ)
      → arp < 2
      → Safe m (post_modify a suppress keeps arp m)
  unfolding post_modify
  post_modify-Safe a suppress keeps arp fits =
      let control = a.addressing_field in
      let count : M (Unit {0}) = (read_ar arp >>= λ value. write_ar arp (stepped control value)) in
      let next : M (Unit {0}) = modify_status (λ s. record s { arp = bit_and control 1 }) in
      Safe-bind (λ _. if bit_and control 0x08 == 0 && not keeps then next else pure tt)
        (Safe-choice
          (not suppress && (not (bit_and control 0x20 == 0) || not (bit_and control 0x10 == 0)))
          count (pure tt) (count-Safe h control arp fits) (ends (Kept-refl h)))
        (λ _ m₁ kept.
          Safe-choice (bit_and control 0x08 == 0 && not keeps) next (pure tt)
            (ends (next_arp-Kept kept.well_formed control)) (ends (Kept-refl kept.well_formed)))

  some_cycle : (op : MemoryOp) → 1 ≤ memory_cycles op
  unfolding memory_cycles
  some_cycle MemoryOp.tblr = omega arith
  some_cycle MemoryOp.tblw = omega arith
  some_cycle (MemoryOp.in_port _) = omega arith
  some_cycle (MemoryOp.out_port _) = omega arith
  some_cycle _ = omega arith

  few_cycles : (op : MemoryOp) → memory_cycles op ≤ 3
  unfolding memory_cycles
  few_cycles MemoryOp.tblr = omega arith
  few_cycles MemoryOp.tblw = omega arith
  few_cycles (MemoryOp.in_port _) = omega arith
  few_cycles (MemoryOp.out_port _) = omega arith
  few_cycles _ = omega arith

  optional_modify-Safe :
      (a : Address) (suppress keeps : Bool) (arp : ℕ)
      → arp < 2
      → Safe m ((if a.indirect then post_modify a suppress keeps arp else pure tt) m)
  optional_modify-Safe a suppress keeps arp fits =
      Safe-choice a.indirect (post_modify a suppress keeps arp) (pure tt)
        (post_modify-Safe a suppress keeps arp fits) (ends (Kept-refl h))

module _ {m : Model} (h : IsWellFormed m) (scheduled : IsScheduled m)
    (idle : m.interrupt_entry_pending ≡ false) where
  -- What follows the address checks.
  operand-Completes :
      (op : MemoryOp) (a : Address) (pc opcode ea : ℕ)
      → IsMemoryOp op a
      → ea < data_words
      → (moves op ≡ true → ea + 1 < data_words)
      → Completes m (
          (transaction_data op a ea >>= λ value.
          operand_transactions op pc ea value >>= λ transactions.
          set_pc (pc_plus pc 1)
          >> (perform op a ea value
              >> ((if a.indirect
                    then post_modify a
                        (suppresses_update op m.state.status.arp)
                        (is_lst op)
                        m.state.status.arp
                    else pure tt)
                  >> retire
                      (Instruction.memory op a)
                      pc
                      opcode
                      (decoded_operands (Instruction.memory op a)
                        ++ address_entries op ea m.state.acc)
                      (memory_cycles op)
                      (instruction_fetch m pc opcode ∷ transactions))))
            m)
  operand-Completes op a pc opcode ea legal fits room =
      let bus = transaction_data-Reads h op a ea fits legal in
      rw (bus.runs, ◌>>=◌)
        (Ends-bind _ (operand_transactions-runs h op pc ea bus.result)
          (λ transactions m' same.
            let kept₁ = set_pc-Kept (pc_plus pc 1) h (mask_pc-lt (pc + 1)) in
            rw same (
              Ends-bind _
                (Safe-after kept₁
                  (perform-Safe kept₁.well_formed op a ea bus.result fits room legal bus.bounded))
                (λ _ m₂ kept₂.
                  Ends-bind _
                    (Safe-after kept₂ (
                      optional_modify-Safe kept₂.well_formed a
                        (suppresses_update op m.state.status.arp) (is_lst op) m.state.status.arp
                        h.state_ok.arp_fits))
                    (λ _ m₃ kept.
                      retire-Completes (Instruction.memory op a) pc opcode _ (memory_cycles op) _
                        scheduled idle (some_cycle h op) (few_cycles h op) kept)
                    (λ e m₃ impossible. absurd impossible))
                (λ e m₃ impossible. absurd impossible)))
          (λ e m' impossible. absurd impossible))

  pub execute_memory-Completes :
      (op : MemoryOp) (a : Address) (pc opcode : ℕ)
      → IsMemoryOp op a
      → IsAddress a
      → Completes m (execute_memory op a pc opcode m)
  unfolding execute_memory
  execute_memory-Completes op a pc opcode legal ok =
      let address = effective_address-Reads h op a ok in
      let ea = address.result in
      rw (address.runs, ◌>>=◌)
        (elim (Bool-cases (ltb ea data_words)) [
          | inr beyond ↦ rw beyond (fails (record { unsupported = tt; unchanged = refl }))
          | inl fits ↦ rw fits (elim (Bool-cases (not (moves op) || ltb (ea + 1) data_words)) [
            | inr beyond ↦ rw beyond (fails (record { unsupported = tt; unchanged = refl }))
            | inl room ↦ rw room (
                operand-Completes op a pc opcode ea legal (ltb→lt _ _ fits)
                  (λ moving. ground arith))
          ])
        ])

  pub execute_mar-Completes :
      (a : Address) (pc opcode : ℕ) → Completes m (execute_mar a pc opcode m)
  unfolding execute_mar
  execute_mar-Completes a pc opcode =
      let kept₁ = set_pc-Kept (pc_plus pc 1) h (mask_pc-lt (pc + 1)) in
      Ends-bind _
        (Safe-after kept₁ (
          optional_modify-Safe kept₁.well_formed a false false m.state.status.arp
            h.state_ok.arp_fits))
        (λ _ m₂ kept.
          retire-Completes (Instruction.mar a) pc opcode _ 1 _ scheduled idle (omega arith)
            (omega arith) kept)
        (λ e m₂ impossible. absurd impossible)
