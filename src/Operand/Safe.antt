-- ===== src/Operand/Safe.antt =====
-- Effective addresses, bus words and transactions of `step`, in a well-formed model.
use tms32010_sv.Base.{
  ℕ, ◌+◌, ◌*◌, ◌^◌, ◌<◌, bit_and, bit_or, ◌≡◌, refl, ◌∙◌, arith, Bool, true, false, ◌&&◌, ◌==◌,
  if◌then◌else◌, done, pure, ◌>>=◌, List,
}
use tms32010_sv.Base.Int.{pos, negsuc}
use tms32010_sv.Base.Bits.{bit_or-lt}
use tms32010_sv.Base.Masks.{bit_and-low}
use tms32010_sv.Isa.{Address, MemoryOp}
use tms32010_sv.Machine.{M, Model, Status, data_words}
use tms32010_sv.Access.{read, read_ar}
use tms32010_sv.Retire.{pc_plus}
use tms32010_sv.Access.Laws
use tms32010_sv.WellFormed.{IsMemory, IsWellFormed, Ends, ends}
use tms32010_sv.Alu.Fits.{modify_counter-lt}
use tms32010_sv.Decode.Legal.{IsMemoryOp, IsAddress}
use tms32010_sv.Operand.{
  is_sst, stepped, stored_register, status_word, flag_at, high_word, effective_address,
  transaction_data, operand_transactions,
}

-- A read of the model: it ends with a value below `n` and leaves the model alone.
pub record Reads (c : M ℕ) (m : Model) (n : ℕ) : Type 0 where
  pub result : ℕ
  pub runs : c m ≡ done result m
  pub bounded : result < n

pub stepped-lt : (control v : ℕ) → v < 2 ^ 16 → stepped control v < 2 ^ 16
unfolding stepped
stepped-lt control v h =
    ground (arith, modify_counter-lt v (pos 1) h, modify_counter-lt v (negsuc 0) h)

flag_at-lt : (k n : ℕ) (flag : Bool) → 2 ^ k < 2 ^ n → flag_at k flag < 2 ^ n
flag_at-lt k n true h = h
flag_at-lt k n false h = omega arith

pub status_word-lt : (s : Status) → status_word s < 2 ^ 16
unfolding status_word
status_word-lt s =
    bit_or-lt 16 _ _
      (bit_or-lt 16 _ _
        (bit_or-lt 16 _ _
          (bit_or-lt 16 _ _
            (bit_or-lt 16 _ _ (flag_at-lt 15 16 s.ov (omega arith))
              (flag_at-lt 14 16 s.ovm (omega arith)))
            (flag_at-lt 13 16 s.intm (omega arith)))
          (omega arith))
        (omega (arith, bit_and-low 1 s.arp)))
      (omega (arith, bit_and-low 1 s.dp))

pub high_word-lt : (acc shift : ℕ) → high_word acc shift < 2 ^ 16
unfolding high_word
high_word-lt acc shift = omega (arith, bit_and-low 32 (acc * 2 ^ shift))

module _ {m : Model} (h : IsWellFormed m) where
  pub stored_register-Reads :
      (register : ℕ) (a : Address) → register < 2 → Reads (stored_register register a) m (2 ^ 16)
  unfolding stored_register
  stored_register-Reads register a fits = record {
    result =
        if a.indirect && register == m.state.status.arp
        then stepped a.addressing_field (Laws.ar_at register m.state)
        else Laws.ar_at register m.state;
    runs = rw (Laws.read_ar-eq register m fits, ◌>>=◌);
    bounded = ground (
      arith,
      stepped-lt a.addressing_field (Laws.ar_at register m.state),
      Laws.ar_at-lt register m.state h.state_ok,
    );
  }

  -- The address is a byte: it may lie beyond the 144 words, which `step` checks.
  address_value : MemoryOp → Address → ℕ
  address_value op a =
      if a.indirect
      then bit_and (Laws.ar_at m.state.status.arp m.state) 0xFF
      else if is_sst op
      then bit_or 0x80 a.addressing_field
      else bit_or (m.state.status.dp * 2 ^ 7) a.addressing_field

  address_value-lt : (op : MemoryOp) (a : Address) → IsAddress a → address_value op a < 2 ^ 8
  unfolding address_value
  address_value-lt op a ok = ground (
    arith,
    bit_and-low 8 (Laws.ar_at m.state.status.arp m.state),
    bit_or-lt 8 0x80 a.addressing_field,
    bit_or-lt 8 (m.state.status.dp * 2 ^ 7) a.addressing_field,
    h.state_ok.dp_fits,
  )

  -- The register is read only if the address is indirect.
  choice_runs :
      (indirect : Bool) (f : ℕ → ℕ) (direct : ℕ)
      → ((if indirect then read_ar m.state.status.arp else pure 0) >>= λ register.
            pure (if indirect then f register else direct))
          m
        ≡ done (if indirect then f (Laws.ar_at m.state.status.arp m.state) else direct) m
  choice_runs true f direct = rw (Laws.read_ar-eq m.state.status.arp m h.state_ok.arp_fits, ◌>>=◌)
  choice_runs false f direct = refl

  pub effective_address-Reads :
      (op : MemoryOp) (a : Address) → IsAddress a → Reads (effective_address op a) m (2 ^ 8)
  unfolding effective_address address_value
  effective_address-Reads op a ok = record {
    result = address_value op a;
    runs = choice_runs a.indirect (λ register. bit_and register 0xFF) _;
    bounded = address_value-lt op a ok;
  }

  -- A method that comes down to one read of a memory.
  read_memory-Reads :
      {n : ℕ} {xs : List ℕ} {c : M ℕ} (i : ℕ)
      → c m ≡ read xs i m
      → IsMemory n xs
      → i < n
      → Reads c m (2 ^ 16)
  read_memory-Reads {xs} i e ok fits = record {
    result = Laws.word_at xs i;
    runs = e ∙ Laws.read-eq i m ok fits;
    bounded = Laws.word_at-lt i ok;
  }

  pub transaction_data-Reads :
      (op : MemoryOp) (a : Address) (ea : ℕ)
      → ea < data_words
      → IsMemoryOp op a
      → Reads (transaction_data op a ea) m (2 ^ 16)
  unfolding transaction_data
  transaction_data-Reads (MemoryOp.in_port port) a ea fits legal = record {
    result = bit_and (Laws.word_at m.io_input port) 0xFFFF;
    runs = rw (Laws.read-eq port m h.input_ok legal, ◌>>=◌);
    bounded = omega (arith, bit_and-low 16 (Laws.word_at m.io_input port));
  }
  transaction_data-Reads MemoryOp.tblr a ea fits legal =
      read_memory-Reads (bit_and m.state.acc 0x0FFF) refl h.program_ok
        (omega (arith, bit_and-low 12 m.state.acc))
  transaction_data-Reads MemoryOp.sacl a ea fits legal = record {
    result = bit_and m.state.acc 0xFFFF;
    runs = refl;
    bounded = omega (arith, bit_and-low 16 m.state.acc);
  }
  transaction_data-Reads (MemoryOp.sar register) a ea fits legal =
      stored_register-Reads register a legal
  transaction_data-Reads MemoryOp.sst a ea fits legal = record {
    result = status_word m.state.status;
    runs = refl;
    bounded = status_word-lt _;
  }
  transaction_data-Reads (MemoryOp.sach shift) a ea fits legal = record {
    result = high_word m.state.acc shift;
    runs = refl;
    bounded = high_word-lt m.state.acc shift;
  }
  transaction_data-Reads _ a ea fits legal = read_memory-Reads ea refl h.data_ok fits

  -- The transactions are some list, and listing them changes nothing.
  pub operand_transactions-runs :
      (op : MemoryOp) (pc ea value : ℕ)
      → Ends (λ _ m'. m' ≡ m) (λ _ _. ⊥) (operand_transactions op pc ea value m)
  unfolding operand_transactions
  operand_transactions-runs MemoryOp.tblr pc ea value =
      rw
        (Laws.read-eq (pc_plus pc 1) m h.program_ok (omega (arith, bit_and-low 12 (pc + 1))), ◌>>=◌)
        (ends refl)
  operand_transactions-runs MemoryOp.tblw pc ea value =
      rw
        (Laws.read-eq (pc_plus pc 1) m h.program_ok (omega (arith, bit_and-low 12 (pc + 1))), ◌>>=◌)
        (ends refl)
  operand_transactions-runs _ pc ea value = ends refl
