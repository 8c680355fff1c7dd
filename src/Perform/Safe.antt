-- ===== src/Perform/Safe.antt =====
-- What the instructions with an operand in memory perform, in a well-formed model.
use tms32010_sv.Base.{Outcome, done, raised, ◌>>=◌, List, zero, suc, ◌∙◌}
use tms32010_sv.Base.{ℕ, ◌+◌, ◌/◌, ◌^◌, ◌<◌, bit_and, ◌≡◌, refl, arith, true}
use tms32010_sv.Base.Bits.{bit_and-lt, bit_or-lt, bit_xor-lt}
use tms32010_sv.Base.Masks.{bit_and-low}
use tms32010_sv.Isa.{Address, MemoryOp}
use tms32010_sv.Machine.{M, Model, State, Fault, data_words, program_words, io_ports}
use tms32010_sv.Access.{read, write_data, write_program, write_output, write_ar, modify_state}
use tms32010_sv.Operand.Safe.{high_word-lt, stored_register-Reads}
use tms32010_sv.Alu.{add_accumulator}
use tms32010_sv.Access.Laws
use tms32010_sv.WellFormed.{
  IsStateOk, IsMemory, IsWellFormed, Kept, Ends, ends, fails, Kept-trans, Kept-state, Kept-data,
  Kept-program, Kept-output,
}
use tms32010_sv.Alu.Fits.{
  Settled, add_accumulator-Settled, subtract_accumulator-Settled, conditional_subtract-Settled,
  shifted_operand-lt, multiply-lt,
}
use tms32010_sv.Decode.Legal.{IsMemoryOp}
use tms32010_sv.Operand.{load_status, moves}
use tms32010_sv.Perform.{with_word, perform, add_high, xor_low, spill_stack}

-- Ends, with what `Kept` says of the models before and after.
abbrev pub Safe : Model → {A : Type 0} → Outcome Model Fault A → Type 0
Safe m = Ends (λ _ m'. Kept m m') (λ _ _. ⊥)

-- A run after a change that keeps the model.
pub Safe-after :
    {A : Type 0} {m m' : Model} {o : Outcome Model Fault A} → Kept m m' → Safe m' o → Safe m o
Safe-after kept (ends later) = ends (Kept-trans kept later)
Safe-after kept (fails e) = fails e

-- One run after another.
pub Safe-bind :
    {A B : Type 0} {m : Model} {o : Outcome Model Fault A} (k : A → M B)
    → Safe m o
    → ((a : A) (m' : Model) → Kept m m' → Safe m' (k a m'))
    → Safe m (elim o [ done a t ↦ k a t | raised e t ↦ raised e t ])
Safe-bind k (ends {a} {m = m'} kept) next = Safe-after kept (next a m' kept)
Safe-bind k (fails e) next = absurd e

pub mask_pc-lt : (a : ℕ) → bit_and a 0x0FFF < 4096
mask_pc-lt a = omega (arith, bit_and-low 12 a)

mask_word-lt : (a : ℕ) → bit_and a 0xFFFF < 2 ^ 16
mask_word-lt a = omega (arith, bit_and-low 16 a)

module _ {m : Model} (h : IsWellFormed m) where
  pub Safe-read :
      {A : Type 0} {n : ℕ} {xs : List ℕ} (i : ℕ) (k : ℕ → M A)
      → IsMemory n xs
      → i < n
      → ((w : ℕ) → w < 2 ^ 16 → Safe m (k w m))
      → Safe m ((read xs i >>= k) m)
  Safe-read {xs} i k ok fits g =
      rw (Laws.read-eq i m ok fits, ◌>>=◌) (g (Laws.word_at xs i) (Laws.word_at-lt i ok))

  pub Safe-state : (f : State → State) → Settled m.state (f m.state) → Safe m (modify_state f m)
  Safe-state f r = ends (Kept-state h (f m.state) r.fits r.request_same)

  Safe-write : (i v : ℕ) → i < data_words → v < 2 ^ 16 → Safe m (write_data i v m)
  Safe-write i v fits small = rw (Laws.write_data-eq h i v fits) (ends (Kept-data h i v small))

  Safe-write_program : (i v : ℕ) → i < program_words → v < 2 ^ 16 → Safe m (write_program i v m)
  Safe-write_program i v fits small =
      rw (Laws.write_program-eq h i v fits) (ends (Kept-program h i v small))

  Safe-output : (i v : ℕ) → i < io_ports → v < 2 ^ 16 → Safe m (write_output i v m)
  Safe-output i v fits small = rw (Laws.write_output-eq h i v fits) (ends (Kept-output h i v small))

  with_ar-Settled : (i v : ℕ) → v < 2 ^ 16 → Settled m.state (Laws.with_ar i v m.state)
  with_ar-Settled zero v small = ground arith
  with_ar-Settled (suc i) v small = ground arith

  pub Safe-write_ar : (i v : ℕ) → i < 2 → v < 2 ^ 16 → Safe m (write_ar i v m)
  Safe-write_ar i v fits small =
      rw (Laws.write_ar-eq i v m fits) (Safe-state (Laws.with_ar i v) (with_ar-Settled i v small))

  with_word-Safe :
      (ea : ℕ) (f : ℕ → State → State)
      → ea < data_words
      → ((w : ℕ) → w < 2 ^ 16 → Settled m.state (f w m.state))
      → Safe m (with_word ea f m)
  with_word-Safe ea f fits g =
      Safe-read ea (λ w. modify_state (f w)) h.data_ok fits
        (λ w small. Safe-state (f w) (g w small))

pub spill_stack-Settled : (s : State) → IsStateOk s → Settled s (spill_stack s)
unfolding spill_stack
spill_stack-Settled s h = ground arith

-- `LTA` and `LTD` load T, then add P.
load_t-Settled : (w : ℕ) (s : State) → IsStateOk s → w < 2 ^ 16 → Settled s (record s { t = w })
load_t-Settled w s h small = ground arith

Settled-trans : {a b c : State} → Settled a b → Settled b c → Settled a c
Settled-trans h k = record {
  fits = k.fits;
  pc_same = k.pc_same ∙ h.pc_same;
  request_same = k.request_same ∙ h.request_same;
}

add_high-lt : (acc w : ℕ) → add_high acc w < 2 ^ 32
unfolding add_high
add_high-lt acc w =
    bit_or-lt 32 _ _ (omega (arith, mask_word-lt (acc / 2 ^ 16 + w)))
      (omega (arith, mask_word-lt acc))

xor_low-lt : (acc w : ℕ) → acc < 2 ^ 32 → w < 2 ^ 16 → xor_low acc w < 2 ^ 32
unfolding xor_low
xor_low-lt acc w ha hw =
    bit_or-lt 32 _ _ (bit_and-lt 32 acc 0xFFFF_0000 ha (omega arith))
      (bit_xor-lt 32 (bit_and acc 0xFFFF) w (omega (arith, mask_word-lt acc)) (omega arith))

module _ {m : Model} (h : IsWellFormed m) where
  -- Each of the 29 instructions, at an address in range.
  pub perform-Safe :
      (op : MemoryOp) (a : Address) (ea bus : ℕ)
      → ea < data_words
      → (moves op ≡ true → ea + 1 < data_words)
      → IsMemoryOp op a
      → bus < 2 ^ 16
      → Safe m (perform op a ea bus m)
  unfolding perform moves
  perform-Safe (MemoryOp.lac shift) a ea bus fits room legal small_bus =
      with_word-Safe h ea _ fits (λ w small. ground (arith, shifted_operand-lt w shift))
  perform-Safe MemoryOp.ldp a ea bus fits room legal small_bus =
      with_word-Safe h ea _ fits (λ w small. ground (arith, bit_and-low 1 w))
  perform-Safe MemoryOp.lst a ea bus fits room legal small_bus =
      with_word-Safe h ea _ fits (λ w small.
        unfold load_status in ground (arith, bit_and-low 1 w, bit_and-low 1 (w / 2 ^ 8)))
  perform-Safe MemoryOp.lt a ea bus fits room legal small_bus =
      with_word-Safe h ea _ fits (λ w small. ground arith)
  perform-Safe MemoryOp.mpy a ea bus fits room legal small_bus =
      with_word-Safe h ea _ fits (λ w small. ground (arith, multiply-lt m.state.t w))
  perform-Safe MemoryOp.zalh a ea bus fits room legal small_bus =
      with_word-Safe h ea _ fits (λ w small. ground arith)
  perform-Safe MemoryOp.zals a ea bus fits room legal small_bus =
      with_word-Safe h ea _ fits (λ w small. ground arith)
  perform-Safe MemoryOp.adds a ea bus fits room legal small_bus =
      with_word-Safe h ea _ fits (λ w small. add_accumulator-Settled w m.state h.state_ok)
  perform-Safe (MemoryOp.add shift) a ea bus fits room legal small_bus =
      with_word-Safe h ea _ fits (λ w small. add_accumulator-Settled _ m.state h.state_ok)
  perform-Safe (MemoryOp.sub shift) a ea bus fits room legal small_bus =
      with_word-Safe h ea _ fits (λ w small. subtract_accumulator-Settled _ m.state h.state_ok)
  perform-Safe MemoryOp.subh a ea bus fits room legal small_bus =
      with_word-Safe h ea _ fits (λ w small. subtract_accumulator-Settled _ m.state h.state_ok)
  perform-Safe MemoryOp.subs a ea bus fits room legal small_bus =
      with_word-Safe h ea _ fits (λ w small. subtract_accumulator-Settled _ m.state h.state_ok)
  perform-Safe MemoryOp.subc a ea bus fits room legal small_bus =
      with_word-Safe h ea _ fits (λ w small. conditional_subtract-Settled _ m.state h.state_ok)
  perform-Safe MemoryOp.addh a ea bus fits room legal small_bus =
      with_word-Safe h ea _ fits (λ w small. ground (arith, add_high-lt m.state.acc w))
  perform-Safe MemoryOp.xor a ea bus fits room legal small_bus =
      with_word-Safe h ea _ fits
        (λ w small. ground (arith, xor_low-lt m.state.acc w h.state_ok.acc_fits small))
  perform-Safe MemoryOp.and a ea bus fits room legal small_bus =
      with_word-Safe h ea _ fits (λ w small.
        ground (arith, bit_and-lt 16 (bit_and m.state.acc 0xFFFF) w, mask_word-lt m.state.acc))
  perform-Safe MemoryOp.or a ea bus fits room legal small_bus =
      with_word-Safe h ea _ fits (λ w small. ground (arith, bit_or-lt 32 m.state.acc w))
  perform-Safe MemoryOp.lta a ea bus fits room legal small_bus =
      with_word-Safe h ea _ fits (λ w small.
        let loaded = load_t-Settled w m.state h.state_ok small in
        Settled-trans loaded (add_accumulator-Settled _ _ loaded.fits))
  perform-Safe (MemoryOp.sach shift) a ea bus fits room legal small_bus =
      Safe-write h ea _ fits (high_word-lt m.state.acc shift)
  perform-Safe (MemoryOp.lar register) a ea bus fits room legal small_bus =
      Safe-read h ea _ h.data_ok fits (λ w small. Safe-write_ar h register w legal small)
  perform-Safe (MemoryOp.sar register) a ea bus fits room legal small_bus =
      let stored = stored_register-Reads h register a legal in
      rw (stored.runs, ◌>>=◌) (Safe-write h ea stored.result fits stored.bounded)
  perform-Safe (MemoryOp.in_port port) a ea bus fits room legal small_bus =
      Safe-read h port _ h.input_ok legal (λ w small. Safe-write h ea _ fits (mask_word-lt w))
  perform-Safe (MemoryOp.out_port port) a ea bus fits room legal small_bus =
      Safe-read h ea _ h.data_ok fits (λ w small. Safe-output h port _ legal (mask_word-lt w))
  perform-Safe MemoryOp.dmov a ea bus fits room legal small_bus =
      Safe-read h ea _ h.data_ok fits (λ w small. Safe-write h (ea + 1) w (room refl) small)
  perform-Safe MemoryOp.ltd a ea bus fits room legal small_bus =
      Safe-read h ea _ h.data_ok fits (λ w small.
        Safe-bind _
          (Safe-state h (λ s. record s { t = w }) (load_t-Settled w m.state h.state_ok small))
          (λ _ m₁ kept₁.
            Safe-bind _ (Safe-write kept₁.well_formed (ea + 1) w (room refl) small) (λ _ m₂ kept₂.
              Safe-state kept₂.well_formed (λ s. add_accumulator s.p s)
                (add_accumulator-Settled _ _ kept₂.well_formed.state_ok))))
  perform-Safe MemoryOp.sacl a ea bus fits room legal small_bus =
      Safe-write h ea _ fits (mask_word-lt m.state.acc)
  perform-Safe MemoryOp.sst a ea bus fits room legal small_bus = Safe-write h ea bus fits small_bus
  perform-Safe MemoryOp.tblr a ea bus fits room legal small_bus =
      Safe-read h (bit_and m.state.acc 0x0FFF) _ h.program_ok (mask_pc-lt m.state.acc) (λ w small.
        Safe-bind _ (Safe-write h ea _ fits (mask_word-lt w)) (λ _ m₁ kept₁.
          Safe-state kept₁.well_formed spill_stack
            (spill_stack-Settled _ kept₁.well_formed.state_ok)))
  perform-Safe MemoryOp.tblw a ea bus fits room legal small_bus =
      Safe-read h ea _ h.data_ok fits (λ w small.
        Safe-bind _
          (Safe-write_program h (bit_and m.state.acc 0x0FFF) _ (mask_pc-lt m.state.acc)
            (mask_word-lt w))
          (λ _ m₁ kept₁.
            Safe-state kept₁.well_formed spill_stack
              (spill_stack-Settled _ kept₁.well_formed.state_ok)))
