-- ===== src/Perform/Tables.antt =====
-- The table transfers `TBLW` and `TBLR`.
use tms32010_sv.Base.{
  ℕ, ◌<◌, ◌^◌, bit_and, ◌≡◌, refl, arith, set, get_or-set_self, done, ◌>>=◌, ◌>>◌,
}
use tms32010_sv.Base.Masks.{bit_and-low}
use tms32010_sv.Isa.{Address, MemoryOp}
use tms32010_sv.Machine.{Model, data_words}
use tms32010_sv.Access.Laws
use tms32010_sv.WellFormed.{IsWellFormed, Kept-program, Kept-state}
use tms32010_sv.Perform.{perform, spill_stack}
use tms32010_sv.Perform.Safe.{mask_pc-lt, spill_stack-Settled}

word_lem : (w : ℕ) → w < 2 ^ 16 → bit_and w 0xFFFF ≡ w
word_lem w small = omega (arith, bit_and-low 16 w)

module _ {m : Model} (h : IsWellFormed m) (a a' : Address) (ea ea' bus bus' : ℕ)
    (from : ea < data_words) (to : ea' < data_words) where
  -- In a well-formed model, `TBLW` from a data address `ea` in range and then `TBLR` to such an
  -- address `ea'`, with the accumulator unchanged between them: the data word at `ea` stands at
  -- `ea'` and in the program word that the accumulator selects, the fourth stack word has become
  -- the third, and nothing else has changed.
  pub tblr-tblw :
      (perform MemoryOp.tblw a ea bus >> perform MemoryOp.tblr a' ea' bus') m
      ≡ done tt (record m {
        program = set m.program (bit_and m.state.acc 0x0FFF) (Laws.word_at m.data_memory ea);
        data_memory = set m.data_memory ea' (Laws.word_at m.data_memory ea);
        state = spill_stack m.state;
      })
  unfolding perform spill_stack
  tblr-tblw =
      let w = Laws.word_at m.data_memory ea in
      let small = Laws.word_at-lt ea h.data_ok in
      let slot = bit_and m.state.acc 0x0FFF in
      let wrote = (Kept-program h slot w small).well_formed in
      let s = spill_stack m.state in
      let ok = spill_stack-Settled m.state h.state_ok in
      let spilt = (Kept-state wrote s ok.fits ok.request_same).well_formed in
      rw
        (
          Laws.read-eq ea m h.data_ok from,
          ◌>>=◌,
          word_lem w small,
          Laws.write_program-eq h slot w (mask_pc-lt m.state.acc),
          ◌>>=◌,
          Laws.read-eq slot (record m { state = s; program = set m.program slot w })
              spilt.program_ok (mask_pc-lt m.state.acc),
          ◌>>=◌,
          get_or-set_self m.program slot w 0
              (omega (arith, h.program_ok.size, mask_pc-lt m.state.acc)),
          word_lem w small,
          Laws.write_data-eq spilt ea' w to,
        )
        refl
