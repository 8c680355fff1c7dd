-- ===== src/Access/Laws.antt =====
-- Indexing within the lists of the model: what is read or written.
use tms32010_sv.Base.{
  ℕ, zero, suc, ◌<◌, ◌^◌, List, get_or, get_elem?-eq-get_or, set, AllBelow-get_or, ◌≡◌, refl, arith,
  done,
}
use tms32010_sv.Machine.{Model, State, data_words, program_words, io_ports}
use tms32010_sv.WellFormed.{IsStateOk, IsMemory, IsWellFormed}
use tms32010_sv.Access.{read, write_data, write_program, write_output, read_ar, write_ar}

abbrev pub word_at : List ℕ → ℕ → ℕ
word_at xs i = get_or xs i 0

-- A word of a memory fits 16 bits.
pub word_at-lt : {n : ℕ} {xs : List ℕ} (i : ℕ) → IsMemory n xs → word_at xs i < 2 ^ 16
word_at-lt i h = AllBelow-get_or i 0 h.words (omega arith)

pub read-eq :
    {n : ℕ} {xs : List ℕ} (i : ℕ) (m : Model)
    → IsMemory n xs
    → i < n
    → read xs i m ≡ done (word_at xs i) m
unfolding read
read-eq {xs} i m h fits = rw (get_elem?-eq-get_or xs i 0 (omega (arith, h.size)), read)

module _ {m : Model} (h : IsWellFormed m) where
  pub write_data-eq :
      (i v : ℕ)
      → i < data_words
      → write_data i v m ≡ done tt (record m { data_memory = set m.data_memory i v })
  unfolding write_data
  write_data-eq i v fits =
      rw (get_elem?-eq-get_or m.data_memory i 0 (omega (arith, h.data_ok.size)), write_data)

  pub write_program-eq :
      (i v : ℕ)
      → i < program_words
      → write_program i v m ≡ done tt (record m { program = set m.program i v })
  unfolding write_program
  write_program-eq i v fits =
      rw (get_elem?-eq-get_or m.program i 0 (omega (arith, h.program_ok.size)), write_program)

  pub write_output-eq :
      (i v : ℕ)
      → i < io_ports
      → write_output i v m ≡ done tt (record m { io_output = set m.io_output i v })
  unfolding write_output
  write_output-eq i v fits =
      rw (get_elem?-eq-get_or m.io_output i 0 (omega (arith, h.output_ok.size)), write_output)

-- The auxiliary register `i`, of 0 and 1.
abbrev pub ar_at : ℕ → State → ℕ
ar_at zero s = s.ar.0
ar_at (suc i) s = s.ar.1

abbrev pub with_ar : ℕ → ℕ → State → State
with_ar zero v s = record s { ar = (v, s.ar.1) }
with_ar (suc i) v s = record s { ar = (s.ar.0, v) }

pub ar_at-lt : (i : ℕ) (s : State) → IsStateOk s → ar_at i s < 2 ^ 16
ar_at-lt zero s h = h.ar0_fits
ar_at-lt (suc i) s h = h.ar1_fits

pub read_ar-eq : (i : ℕ) (m : Model) → i < 2 → read_ar i m ≡ done (ar_at i m.state) m
unfolding read_ar
read_ar-eq zero m h = refl
read_ar-eq (suc zero) m h = refl
read_ar-eq (suc (suc i)) m h = absurd (omega arith)

pub write_ar-eq :
    (i v : ℕ) (m : Model)
    → i < 2
    → write_ar i v m ≡ done tt (record m { state = with_ar i v m.state })
unfolding write_ar
write_ar-eq zero v m h = refl
write_ar-eq (suc zero) v m h = refl
write_ar-eq (suc (suc i)) v m h = absurd (omega arith)
