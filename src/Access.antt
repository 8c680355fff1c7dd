-- ===== src/Access.antt =====
-- Python's indexing of the model's lists, with `IndexError` out of range, and assignments to fields.
pub mod Laws
use tms32010_sv.Base.{ℕ, zero, suc, List, get_elem?, set, none, some, done, raised, modify}
use tms32010_sv.Machine.{M, State, Status, index_error}

-- `xs[i]`.
unfoldable pub read : List ℕ → ℕ → M ℕ
read xs i m = elim (get_elem? xs i) [ none ↦ raised index_error m | some v ↦ done v m ]

-- `self.data[i] = v`, `self.program[i] = v` and `self.io_output[i] = v`.
unfoldable pub write_data : ℕ → ℕ → M (Unit {0})
write_data i v m = elim (get_elem? m.data_memory i) [
  | none ↦ raised index_error m
  | some _ ↦ done tt (record m { data_memory = set m.data_memory i v })
]

unfoldable pub write_program : ℕ → ℕ → M (Unit {0})
write_program i v m = elim (get_elem? m.program i) [
  | none ↦ raised index_error m
  | some _ ↦ done tt (record m { program = set m.program i v })
]

unfoldable pub write_output : ℕ → ℕ → M (Unit {0})
write_output i v m = elim (get_elem? m.io_output i) [
  | none ↦ raised index_error m
  | some _ ↦ done tt (record m { io_output = set m.io_output i v })
]

-- `self.state.ar[i]`, and the assignment to it.
unfoldable pub read_ar : ℕ → M ℕ
read_ar zero m = done m.state.ar.0 m
read_ar (suc zero) m = done m.state.ar.1 m
read_ar (suc (suc i)) m = raised index_error m

unfoldable pub write_ar : ℕ → ℕ → M (Unit {0})
write_ar zero v m = done tt (record m { state = record (m.state) { ar = (v, m.state.ar.1) } })
write_ar (suc zero) v m = done tt (record m { state = record (m.state) { ar = (m.state.ar.0, v) } })
write_ar (suc (suc i)) v m = raised index_error m

abbrev pub modify_state : (State → State) → M (Unit {0})
modify_state f = modify (λ m. record m { state = f m.state })

abbrev pub modify_status : (Status → Status) → M (Unit {0})
modify_status f = modify_state (λ s. record s { status = f s.status })

abbrev pub set_acc : ℕ → M (Unit {0})
set_acc v = modify_state (λ s. record s { acc = v })

abbrev pub set_pc : ℕ → M (Unit {0})
set_pc v = modify_state (λ s. record s { pc = v })
