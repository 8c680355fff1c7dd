-- ===== src/WellFormed.antt =====
-- What holds of the model between two calls: the widths of the registers, the sizes of the memories
-- and the widths of their words; and what an instruction leaves alone.
use tms32010_sv.Base.{
  ℕ, ◌<◌, ◌^◌, List, length, set, AllBelow, AllBelow-set, length-set, ◌≡◌, refl, ◌∙◌, Outcome, done,
  raised,
}
use tms32010_sv.Machine.{M, Model, State, Fault, program_words, data_words, io_ports}

pub record IsStateOk (s : State) : Type 0 where
  pub pc_fits : s.pc < 0x1000
  pub acc_fits : s.acc < 2 ^ 32
  pub p_fits : s.p < 2 ^ 32
  pub t_fits : s.t < 2 ^ 16
  pub ar0_fits : s.ar.0 < 2 ^ 16
  pub ar1_fits : s.ar.1 < 2 ^ 16
  pub stack0_fits : s.stack.0 < 0x1000
  pub stack1_fits : s.stack.1 < 0x1000
  pub stack2_fits : s.stack.2 < 0x1000
  pub stack3_fits : s.stack.3 < 0x1000
  pub arp_fits : s.status.arp < 2
  pub dp_fits : s.status.dp < 2

-- A memory of `n` words of 16 bits.
pub record IsMemory (n : ℕ) (xs : List ℕ) : Type 0 where
  pub size : length xs ≡ n
  pub words : AllBelow (2 ^ 16) xs

pub record IsWellFormed (m : Model) : Type 0 where
  pub state_ok : IsStateOk m.state
  pub program_ok : IsMemory program_words m.program
  pub data_ok : IsMemory data_words m.data_memory
  pub input_ok : IsMemory io_ports m.io_input
  pub output_ok : IsMemory io_ports m.io_output

-- What an instruction does not touch before it retires.
pub record SameInterrupts (m m' : Model) : Type 0 where
  pub pending_same : m'.state.interrupt_pending ≡ m.state.interrupt_pending
  pub delay_same : m'.interrupt_delay_one ≡ m.interrupt_delay_one
  pub entry_same : m'.interrupt_entry_pending ≡ m.interrupt_entry_pending
  pub cycles_same : m'.cycle_count ≡ m.cycle_count

pub record Kept (m m' : Model) : Type 0 where
  pub well_formed : IsWellFormed m'
  pub same : SameInterrupts m m'

-- A run that ends in `P`, or raises in `E`.
pub data Ends {A : Type 0} (P : A → Model → Type 0) (E : Fault → Model → Type 0)
    : Outcome Model Fault A → Type 0 where
  ends : {a : A} {m : Model} → P a m → Ends P E (done a m)
  fails : {e : Fault} {m : Model} → E e m → Ends P E (raised e m)

-- One run after another.
pub Ends-bind :
    {A B : Type 0} {P : A → Model → Type 0} {Q : B → Model → Type 0} {E F : Fault → Model → Type 0}
    {o : Outcome Model Fault A} (k : A → M B)
    → Ends P E o
    → ((a : A) (m : Model) → P a m → Ends Q F (k a m))
    → ((e : Fault) (m : Model) → E e m → F e m)
    → Ends Q F (elim o [ done a t ↦ k a t | raised e t ↦ raised e t ])
Ends-bind k (ends {a} {m} p) next relax = next a m p
Ends-bind k (fails {e} {m} p) next relax = fails (relax e m p)

pub IsMemory-set :
    {n : ℕ} {xs : List ℕ} (i v : ℕ) → IsMemory n xs → v < 2 ^ 16 → IsMemory n (set xs i v)
IsMemory-set {xs} i v h small = record {
  size = length-set xs i v ∙ h.size;
  words = AllBelow-set i v h.words small;
}

pub SameInterrupts-refl : (m : Model) → SameInterrupts m m
SameInterrupts-refl m = record {
  pending_same = refl;
  delay_same = refl;
  entry_same = refl;
  cycles_same = refl;
}

pub SameInterrupts-trans :
    {a b c : Model} → SameInterrupts a b → SameInterrupts b c → SameInterrupts a c
SameInterrupts-trans h k = record {
  pending_same = k.pending_same ∙ h.pending_same;
  delay_same = k.delay_same ∙ h.delay_same;
  entry_same = k.entry_same ∙ h.entry_same;
  cycles_same = k.cycles_same ∙ h.cycles_same;
}

pub Kept-refl : {m : Model} → IsWellFormed m → Kept m m
Kept-refl {m} h = record { well_formed = h; same = SameInterrupts-refl m }

pub Kept-trans : {a b c : Model} → Kept a b → Kept b c → Kept a c
Kept-trans h k = record { well_formed = k.well_formed; same = SameInterrupts-trans h.same k.same }

module _ {m : Model} (h : IsWellFormed m) where
  -- New registers that fit, with the request as it was.
  pub Kept-state :
      (s : State)
      → IsStateOk s
      → s.interrupt_pending ≡ m.state.interrupt_pending
      → Kept m (record m { state = s })
  Kept-state s ok e = record {
    well_formed = record {
      state_ok = ok;
      program_ok = h.program_ok;
      data_ok = h.data_ok;
      input_ok = h.input_ok;
      output_ok = h.output_ok;
    };
    same = record { pending_same = e; delay_same = refl; entry_same = refl; cycles_same = refl };
  }

  pub Kept-data : (i v : ℕ) → v < 2 ^ 16 → Kept m (record m { data_memory = set m.data_memory i v })
  Kept-data i v small = record {
    well_formed = record {
      state_ok = h.state_ok;
      program_ok = h.program_ok;
      data_ok = IsMemory-set i v h.data_ok small;
      input_ok = h.input_ok;
      output_ok = h.output_ok;
    };
    same = record { pending_same = refl; delay_same = refl; entry_same = refl; cycles_same = refl };
  }

  pub Kept-program : (i v : ℕ) → v < 2 ^ 16 → Kept m (record m { program = set m.program i v })
  Kept-program i v small = record {
    well_formed = record {
      state_ok = h.state_ok;
      program_ok = IsMemory-set i v h.program_ok small;
      data_ok = h.data_ok;
      input_ok = h.input_ok;
      output_ok = h.output_ok;
    };
    same = record { pending_same = refl; delay_same = refl; entry_same = refl; cycles_same = refl };
  }

  pub Kept-output : (i v : ℕ) → v < 2 ^ 16 → Kept m (record m { io_output = set m.io_output i v })
  Kept-output i v small = record {
    well_formed = record {
      state_ok = h.state_ok;
      program_ok = h.program_ok;
      data_ok = h.data_ok;
      input_ok = h.input_ok;
      output_ok = IsMemory-set i v h.output_ok small;
    };
    same = record { pending_same = refl; delay_same = refl; entry_same = refl; cycles_same = refl };
  }
