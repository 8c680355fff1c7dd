-- ===== src/Mame/Compare.antt =====
-- tools/reference/mame_trace.py: `compare_steps`.
pub mod Views
pub mod Laws
use Prim.Native.String.{String}
use tms32010_sv.Base.{
  ℕ, suc, ◌+◌, Bool, true, false, not, ◌&&◌, List, [], ◌∷◌, ◌++◌, ltb, ◌==◌, if◌then◌else◌, length,
}
use tms32010_sv.Database.{Checked, ok, failed}
use tms32010_sv.Database.Chains.{◌>>=◌}
use tms32010_sv.Mame.{
  MameState, ModelStep, TraceError, missing_sentinel, trailing_rows, index_error,
}
use tms32010_sv.Mame.Records.{View, model_state_view, mame_state_view}

-- The value of a key of a view.
pub data Cell : Type 0 where
  number : ℕ → Cell
  truth : Bool → Cell

-- What the message of a mismatch shows: the index of the step, the step and the state, and for a
-- value its key and the two values.
pub data Mismatch : Type 0 where
  pre_pc : ℕ → ModelStep → MameState → Mismatch
  post_value : ℕ → String → ModelStep → Cell → MameState → Cell → Mismatch

-- The items of a view, in the order of its dictionary.
abbrev pub cells : View → List (String × Cell)
cells view =
    ("pc", number view.pc)
    ∷ ("acc", number view.acc)
    ∷ ("p", number view.p)
    ∷ ("t", number view.t)
    ∷ ("ar[0]", number view.ar.0)
    ∷ ("ar[1]", number view.ar.1)
    ∷ ("stack[0]", number view.stack.0)
    ∷ ("stack[1]", number view.stack.1)
    ∷ ("stack[2]", number view.stack.2)
    ∷ ("stack[3]", number view.stack.3)
    ∷ ("status.ov", truth view.ov)
    ∷ ("status.ovm", truth view.ovm)
    ∷ ("status.intm", truth view.intm)
    ∷ ("status.arp", number view.arp)
    ∷ ("status.dp", number view.dp)
    ∷ []

abbrev same_truth : Bool → Bool → Bool
same_truth true b = b
same_truth false b = not b

-- `==` of two values: a truth value is the number 1 or 0.
abbrev pub same_cell : Cell → Cell → Bool
same_cell (number a) (number b) = a == b
same_cell (truth a) (truth b) = same_truth a b
same_cell (number a) (truth b) = a == (if b then 1 else 0)
same_cell (truth a) (number b) = (if a then 1 else 0) == b

-- The mismatches of the values of two views, which have the same keys in the same order.
unfoldable pub differences :
    ℕ → ModelStep → MameState → List (String × Cell) → List (String × Cell) → List Mismatch
differences index step after ((name, model) ∷ others) ((_, mame) ∷ rest) =
    let later = differences index step after others rest in
    if same_cell model mame then later else post_value index name step model after mame ∷ later
differences index step after _ _ = []

-- `if step.pc != before.pc`.
abbrev pub pc_difference : ℕ → ModelStep → MameState → List Mismatch
pc_difference index step before = if step.pc == before.pc then [] else pre_pc index step before ∷ []

-- The loop, from an index on: the states from that index on are `mame_states[index:]`.
unfoldable pub compare_from :
    ℕ → List ModelStep → List MameState → Checked TraceError (List Mismatch)
unfolding model_state_view differences
compare_from index [] states = ok []
compare_from index (step ∷ steps) (before ∷ after ∷ rest) = model_state_view step >>= λ view.
    compare_from (suc index) steps (after ∷ rest) >>= λ later. ok (
      pc_difference index step before
      ++ differences index step after (cells view) (cells (mame_state_view after))
      ++ later)
compare_from index (step ∷ steps) _ = failed index_error

-- The class `ComparisonResult`.
pub record ComparisonResult : Type 0 where
  pub compared_steps : ℕ
  pub mame_rows : ℕ
  pub mismatches : List Mismatch

-- `compare_steps`.
unfoldable pub compare_steps :
    List ModelStep → List MameState → Bool → Checked TraceError ComparisonResult
unfolding compare_from
compare_steps steps states allow_trailing =
    if ltb (length states) (length steps + 1)
    then failed (missing_sentinel (length states) (length steps))
    else if not allow_trailing && ltb (length steps + 1) (length states)
    then failed (trailing_rows (length states) (length steps + 1))
    else (compare_from 0 steps states >>= λ mismatches. ok record {
      compared_steps = length steps;
      mame_rows = length states;
      mismatches = mismatches;
    })
