-- ===== src/PushPop/Runs.antt =====
-- tools/trace/push_pop_capture.py: the dictionary of the runs that `read_normalized_capture` fills.
use tms32010_sv.Base.{
  ◌≡◌, inl, inr, refl, Bool, true, false, Bool-cases, List, [], ◌∷◌, ◌++◌, Option, none, some,
  if◌then◌else◌,
}
use tms32010_sv.Base.Text.{Text, same_codes, same_codes-eq, same_codes_self}
use tms32010_sv.Database.{ok, failed}
use tms32010_sv.Database.Chains.{returns, not_raised}
use tms32010_sv.PushPop.Reader.{ReadError, last_of, add_sample}

pub passed :
    {test : Bool} (e : ReadError) {u : Unit {0}}
    → (if test then failed e else ok tt) ≡ returns u
    → test ≡ false
passed {test = true} e h = absurd (not_raised h)
passed {test = false} e h = refl

-- The samples of a run with one more.
abbrev pub with_sample : {A : Type 0} → Option (List A) → A → List A
with_sample none sample = sample ∷ []
with_sample (some samples) sample = samples ++ (sample ∷ [])

pub last_of-add_sample_self :
    {A : Type 0} (run : Text) (sample : A) (runs : List (Text × List A))
    → last_of run (add_sample run sample runs) ≡ some (with_sample (last_of run runs) sample)
unfolding last_of add_sample
last_of-add_sample_self run sample [] = rw (last_of, same_codes_self run) refl
last_of-add_sample_self run sample ((other, samples) ∷ rest) =
    elim (Bool-cases (same_codes other run)) [
      | inl same ↦ rw (same, last_of, same) refl
      | inr differ ↦ rw (differ, last_of, differ) (last_of-add_sample_self run sample rest)
    ]

pub last_of-add_sample_other :
    {A : Type 0} (run key : Text) (sample : A) (runs : List (Text × List A))
    → same_codes run key ≡ false
    → last_of key (add_sample run sample runs) ≡ last_of key runs
unfolding last_of add_sample
last_of-add_sample_other run key sample [] h = rw (last_of, h) refl
last_of-add_sample_other run key sample ((other, samples) ∷ rest) h =
    elim (Bool-cases (same_codes other run)) [
      | inl same ↦
          (let apart : same_codes other key ≡ false = rw (same_codes-eq other run same) h in
            rw (same, last_of, apart) refl)
      | inr differ ↦ elim (Bool-cases (same_codes other key)) [
        | inl here ↦ rw (differ, last_of, here) refl
        | inr there ↦ rw (differ, last_of, there) (last_of-add_sample_other run key sample rest h)
      ]
    ]
