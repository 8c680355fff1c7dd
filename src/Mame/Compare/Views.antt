-- ===== src/Mame/Compare/Views.antt =====
-- tools/reference/mame_trace.py: when two views have no difference.
use Prim.Native.String.{String}
use tms32010_sv.Base.Cases.{no}
use tms32010_sv.Base.{
  ℕ, ◌≡◌, ◌≢◌, inl, inr, refl, sym, ap, ◌∙◌, Bool, true, false, Bool-cases, List, [], ◌∷◌, ◌==◌,
  ==_iff,
}
use tms32010_sv.Mame.{MameState, ModelStep}
use tms32010_sv.Mame.Records.{View}
use tms32010_sv.Mame.Compare.{Cell, number, truth, cells, same_truth, differences}

-- Two lists of items with the same keys and kinds of values.
pub data Matching : List (String × Cell) → List (String × Cell) → Type 0 where
  none_left : Matching [] []
  numbers :
      {name : String} {xs ys : List (String × Cell)} (a b : ℕ)
      → Matching xs ys
      → Matching ((name, number a) ∷ xs) ((name, number b) ∷ ys)
  truths :
      {name : String} {xs ys : List (String × Cell)} (a b : Bool)
      → Matching xs ys
      → Matching ((name, truth a) ∷ xs) ((name, truth b) ∷ ys)

pub cells-Matching : (v w : View) → Matching (cells v) (cells w)
cells-Matching v w = numbers _ _ (
    numbers _ _ (
      numbers _ _ (
        numbers _ _ (
          numbers _ _ (
            numbers _ _ (
              numbers _ _ (
                numbers _ _ (
                  numbers _ _ (
                    numbers _ _ (
                      truths _ _
                        (truths _ _ (truths _ _ (numbers _ _ (numbers _ _ none_left))))))))))))))

same_truth-eq : (a b : Bool) → same_truth a b ≡ true → a ≡ b
same_truth-eq true b h = sym h
same_truth-eq false false h = refl
same_truth-eq false true h = absurd (no h)

same_truth_self : (a : Bool) → same_truth a a ≡ true
same_truth_self true = refl
same_truth_self false = refl

pub some_left : {A : Type 0} {x : A} {xs : List A} → (x ∷ xs) ≢ []
some_left h = cc

module _ (index : ℕ) (step : ModelStep) (after : MameState) where
  pub no_differences :
      {xs ys : List (String × Cell)}
      → Matching xs ys
      → differences index step after xs ys ≡ []
      → xs ≡ ys
  unfolding differences
  no_differences none_left h = refl
  no_differences (numbers {name = name} {xs = xs} a b more) h = elim (Bool-cases (a == b)) [
    | inr differ ↦ absurd (some_left (rw (differences, differ) at h))
    | inl same ↦ rw ((==_iff a b).0 same, no_differences more (rw (differences, same) at h)) refl
  ]
  no_differences (truths a b more) h = elim (Bool-cases (same_truth a b)) [
    | inr differ ↦ absurd (some_left (rw (differences, differ) at h))
    | inl same ↦ rw (same_truth-eq a b same, no_differences more (rw (differences, same) at h)) refl
  ]

  pub differences_self :
      {xs ys : List (String × Cell)} → Matching xs ys → differences index step after xs xs ≡ []
  unfolding differences
  differences_self none_left = refl
  differences_self (numbers a b more) = rw ((==_iff a a).1 refl) (differences_self more)
  differences_self (truths a b more) = rw (same_truth_self a) (differences_self more)

abbrev number_of : Cell → ℕ
number_of (number n) = n
number_of (truth _) = 0

abbrev truth_of : Cell → Bool
truth_of (truth b) = b
truth_of (number _) = false

-- The view of its items.
view_of : List (String × Cell) → View
view_of
      ((_, pc)
        ∷ (_, acc)
        ∷ (_, p)
        ∷ (_, t)
        ∷ (_, ar0)
        ∷ (_, ar1)
        ∷ (_, s0)
        ∷ (_, s1)
        ∷ (_, s2)
        ∷ (_, s3)
        ∷ (_, ov)
        ∷ (_, ovm)
        ∷ (_, intm)
        ∷ (_, arp)
        ∷ (_, dp)
        ∷ _) =
    record {
      pc = number_of pc;
      acc = number_of acc;
      p = number_of p;
      t = number_of t;
      ar = (number_of ar0, number_of ar1);
      stack = (number_of s0, number_of s1, number_of s2, number_of s3);
      ov = truth_of ov;
      ovm = truth_of ovm;
      intm = truth_of intm;
      arp = number_of arp;
      dp = number_of dp;
    }
view_of _ = record {
  pc = 0;
  acc = 0;
  p = 0;
  t = 0;
  ar = (0, 0);
  stack = (0, 0, 0, 0);
  ov = false;
  ovm = false;
  intm = false;
  arp = 0;
  dp = 0;
}

view_of-cells : (v : View) → view_of (cells v) ≡ v
unfolding view_of
view_of-cells v = refl

pub cells-injective : {v w : View} → cells v ≡ cells w → v ≡ w
cells-injective {v = v} {w = w} h = sym (view_of-cells v) ∙ ap view_of h ∙ view_of-cells w
