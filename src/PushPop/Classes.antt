-- ===== src/PushPop/Classes.antt =====
-- tools/trace/push_pop_capture.py: lists of classes with one value.
use tms32010_sv.Base.Cases.{no}
use tms32010_sv.Base.{
  ℕ, zero, suc, ◌≡◌, ◌≢◌, inl, inr, refl, ap, arith, Bool, true, false, ◌||◌, Bool-cases, List, [],
  ◌∷◌, ◌==◌, ==_iff, length, replicate,
}
use tms32010_sv.PushPop.{
  IntervalClass, h1_idle, h2_repeat, h3_advance, unclassified, same_class, is_known,
}
use tms32010_sv.PushPop.Report.{holds_class, distinct_classes, one_value, first_known}

same_class-eq : (a b : IntervalClass) → same_class a b ≡ true → a ≡ b
same_class-eq h1_idle h1_idle h = refl
same_class-eq h2_repeat h2_repeat h = refl
same_class-eq h3_advance h3_advance h = refl
same_class-eq unclassified unclassified h = refl
same_class-eq h1_idle h2_repeat h = absurd (no h)
same_class-eq h1_idle h3_advance h = absurd (no h)
same_class-eq h1_idle unclassified h = absurd (no h)
same_class-eq h2_repeat h1_idle h = absurd (no h)
same_class-eq h2_repeat h3_advance h = absurd (no h)
same_class-eq h2_repeat unclassified h = absurd (no h)
same_class-eq h3_advance h1_idle h = absurd (no h)
same_class-eq h3_advance h2_repeat h = absurd (no h)
same_class-eq h3_advance unclassified h = absurd (no h)
same_class-eq unclassified h1_idle h = absurd (no h)
same_class-eq unclassified h2_repeat h = absurd (no h)
same_class-eq unclassified h3_advance h = absurd (no h)

same_class_self : (a : IntervalClass) → same_class a a ≡ true
same_class_self h1_idle = refl
same_class_self h2_repeat = refl
same_class_self h3_advance = refl
same_class_self unclassified = refl

some_left : {A : Type 0} {x : A} {xs : List A} → (x ∷ xs) ≢ []
some_left h = cc

distinct_classes-empty : (values : List IntervalClass) → distinct_classes values ≡ [] → values ≡ []
unfolding distinct_classes
distinct_classes-empty [] h = refl
distinct_classes-empty (value ∷ values) h =
    elim (Bool-cases (holds_class value (distinct_classes values))) [
      | inr fresh ↦ absurd (some_left (rw (distinct_classes, fresh) at h))
      | inl used ↦ (let empty = rw (distinct_classes, used) at h in absurd (no (rw empty at used)))
    ]

module _ {A : Type 0} where
  cons_eq : {x y : A} {xs ys : List A} → (x ∷ xs) ≡ (y ∷ ys) → (x ≡ y) × (xs ≡ ys)
  cons_eq h = (cc, cc)

  one_element : (xs : List A) → (length xs == 1) ≡ true → (x : A) × (xs ≡ x ∷ [])
  one_element [] h = absurd (no h)
  one_element (x ∷ []) h = (x, refl)
  one_element (x ∷ y ∷ xs) h = absurd (omega (arith, (==_iff (suc (suc (length xs))) 1).0 h))

either_false : (a : Bool) → (a || false) ≡ true → a ≡ true
either_false a h = ground arith

-- A list with one value repeats it.
distinct_classes-one :
    (values : List IntervalClass) (value : IntervalClass)
    → distinct_classes values ≡ value ∷ []
    → values ≡ replicate (length values) value
unfolding distinct_classes
distinct_classes-one [] value h = refl
distinct_classes-one (first ∷ values) value h =
    elim (Bool-cases (holds_class first (distinct_classes values))) [
      | inl used ↦
          (let rest = rw (distinct_classes, used) at h in
            rw (same_class-eq first value (either_false _ (rw rest at used))) (
              ap (λ (vs : List IntervalClass). value ∷ vs)
                (distinct_classes-one values value rest)))
      | inr fresh ↦
          (let (same, none_more) = cons_eq (rw (distinct_classes, fresh) at h) in
            rw (same, distinct_classes-empty values none_more) refl)
    ]

distinct_classes-replicate :
    (n : ℕ) (value : IntervalClass) → distinct_classes (replicate (suc n) value) ≡ value ∷ []
unfolding distinct_classes
distinct_classes-replicate zero value = refl
distinct_classes-replicate (suc n) value =
    rw (distinct_classes-replicate n value, same_class_self value) refl

-- The values are one known hypothesis, as often as there are runs.
abbrev pub AllAgree : List IntervalClass → ℕ → Type 0
AllAgree values n = (value : IntervalClass) × (is_known value ≡ true) × (values ≡ replicate n value)

pub agreed :
    (values : List IntervalClass)
    → one_value values ≡ true
    → first_known values ≡ true
    → AllAgree values (length values)
agreed [] one known = absurd (no known)
agreed (first ∷ values) one known =
    let (value, single) = one_element (distinct_classes (first ∷ values)) one in
    let same = distinct_classes-one (first ∷ values) value single in
    (value, rw (cons_eq same).0 at known, same)

pub agreed_back :
    (values : List IntervalClass) (n : ℕ)
    → AllAgree values (suc n)
    → (one_value values ≡ true) × (first_known values ≡ true)
agreed_back values n (value, known, same) =
    rw (same, distinct_classes-replicate n value) (refl, known)
