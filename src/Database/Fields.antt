-- ===== src/Database/Fields.antt =====
-- tools/generators/isa_database.py: the dictionary `fields` of `decode_entry`, and the values in it.
use tms32010_sv.Base.Cases.{absent, some_eq}
use Prim.Native.String.{String}
use tms32010_sv.Base.{
  ℕ, ◌≡◌, inl, inr, refl, sym, ap, ◌∙◌, arith, Bool, false, ◌||◌, same_text, Bool-cases, List, [],
  ◌∷◌, Option, none, some, if◌then◌else◌,
}
use tms32010_sv.Base.Int.{ℤ}
use tms32010_sv.Base.Text.{same_text-eq, same_text_self}
use tms32010_sv.Isa.{Operands}
use tms32010_sv.Database.{Field, field_value, is_legal_value, set_field, decode_fields}
use tms32010_sv.Database.Matches.{holds_name}

pub neither : (a b : Bool) → (a || b) ≡ false → (a ≡ false) × (b ≡ false)
neither a b h = ground arith

abbrev pub field_names : List Field → List String
field_names [] = []
field_names (f ∷ rest) = f.name ∷ field_names rest

-- `fields[name]`.
abbrev operand : String → Operands → Option ℤ
operand name [] = none
operand name ((other, value) ∷ rest) =
    let later = operand name rest in if same_text name other then some value else later

operand-set_field :
    (name : String) (value : ℤ) (fields : Operands)
    → operand name (set_field name value fields) ≡ some value
unfolding set_field
operand-set_field name value [] = rw (same_text_self name) refl
operand-set_field name value ((other, old) ∷ rest) = elim (Bool-cases (same_text name other)) [
  | inl same ↦ rw (same, operand, same) refl
  | inr differs ↦ rw (differs, operand, differs) (operand-set_field name value rest)
]

operand-other :
    (name other : String) (value : ℤ) (fields : Operands)
    → same_text name other ≡ false
    → operand name (set_field other value fields) ≡ operand name fields
unfolding set_field
operand-other name other value [] h = rw h refl
operand-other name other value ((key, old) ∷ rest) h = elim (Bool-cases (same_text other key)) [
  | inl same ↦ (let apart = rw (same_text-eq other key same) at h in rw (same, operand, apart) refl)
  | inr differs ↦
      rw (differs, operand)
        (ap (λ (o : Option ℤ). if same_text name key then some old else o)
          (operand-other name other value rest h))
]

pub decode_fields-cons :
    (f : Field) (rest : List Field) (w : ℕ) (fields : Operands) {operands : Operands}
    → decode_fields (f ∷ rest) w fields ≡ some operands
    → decode_fields rest w (set_field f.name (field_value f w) fields) ≡ some operands
unfolding decode_fields
decode_fields-cons f rest w fields h =
    elim (Bool-cases (is_legal_value f.legal_values (field_value f w))) [
      | inr illegal ↦ absurd (absent (rw (illegal, decode_fields) at h))
      | inl legal ↦ rw (legal, decode_fields) at h
    ]

-- A name that no later field has keeps its value.
decode_fields-operand :
    (name : String) (rest : List Field) (w : ℕ) (fields : Operands) {operands : Operands}
    → holds_name name (field_names rest) ≡ false
    → decode_fields rest w fields ≡ some operands
    → operand name operands ≡ operand name fields
unfolding decode_fields
decode_fields-operand name [] w fields new h = ap (operand name) (sym (some_eq h))
decode_fields-operand name (f ∷ rest) w fields new h =
    let (other, later) = neither (same_text name f.name) _ new in
    decode_fields-operand name rest w (set_field f.name (field_value f w) fields) later
      (decode_fields-cons f rest w fields h)
    ∙ operand-other name f.name (field_value f w) fields other

-- The value of a field in the operands, where no later field has its name.
pub decode_fields-value :
    (f : Field) (rest : List Field) (w : ℕ) (fields : Operands) {operands : Operands}
    → holds_name f.name (field_names rest) ≡ false
    → decode_fields (f ∷ rest) w fields ≡ some operands
    → operand f.name operands ≡ some (field_value f w)
decode_fields-value f rest w fields new h =
    decode_fields-operand f.name rest w (set_field f.name (field_value f w) fields) new
      (decode_fields-cons f rest w fields h)
    ∙ operand-set_field f.name (field_value f w) fields
