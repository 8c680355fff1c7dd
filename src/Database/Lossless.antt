-- ===== src/Database/Lossless.antt =====
-- tools/generators/isa_database.py: `decode_entry` of an entry whose opcode `validate_database` accepts.
use tms32010_sv.Base.Cases.{absent, some_eq}
use Prim.Native.String.{String}
use tms32010_sv.Base.{
  ℕ, ◌-◌, ◌*◌, ◌/◌, ◌^◌, ◌≤◌, ◌<◌, bit_and, bit_or, ◌≡◌, ◌≢◌, ◌⊎◌, inl, inr, refl, sym, ap, ◌∙◌,
  arith, Bool, true, false, ◌&&◌, Bool-cases, List, [], ◌∷◌, Option, none, some, ◌==◌, ==_iff, leb,
  leb→le, if◌then◌else◌,
}
use native.Mathlib.Nat.{one-le-pow}
use tms32010_sv.Base.Int.{ℤ, pos, sub_ℕ}
use tms32010_sv.Base.Masks.{bit_and-zero, bit_and-low, bit_and-high}
use tms32010_sv.Base.Covers.{bit_and-bit_or, bit_or-rest}
use tms32010_sv.Isa.{Operands}
use tms32010_sv.Database.{
  Field, Entry, Checked, ok, failed, field_raw, field_value, matches_masked, constraints_hold,
  decode_fields, decode_entry,
}
use tms32010_sv.Database.Matches.{holds_name}
use tms32010_sv.Database.Validate.{has_duplicates}
use tms32010_sv.Database.Fields.{neither, field_names, decode_fields-cons, decode_fields-value}
use tms32010_sv.Database.Opcode.{
  OpcodeError, field_mask, field_error, validate_fields, beyond_mask, free_bits, validate_opcode,
  fits_16_bits,
}

-- Two words with the same bits under a mask.
abbrev Same : ℕ → ℕ → ℕ → Type 0
Same v w mask = bit_and v mask ≡ bit_and w mask

Same-both : (v w a b : ℕ) → Same v w a → Same v w b → Same v w (bit_or a b)
Same-both v w a b ha hb = rw (bit_and-bit_or v a b, bit_and-bit_or w a b, ha, hb) refl

raw-lt : (f : Field) (w : ℕ) → field_raw f w < 2 ^ f.width
raw-lt f w = omega (arith, bit_and-low f.width (w / 2 ^ f.lsb), one-le-pow f.width 2)

abbrev signed_value : Bool → ℕ → ℕ → ℤ
signed_value negative raw width = if negative then sub_ℕ raw width else pos raw

-- A raw value is determined by its signed value.
signed_value-injective :
    (a b : Bool) (m n bound : ℕ)
    → m < bound
    → n < bound
    → signed_value a m bound ≡ signed_value b n bound
    → m ≡ n
signed_value-injective true true m n bound hm hn h = ground arith
signed_value-injective true false m n bound hm hn h = ground arith
signed_value-injective false true m n bound hm hn h = ground arith
signed_value-injective false false m n bound hm hn h = ground arith

field_value-Same :
    (f : Field) (v w : ℕ) → field_value f v ≡ field_value f w → Same v w (field_mask f)
field_value-Same f v w h =
    let raw =
      signed_value-injective _ _ (field_raw f v) (field_raw f w) (2 ^ f.width) (raw-lt f v)
        (raw-lt f w) h in
    bit_and-high f.lsb v (2 ^ f.width - 1)
    ∙ ap (λ (x : ℕ). x * 2 ^ f.lsb) raw
    ∙ sym (bit_and-high f.lsb w (2 ^ f.width - 1))

abbrev raises : {A : Type 0} → OpcodeError → Checked OpcodeError A
raises e = failed e

abbrev returns : {A : Type 0} → A → Checked OpcodeError A
returns a = ok a

not_raised : {A : Type 0} {e : OpcodeError} {a : A} → raises e ≢ returns a
not_raised h = cc

same_value : {A : Type 0} {a b : A} → returns a ≡ returns b → a ≡ b
same_value h = cc

error_cases : (o : Option OpcodeError) → (o ≡ none) ⊎ ((e : OpcodeError) × (o ≡ some e))
error_cases none = inl refl
error_cases (some e) = inr (e, refl)

result_cases :
    (r : Checked OpcodeError ℕ) → ((n : ℕ) × (r ≡ ok n)) ⊎ ((e : OpcodeError) × (r ≡ raises e))
result_cases (ok n) = inl (n, refl)
result_cases (failed e) = inr (e, refl)

-- The bits that the fields cover are the same, if the operands are.
decode_fields-Same :
    (mnemonic : String) (mask : ℕ) (rest : List Field) (covered : ℕ) (v w : ℕ)
    (left other : Operands) {all : ℕ} {operands : Operands}
    → validate_fields mnemonic mask rest covered ≡ ok all
    → has_duplicates (field_names rest) ≡ false
    → decode_fields rest v left ≡ some operands
    → decode_fields rest w other ≡ some operands
    → Same v w covered
    → Same v w all
unfolding validate_fields
decode_fields-Same mnemonic mask [] covered v w left other valid names hv hw same =
    rw (← (same_value valid)) same
decode_fields-Same mnemonic mask (f ∷ rest) covered v w left other valid names hv hw same =
    elim (error_cases (field_error mnemonic mask f covered)) [
      | inr (e, wrong) ↦ absurd (not_raised (rw (wrong, validate_fields) at valid))
      | inl right ↦
          (let (new, distinct) = neither (holds_name f.name (field_names rest)) _ names in
            let value = some_eq (
              sym (decode_fields-value f rest v left new hv)
              ∙ decode_fields-value f rest w other new hw) in
            decode_fields-Same mnemonic mask rest (bit_or covered (field_mask f)) v w _ _
              (rw (right, validate_fields) at valid) distinct (decode_fields-cons f rest v left hv)
              (decode_fields-cons f rest w other hw)
              (Same-both v w covered (field_mask f) same (field_value-Same f v w value)))
    ]

decode_entry-matches :
    (entry : Entry) (w : ℕ) {operands : Operands}
    → decode_entry entry w ≡ some operands
    → (matches_masked entry.opcode w ≡ true)
      × (decode_fields entry.variable_fields w [] ≡ some operands)
unfolding decode_entry
decode_entry-matches entry w h =
    elim (Bool-cases (matches_masked entry.opcode w && constraints_hold entry.constraints w)) [
      | inr other ↦ absurd (absent (rw other at h))
      | inl holds ↦ (both _ _ holds, rw holds at h)
    ]
  where
    both : (a b : Bool) → (a && b) ≡ true → a ≡ true
    both a b e = ground arith

-- What the checks say of an opcode: its mask fits, and the fields cover the other bits.
validate_opcode-covers :
    (entry : Entry)
    → validate_opcode entry ≡ ok tt
    → (entry.opcode.mask ≤ 0xFFFF)
      × (validate_fields entry.mnemonic entry.opcode.mask entry.variable_fields 0
          ≡ ok (free_bits entry.opcode.mask))
unfolding validate_opcode
validate_opcode-covers entry h = elim (Bool-cases (fits_16_bits entry.opcode)) [
  | inr beyond ↦ absurd (not_raised (rw beyond at h))
  | inl fits ↦ elim (Bool-cases (beyond_mask entry.opcode.value entry.opcode.mask == 0)) [
    | inr unmasked ↦ absurd (not_raised (rw (fits, unmasked) at h))
    | inl masked ↦
        elim (result_cases
          (validate_fields entry.mnemonic entry.opcode.mask entry.variable_fields 0)) [
            | inr (e, wrong) ↦ absurd (not_raised (rw (fits, masked, wrong) at h))
            | inl (covered, right) ↦ elim (Bool-cases (covered == free_bits entry.opcode.mask)) [
              | inr other ↦ absurd (not_raised (rw (fits, masked, right, other) at h))
              | inl all ↦ (
                leb→le entry.opcode.mask 0xFFFF (second (leb entry.opcode.value 0xFFFF) _ fits),
                right ∙ ap returns ((==_iff _ _).0 all),
              )
            ]
          ]
  ]
]
  where
    second : (a b : Bool) → (a && b) ≡ true → b ≡ true
    second a b e = ground arith

word_mask : (w : ℕ) → w ≤ 0xFFFF → bit_and w 0xFFFF ≡ w
word_mask w h = omega (arith, bit_and-low 16 w)

-- The mask of an opcode, and the bits that it lacks.
cover_word : (mask : ℕ) → mask ≤ 0xFFFF → bit_or mask (free_bits mask) ≡ 0xFFFF
cover_word mask h = rw (word_mask mask h) (bit_or-rest 16 mask (omega arith))

-- Decoding loses nothing: if `validate_database` accepts the opcode of an entry, the names of its fields
-- are distinct, which no check of `validate_database` says, and `decode_entry` gives the same operands
-- for two words of 16 bits, they are the same word.
pub decode_entry-injective :
    (entry : Entry) (v w : ℕ) (operands : Operands)
    → validate_opcode entry ≡ ok tt
    → has_duplicates (field_names entry.variable_fields) ≡ false
    → v ≤ 0xFFFF
    → w ≤ 0xFFFF
    → decode_entry entry v ≡ some operands
    → decode_entry entry w ≡ some operands
    → v ≡ w
decode_entry-injective entry v w operands valid distinct hv hw ev ew =
    let (fits, covered) = validate_opcode-covers entry valid in
    let (match_v, fields_v) = decode_entry-matches entry v ev in
    let (match_w, fields_w) = decode_entry-matches entry w ew in
    let fixed = (==_iff _ _).0 match_v ∙ sym ((==_iff _ _).0 match_w) in
    let varied =
      decode_fields-Same entry.mnemonic entry.opcode.mask entry.variable_fields 0 v w [] [] covered
        distinct fields_v fields_w (bit_and-zero v ∙ sym (bit_and-zero w)) in
    let whole =
      rw (cover_word entry.opcode.mask fits) at
        (Same-both v w entry.opcode.mask (free_bits entry.opcode.mask) fixed varied) in
    sym (word_mask v hv) ∙ whole ∙ word_mask w hw
