-- ===== src/Assembler/Forms.antt =====
-- tools/assembler/tms32010_as.py: a test of all the words of a branch of `_encode` holds of its word.
use tms32010_sv.Base.Cases.{some_or_none}
use tms32010_sv.Base.{
  ℕ, suc, ◌≤◌, ◌<◌, bit_or, ◌≡◌, ◌⊎◌, inl, inr, arith, Bool, true, Bool-cases, ◌&&◌, ◌||◌, List, [],
  ◌∷◌, leb, ◌==◌,
}
use tms32010_sv.Base.Int.{ℤ, pos, negsuc}
use tms32010_sv.Base.Text.{Text, is, is_one_of, upper, strip}
use tms32010_sv.Database.{ok}
use tms32010_sv.Assembler.Source.{
  SourceLine, Asm, Reason, port_out_of_range, constant_out_of_range, shift_out_of_range,
}
use tms32010_sv.Assembler.Expression.{Names}
use tms32010_sv.Assembler.Encode.{Assembler, io_port, int_base_0, without_pa, encode_data_address}
use tms32010_sv.Assembler.Instruction.{
  Form, tail, with_upper, high_shift, product_field, encode_fields,
}
use tms32010_sv.Assembler.Inversion.{not_raised, same_value, bind-ok}
use tms32010_sv.Assembler.Ranges.{
  all_below, all_below-each, all_addresses, within-le, auxiliary_register-le,
  encode_data_address-passes,
}

-- A test of all the words that a form gives.
unfoldable pub all_words : Form → Text → ℕ → (ℕ → Bool) → Bool
unfolding all_below all_addresses
all_words Form.byte_constant operation word f = all_below 256 (λ v. f (bit_or word v))
all_words Form.target operation word f = f word
all_words Form.shifted operation word f =
    all_below 16 (λ s. all_addresses operation (λ a. f (with_upper word s a)))
all_words Form.unshifted operation word f = all_addresses operation (λ a. f (bit_or word a))
all_words Form.high_shifted operation word f =
    all_addresses operation (λ a. f (with_upper word 0 a))
    && (all_addresses operation (λ a. f (with_upper word 1 a))
        && all_addresses operation (λ a. f (with_upper word 4 a)))
all_words Form.port operation word f =
    all_below 8 (λ p. all_addresses operation (λ a. f (with_upper word p a)))
all_words Form.memory operation word f = all_addresses operation (λ a. f (bit_or word a))
all_words Form.register operation word f =
    all_below 2 (λ r. all_addresses operation (λ a. f (with_upper word r a)))
all_words Form.register_constant operation word f =
    all_below 2 (λ r. all_below 256 (λ v. f (with_upper word r v)))
all_words Form.one_bit operation word f = all_below 2 (λ v. f (bit_or word v))
all_words Form.product_constant operation word f = all_below 8192 (λ v. f (bit_or word v))
all_words Form.no_field operation word f = f word

three : (a b c : Bool) → (a && (b && c)) ≡ true → (a ≡ true) × ((b ≡ true) × (c ≡ true))
three a b c h = ground arith

high_shift-cases :
    (line : SourceLine) (reason : ℤ → Reason) (value : ℤ) {n : ℕ}
    → high_shift line reason value ≡ ok n
    → (n ≡ 0) ⊎ ((n ≡ 1) ⊎ (n ≡ 4))
unfolding high_shift
high_shift-cases line reason (pos k) h = elim (Bool-cases (k == 0 || k == 1 || k == 4)) [
  | inl fits ↦ rw (← (same_value (rw (fits, high_shift) at h))) (listed k fits)
  | inr beyond ↦ absurd (not_raised (rw (beyond, high_shift) at h))
]
  where
    listed : (k : ℕ) → (k == 0 || k == 1 || k == 4) ≡ true → (k ≡ 0) ⊎ ((k ≡ 1) ⊎ (k ≡ 4))
    listed k e = ground arith
high_shift-cases line reason (negsuc k) h = absurd (not_raised h)

product_field-lt :
    (line : SourceLine) (reason : ℤ → Reason) (value : ℤ) {n : ℕ}
    → product_field line reason value ≡ ok n
    → n < 8192
unfolding product_field
product_field-lt line reason (pos k) h = elim (Bool-cases (leb k 4095)) [
  | inl fits ↦ rw (← (same_value (rw (fits, product_field) at h))) (omega arith)
  | inr beyond ↦ absurd (not_raised (rw (beyond, product_field) at h))
]
product_field-lt line reason (negsuc k) h = elim (Bool-cases (leb k 4095)) [
  | inl fits ↦ rw (← (same_value (rw (fits, product_field) at h))) (omega arith)
  | inr beyond ↦ absurd (not_raised (rw (beyond, product_field) at h))
]

io_port-lt : (text : Text) (line : SourceLine) {n : ℕ} → io_port text line ≡ ok n → n < 8
unfolding io_port
io_port-lt text line h = elim (some_or_none (int_base_0 (without_pa (upper (strip text))))) [
  | inl fails ↦ absurd (not_raised (rw (fails, io_port) at h))
  | inr (value, e) ↦ omega (arith, within-le line 7 port_out_of_range value (rw (e, io_port) at h))
]

module _ (asm : Assembler) (operation : Text) (symbols : Names) (location : ℕ)
    (line : SourceLine) where
  abbrev fields : Form → ℕ → Text → List Text → Asm ℕ
  fields form word operand_text operands =
      encode_fields asm operation symbols location line form word operand_text operands

  abbrev out_of_range : ℤ → Reason
  out_of_range bad = constant_out_of_range operation bad

  abbrev bad_shift : ℤ → Reason
  bad_shift bad = shift_out_of_range operation bad

  abbrev address_of : List Text → ℕ → Asm ℕ
  address_of operands index = encode_data_address asm operation symbols location line operands index

  -- An upper field below a limit, and an address.
  upper_passes :
      (operands : List Text) (index word limit high : ℕ) (f : ℕ → Bool) {address : ℕ}
      → all_below limit (λ s. all_addresses operation (λ a. f (with_upper word s a))) ≡ true
      → high < limit
      → address_of operands index ≡ ok address
      → f (with_upper word high address) ≡ true
  upper_passes operands index word limit high f all below addressed =
      encode_data_address-passes asm operation symbols location line operands index
        (λ a. f (with_upper word high a)) addressed
        (all_below-each limit (λ s. all_addresses operation (λ a. f (with_upper word s a))) high all
          below)

  below : {n : ℕ} (limit : ℕ) → n ≤ limit → n < suc limit
  below limit h = omega arith

  pub encode_fields-passes :
      (form : Form) (word : ℕ) (operand_text : Text) (operands : List Text) (f : ℕ → Bool)
      {result : ℕ}
      → fields form word operand_text operands ≡ ok result
      → all_words form operation word f ≡ true
      → f result ≡ true
  unfolding encode_fields all_words
  encode_fields-passes Form.byte_constant word operand_text operands f h all =
      let (value, checked, end) = bind-ok h in
      let (raw, _, in_range) = bind-ok checked in
      rw (← (same_value end)) (
        all_below-each 256 (λ v. f (bit_or word v)) value all
          (below 0xFF (within-le line 0xFF out_of_range raw in_range)))
  encode_fields-passes Form.target word operand_text operands f h all =
      let (value, _, end) = bind-ok h in rw (← (same_value end)) all
  encode_fields-passes Form.shifted word operand_text operands f h all =
      let (shift, checked, rest) = bind-ok h in
      let (raw, _, in_range) = bind-ok checked in
      let (address, addressed, end) = bind-ok rest in
      rw (← (same_value end)) (
        upper_passes operands 2 word 16 shift f all
          (below 15 (within-le line 15 bad_shift raw in_range)) addressed)
  encode_fields-passes Form.unshifted word operand_text operands f h all =
      let (_, _, rest) = bind-ok h in
      let (address, addressed, end) = bind-ok rest in
      rw (← (same_value end)) (
        encode_data_address-passes asm operation symbols location line operands 2
          (λ a. f (bit_or word a)) addressed all)
  encode_fields-passes Form.high_shifted word operand_text operands f h all =
      let (shift, checked, rest) = bind-ok h in
      let (raw, _, in_range) = bind-ok checked in
      let (address, addressed, end) = bind-ok rest in
      let tests = three _ _ _ all in
      rw (← (same_value end)) (
        encode_data_address-passes asm operation symbols location line operands 2
          (λ a. f (with_upper word shift a)) addressed
          (elim (high_shift-cases line bad_shift raw in_range) [
            | inl e ↦ rw e tests.0
            | inr (inl e) ↦ rw e tests.1.0
            | inr (inr e) ↦ rw e tests.1.1
          ]))
  encode_fields-passes Form.port word operand_text operands f h all =
      let (text, _, rest) = bind-ok h in
      let (number, port, more) = bind-ok rest in
      let (address, addressed, end) = bind-ok more in
      rw (← (same_value end))
        (upper_passes operands 2 word 8 number f all (io_port-lt text line port) addressed)
  encode_fields-passes Form.memory word operand_text operands f h all =
      let (address, addressed, end) = bind-ok h in
      rw (← (same_value end)) (
        encode_data_address-passes asm operation symbols location line operands 1
          (λ a. f (bit_or word a)) addressed all)
  encode_fields-passes Form.register word operand_text operands f h all =
      let (text, _, rest) = bind-ok h in
      let (number, named, more) = bind-ok rest in
      let (address, addressed, end) = bind-ok more in
      rw (← (same_value end)) (
        upper_passes (tail operands) 1 word 2 number f all
          (below 1 (auxiliary_register-le text line named)) addressed)
  encode_fields-passes Form.register_constant word operand_text operands f h all =
      let (text, _, rest) = bind-ok h in
      let (number, named, more) = bind-ok rest in
      let (second, _, again) = bind-ok more in
      let (value, checked, end) = bind-ok again in
      let (raw, _, in_range) = bind-ok checked in
      rw (← (same_value end)) (
        all_below-each 256 (λ v. f (with_upper word number v)) value
          (all_below-each 2 (λ r. all_below 256 (λ v. f (with_upper word r v))) number all
            (below 1 (auxiliary_register-le text line named)))
          (below 0xFF (within-le line 0xFF out_of_range raw in_range)))
  encode_fields-passes Form.one_bit word operand_text operands f h all =
      elim (Bool-cases
        (is operation "LARP" && is_one_of (upper (strip operand_text)) ("AR0" ∷ "AR1" ∷ []))) [
          | inl named ↦
              (let (value, register, end) = bind-ok (rw named at h) in
                rw (← (same_value end)) (
                  all_below-each 2 (λ v. f (bit_or word v)) value all
                    (below 1 (auxiliary_register-le operand_text line register))))
          | inr other ↦
              (let (value, checked, end) = bind-ok (rw other at h) in
                let (raw, _, in_range) = bind-ok checked in
                rw (← (same_value end)) (
                  all_below-each 2 (λ v. f (bit_or word v)) value all
                    (below 1 (within-le line 1 out_of_range raw in_range))))
        ]
  encode_fields-passes Form.product_constant word operand_text operands f h all =
      let (field, checked, end) = bind-ok h in
      let (raw, _, in_range) = bind-ok checked in
      rw (← (same_value end)) (
        all_below-each 8192 (λ v. f (bit_or word v)) field all
          (product_field-lt line out_of_range raw in_range))
  encode_fields-passes Form.no_field word operand_text operands f h all = rw (← (same_value h)) all
