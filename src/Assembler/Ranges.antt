-- ===== src/Assembler/Ranges.antt =====
-- tools/assembler/tms32010_as.py: the words that `_encode` can return. A test of all of them holds of
-- the word that it does return.
use tms32010_sv.Base.Cases.{given, some_or_none}
use tms32010_sv.Base.{
  ℕ, zero, suc, ◌≤◌, ◌<◌, bit_or, ◌≡◌, ◌⊎◌, inl, inr, refl, arith, Bool, true, false, Bool-cases,
  ◌&&◌, List, [], ◌∷◌, none, some, leb, leb→le, get_elem?, if◌then◌else◌,
}
use tms32010_sv.Base.Int.{ℤ, pos, negsuc}
use tms32010_sv.Base.Text.{Text, is, is_one_of, upper, strip, remove_spaces}
use tms32010_sv.Database.{ok}
use tms32010_sv.Assembler.Source.{
  SourceLine, Reason, next_pointer_out_of_range, direct_address_out_of_range,
}
use tms32010_sv.Assembler.Expression.{Names, without}
use tms32010_sv.Assembler.Encode.{
  Assembler, within, auxiliary_register, next_pointer, encode_indirect, encode_direct,
  indirect_control, encode_data_address,
}
use tms32010_sv.Assembler.Inversion.{not_raised, same_value, bind-ok}

-- A test of all numbers below a bound.
unfoldable pub all_below : ℕ → (ℕ → Bool) → Bool
all_below zero f = true
all_below (suc n) f = elim (f n) [ true ↦ all_below n f | false ↦ false ]

earlier_or_last : (a b : ℕ) → a < suc b → (a < b) ⊎ (a ≡ b)
earlier_or_last a b h = ground arith

both_true : (a b : Bool) → elim a [ true ↦ b | false ↦ false ] ≡ true → (a ≡ true) × (b ≡ true)
both_true true b h = (refl, h)
both_true false b h = cc

pub all_below-each : (n : ℕ) (f : ℕ → Bool) (k : ℕ) → all_below n f ≡ true → k < n → f k ≡ true
unfolding all_below
all_below-each zero f k h below = absurd (omega arith)
all_below-each (suc n) f k h below =
    let parts = both_true (f n) (all_below n f) h in
    elim (earlier_or_last k n below) [
      | inl earlier ↦ all_below-each n f k parts.1 earlier
      | inr same ↦ rw same parts.0
    ]

-- What follows an indirect control, and the controls and the direct addresses.
unfoldable pub all_pointers : ℕ → (ℕ → Bool) → Bool
all_pointers control f =
    f control && (f (bit_or (without control 0x09) 0) && f (bit_or (without control 0x09) 1))

unfoldable pub all_addresses : Text → (ℕ → Bool) → Bool
unfolding all_pointers all_below
all_addresses operation f =
    all_pointers 0x88 f
    && all_pointers 0xA8 f
    && all_pointers 0x98 f
    && all_below (if is operation "SST" then 16 else 128) f

pub within-le :
    (line : SourceLine) (limit : ℕ) (reason : ℤ → Reason) (value : ℤ) {n : ℕ}
    → within line limit reason value ≡ ok n
    → n ≤ limit
unfolding within
within-le line limit reason (pos k) h = elim (Bool-cases (leb k limit)) [
  | inl fits ↦ rw (← (same_value (rw (fits, within) at h))) (leb→le k limit fits)
  | inr beyond ↦ absurd (not_raised (rw (beyond, within) at h))
]
within-le line limit reason (negsuc k) h = absurd (not_raised h)

pub auxiliary_register-le :
    (text : Text) (line : SourceLine) {n : ℕ} → auxiliary_register text line ≡ ok n → n ≤ 1
unfolding auxiliary_register
auxiliary_register-le text line h =
    elim (Bool-cases (is_one_of (upper (strip text)) ("AR0" ∷ "0" ∷ []))) [
      | inl first ↦ rw (← (same_value (rw first at h))) (omega arith)
      | inr other ↦ elim (Bool-cases (is_one_of (upper (strip text)) ("AR1" ∷ "1" ∷ []))) [
        | inl second ↦ rw (← (same_value (rw (other, second) at h))) (omega arith)
        | inr neither ↦ absurd (not_raised (rw (other, neither) at h))
      ]
    ]

pub two_cases : (n : ℕ) → n ≤ 1 → (n ≡ 0) ⊎ (n ≡ 1)
two_cases n h = ground arith

three : (a b c : Bool) → (a && (b && c)) ≡ true → (a ≡ true) × ((b ≡ true) × (c ≡ true))
three a b c h = ground arith

four :
    (a b c d : Bool)
    → ((a && b && c) && d) ≡ true
    → (a ≡ true) × ((b ≡ true) × ((c ≡ true) × (d ≡ true)))
four a b c d h = ground arith

bound : (b : Bool) {n : ℕ} → n ≤ (if b then 15 else 127) → n < (if b then 16 else 128)
bound b h = ground arith

-- What `indirect_controls` holds of a text.
pub data Control (text : Text) : Type 0 where
  keep : indirect_control text ≡ some 0x88 → Control text
  increment : indirect_control text ≡ some 0xA8 → Control text
  decrement : indirect_control text ≡ some 0x98 → Control text
  direct : indirect_control text ≡ none → Control text

pub control_cases : (text : Text) → Control text
control_cases text = elim (Bool-cases (is text "*")) [
  | inl e ↦ keep (rw e refl)
  | inr a ↦ elim (Bool-cases (is text "*+")) [
    | inl e ↦ increment (rw (a, e) refl)
    | inr b ↦ elim (Bool-cases (is text "*-")) [
      | inl e ↦ decrement (rw (a, b, e) refl)
      | inr c ↦ direct (rw (a, b, c) refl)
    ]
  ]
]

module _ (asm : Assembler) (operation : Text) (symbols : Names) (location : ℕ)
    (line : SourceLine) where
  pub next_pointer-le :
      (text : Text) {n : ℕ} → next_pointer asm operation symbols location line text ≡ ok n → n ≤ 1
  unfolding next_pointer
  next_pointer-le text h = elim (Bool-cases (is_one_of (upper (strip text)) ("AR0" ∷ "AR1" ∷ []))) [
    | inl named ↦ auxiliary_register-le (upper (strip text)) line (rw named at h)
    | inr other ↦
        (let (value, _, checked) = bind-ok (rw other at h) in
          within-le line 1 (next_pointer_out_of_range operation) value checked)
  ]

  pub encode_indirect-passes :
      (control : ℕ) (operands : List Text) (next_arp_index : ℕ) (f : ℕ → Bool) {address : ℕ}
      → encode_indirect asm operation symbols location line control operands next_arp_index
        ≡ ok address
      → all_pointers control f ≡ true
      → f address ≡ true
  unfolding encode_indirect all_pointers
  encode_indirect-passes control operands next_arp_index f h all =
      let tests = three (f control) _ _ all in
      elim (some_or_none (get_elem? operands next_arp_index)) [
        | inl last ↦ rw (← (same_value (rw (last, encode_indirect) at h))) tests.0
        | inr (text, given) ↦
            (let (pointer, pointed, end) = bind-ok (rw (given, encode_indirect) at h) in
              elim (two_cases pointer (next_pointer-le text pointed)) [
                | inl low ↦ rw (← (same_value end), low) tests.1.0
                | inr high ↦ rw (← (same_value end), high) tests.1.1
              ])
      ]

  pub encode_direct-le :
      (text : Text) (operands : List Text) (next_arp_index : ℕ) {address : ℕ}
      → encode_direct asm operation symbols location line text operands next_arp_index ≡ ok address
      → address ≤ (if is operation "SST" then 15 else 127)
  unfolding encode_direct
  encode_direct-le text operands next_arp_index h =
      let (_, _, rest) = bind-ok h in
      let (value, _, checked) = bind-ok rest in
      within-le line (if is operation "SST" then 15 else 127)
        (direct_address_out_of_range operation) value checked

  pub encode_data_address-passes :
      (operands : List Text) (next_arp_index : ℕ) (f : ℕ → Bool) {address : ℕ}
      → encode_data_address asm operation symbols location line operands next_arp_index ≡ ok address
      → all_addresses operation f ≡ true
      → f address ≡ true
  unfolding encode_data_address all_addresses
  encode_data_address-passes operands next_arp_index f h all =
      let (first, _, rest) = bind-ok h in
      let tests = four (all_pointers 0x88 f) (all_pointers 0xA8 f) (all_pointers 0x98 f) _ all in
      elim (control_cases (upper (remove_spaces first))) [
        | keep e ↦ encode_indirect-passes 0x88 operands next_arp_index f (rw e at rest) tests.0
        | increment e ↦
            encode_indirect-passes 0xA8 operands next_arp_index f (rw e at rest) tests.1.0
        | decrement e ↦
            encode_indirect-passes 0x98 operands next_arp_index f (rw e at rest) tests.1.1.0
        | direct e ↦ all_below-each (if is operation "SST" then 16 else 128) f _ tests.1.1.1 (
            bound (is operation "SST")
              (encode_direct-le first operands next_arp_index (rw e at rest)))
      ]
