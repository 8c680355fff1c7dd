-- ===== src/Assembler/Encoding/Pointer.antt =====
-- tools/assembler/tms32010_as.py: `MAR` on `*` with a new pointer, whose word is that of `LARP`.
use tms32010_sv.Base.{
  ℕ, ◌≤◌, ◌<◌, if◌then◌else◌, bit_or, ◌≡◌, ◌⊎◌, inl, inr, refl, sym, ap, ◌∙◌, arith, Bool, true,
  not, List, none, some, same_text, get_elem?,
}
use tms32010_sv.Base.Cases.{given, some_or_none}
use tms32010_sv.Base.Text.{Text, is, upper, remove_spaces}
use tms32010_sv.Isa.{Instruction, mnemonic}
use tms32010_sv.Decode.{decode}
use tms32010_sv.Database.{ok}
use tms32010_sv.Assembler.Source.{SourceLine}
use tms32010_sv.Assembler.Expression.{Names, without}
use tms32010_sv.Assembler.Encode.{
  Assembler, operand_at, next_pointer, indirect_control, encode_indirect, encode_data_address,
}
use tms32010_sv.Assembler.Inversion.{not_raised, same_value, bind-ok}
use tms32010_sv.Assembler.Ranges.{
  all_below, all_below-each, all_pointers, two_cases, keep, increment, decrement, direct,
  control_cases, next_pointer-le, encode_indirect-passes, encode_direct-le,
}

-- Whether the model decodes the word to another instruction than `LARP`, or to none.
abbrev pub is_no_larp : ℕ → Bool
is_no_larp word = elim (decode word) [ none ↦ true | some i ↦ not (same_text (mnemonic i) "LARP") ]

abbrev mar_word : ℕ → ℕ
mar_word address = bit_or 0x6800 address

abbrev mar_test : ℕ → Bool
mar_test address = is_no_larp (mar_word address)

kept : mar_test 0x88 ≡ true
unfolding decode mnemonic
kept = refl

incremented : all_pointers 0xA8 mar_test ≡ true
unfolding all_pointers decode mnemonic
incremented = refl

decremented : all_pointers 0x98 mar_test ≡ true
unfolding all_pointers decode mnemonic
decremented = refl

directly : all_below 128 mar_test ≡ true
unfolding all_below decode mnemonic
directly = refl

operand_at-some :
    (operands : List Text) (index : ℕ) (line : SourceLine) {text : Text}
    → operand_at operands index line ≡ ok text
    → get_elem? operands index ≡ some text
unfolding operand_at
operand_at-some operands index line h = elim (some_or_none (get_elem? operands index)) [
  | inl beyond ↦ absurd (not_raised (rw (beyond, operand_at) at h))
  | inr (text, found) ↦ found ∙ ap given (same_value (rw (found, operand_at) at h))
]

bound : (b : Bool) {n : ℕ} → n ≤ (if b then 15 else 127) → n < 128
bound b h = ground arith

module _ (asm : Assembler) (operation : Text) (symbols : Names) (location : ℕ)
    (line : SourceLine) where
  -- The first two operands are `*` (with spaces) and a text that gives the pointer.
  pub record IsPointer (operands : List Text) (pointer : ℕ) : Type 0 where
    pub star : Text
    pub next : Text
    pub first : get_elem? operands 0 ≡ some star
    pub second : get_elem? operands 1 ≡ some next
    pub plain : indirect_control (upper (remove_spaces star)) ≡ some 0x88
    pub pointed : next_pointer asm operation symbols location line next ≡ ok pointer

  star_cases :
      (operands : List Text) {star : Text} {address : ℕ}
      → get_elem? operands 0 ≡ some star
      → indirect_control (upper (remove_spaces star)) ≡ some 0x88
      → encode_indirect asm operation symbols location line 0x88 operands 1 ≡ ok address
      → (mar_test address ≡ true)
        ⊎ ((pointer : ℕ) × IsPointer operands pointer
            × (pointer ≤ 1)
            × (address ≡ bit_or (without 0x88 0x09) pointer))
  unfolding encode_indirect
  star_cases operands {star} first plain h = elim (some_or_none (get_elem? operands 1)) [
    | inl last ↦ inl (rw (← (same_value (rw (last, encode_indirect) at h))) kept)
    | inr (next, second) ↦
        (let (pointer, pointed, end) = bind-ok (rw (second, encode_indirect) at h) in
          inr (
            pointer,
            record {
              star = star;
              next = next;
              first = first;
              second = second;
              plain = plain;
              pointed = pointed;
            },
            next_pointer-le asm operation symbols location line next pointed,
            sym (same_value end),
          ))
  ]

  address_cases :
      (operands : List Text) {address : ℕ}
      → encode_data_address asm operation symbols location line operands 1 ≡ ok address
      → (mar_test address ≡ true)
        ⊎ ((pointer : ℕ) × IsPointer operands pointer
            × (pointer ≤ 1)
            × (address ≡ bit_or (without 0x88 0x09) pointer))
  unfolding encode_data_address
  address_cases operands h =
      let (star, read, rest) = bind-ok h in
      elim (control_cases (upper (remove_spaces star))) [
        | keep e ↦ star_cases operands (operand_at-some operands 0 line read) e (rw e at rest)
        | increment e ↦ inl (
            encode_indirect-passes asm operation symbols location line 0xA8 operands 1 mar_test
              (rw e at rest) incremented)
        | decrement e ↦ inl (
            encode_indirect-passes asm operation symbols location line 0x98 operands 1 mar_test
              (rw e at rest) decremented)
        | direct e ↦ inl (
            all_below-each 128 mar_test _ directly (
              bound (is operation "SST") (
                encode_direct-le asm operation symbols location line star operands 1
                  (rw e at rest))))
      ]

  larp_word :
      (pointer : ℕ)
      → pointer ≤ 1
      → decode (mar_word (bit_or (without 0x88 0x09) pointer)) ≡ some (Instruction.larp pointer)
  unfolding decode
  larp_word pointer h = elim (two_cases pointer h) [ inl e ↦ rw e refl | inr e ↦ rw e refl ]

  -- The word of `MAR` is no `LARP`, or it is the one of a new pointer.
  pub mar-cases :
      (operands : List Text) {address : ℕ}
      → encode_data_address asm operation symbols location line operands 1 ≡ ok address
      → (is_no_larp (bit_or 0x6800 address) ≡ true)
        ⊎ ((pointer : ℕ) × IsPointer operands pointer
            × (decode (bit_or 0x6800 address) ≡ some (Instruction.larp pointer)))
  mar-cases operands h = elim (address_cases operands h) [
    | inl other ↦ inl other
    | inr (pointer, named, fits, e) ↦ inr (pointer, named, rw e (larp_word pointer fits))
  ]
