-- ===== src/Assembler/Encoding.antt =====
-- tools/assembler/tms32010_as.py: `_encode` with the entries of docs/generated/tms32010_isa.yaml,
-- against the decoder of sim/reference_models/tms32010_model.py.
mod Table
mod Pointer
use tms32010_sv.Base.Cases.{no, both, given, absent, some_eq, some_or_none}
use Prim.Native.String.{String}
use tms32010_sv.Base.{
  ℕ, ◌≤◌, ◌≡◌, ◌≢◌, ◌⊎◌, inl, inr, refl, sym, ◌∙◌, ap, arith, Bool, true, false, not, Bool-cases,
  ◌&&◌, ◌||◌, List, [], ◌∷◌, Option, none, some, leb, leb→le, same_text,
}
use tms32010_sv.Base.Text.{Text, codes, is, same_codes-eq, same_text-eq}
use tms32010_sv.Isa.{Instruction, mnemonic}
use tms32010_sv.Decode.{decode}
use tms32010_sv.Database.{Entry, ok, failed}
use tms32010_sv.Database.Entries.{instructions}
use tms32010_sv.Assembler.Source.{SourceLine, Asm, ◌>>=◌}
use tms32010_sv.Assembler.Expression.{Expr, Names}
use tms32010_sv.Assembler.Encode.{Assembler, entry_named, entry_of, operands_of}
use tms32010_sv.Assembler.Instruction.{Form, form_of, encode_fields, encode}
use tms32010_sv.Assembler.Inversion.{not_raised, same_value, bind-ok}
use tms32010_sv.Assembler.Forms.{all_words, encode_fields-passes}
use Pointer.{is_no_larp, IsPointer, mar-cases}
use Table.{names_match, decodes_to, entry_passes, all_pass, passes}

entry_named-passes :
    (entries : List Entry) (operation : Text) (entry : Entry)
    → all_pass entries ≡ true
    → entry_named entries operation ≡ some entry
    → (entry_passes entry ≡ true) × (operation ≡ codes entry.mnemonic)
unfolding entry_named all_pass
entry_named-passes [] operation entry h e = absurd (absent e)
entry_named-passes (first ∷ rest) operation entry h e =
    let parts = both (entry_passes first) (all_pass rest) h in
    elim (some_or_none (entry_named rest operation)) [
      | inr (later, found) ↦
          entry_named-passes rest operation entry parts.1 (found ∙ rw (found, entry_named) at e)
      | inl none_later ↦ elim (Bool-cases (is operation first.mnemonic)) [
        | inr other ↦ absurd (absent (rw (none_later, entry_named, other) at e))
        | inl this ↦
            rw (← (some_eq (rw (none_later, entry_named, this) at e)))
              (parts.0, same_codes-eq operation (codes first.mnemonic) this)
      ]
    ]

pub entry_of-named :
    (asm : Assembler) (operation : Text) (line : SourceLine) (entry : Entry)
    → entry_of asm operation line ≡ ok entry
    → entry_named asm.entries operation ≡ some entry
unfolding entry_of
entry_of-named asm operation line entry h =
    elim (some_or_none (entry_named asm.entries operation)) [
      | inl fails ↦ absurd (not_raised (rw (fails, entry_of) at h))
      | inr (found, e) ↦ e ∙ ap given (same_value (rw (e, entry_of) at h))
    ]

-- What the tests of the words leave: the mnemonic of the operation, or `LARP` for `MAR`.
data Found (operation : Text) (word : ℕ) : Type 0 where
  same :
      (i : Instruction)
      → decode word ≡ some i
      → operation ≡ codes (mnemonic i)
      → Found operation word
  larp :
      (i : Instruction)
      → decode word ≡ some i
      → operation ≡ codes "MAR"
      → mnemonic i ≡ "LARP"
      → Found operation word

either : (a b c : Bool) → (a || (b && c)) ≡ true → (a ≡ true) ⊎ ((b ≡ true) × (c ≡ true))
either a b c h = ground arith

name_cases :
    (operation : Text) (name : String) (word : ℕ) (i : Instruction)
    → decode word ≡ some i
    → operation ≡ codes name
    → names_match name (mnemonic i) ≡ true
    → Found operation word
name_cases operation name word i found e h =
    elim (either (same_text name (mnemonic i)) (same_text name "MAR")
      (same_text (mnemonic i) "LARP") h) [
        | inl spelled ↦ same i found (e ∙ ap codes (same_text-eq name (mnemonic i) spelled))
        | inr (mar, other) ↦
            larp i found (e ∙ ap codes (same_text-eq name "MAR" mar))
              (same_text-eq (mnemonic i) "LARP" other)
      ]

decodes_to-Found :
    (operation : Text) (name : String) (word : ℕ)
    → operation ≡ codes name
    → decodes_to name word ≡ true
    → (word ≤ 0xFFFF) × Found operation word
decodes_to-Found operation name word e h =
    let parts = both (leb word 0xFFFF) _ h in
    elim (some_or_none (decode word)) [
      | inl unknown ↦ absurd (no (rw unknown at parts.1))
      | inr (i, found) ↦ (
        leb→le word 0xFFFF parts.0,
        name_cases operation name word i found e (rw found at parts.1),
      )
    ]

-- The word of an operation, as the model decodes it: to that operation; or, for `MAR` on `*` with a new
-- pointer, to `LARP` of that pointer.
pub data IsDecoded (asm : Assembler) (operation : Text) (symbols : Names) (location : ℕ)
    (line : SourceLine) (operand_text : Text) (word : ℕ) : Type 0 where
  same_mnemonic :
      (i : Instruction)
      → decode word ≡ some i
      → operation ≡ codes (mnemonic i)
      → IsDecoded asm operation symbols location line operand_text word
  pointer_load :
      (operands : List Text) (pointer : ℕ)
      → operation ≡ codes "MAR"
      → operands_of operand_text line ≡ ok operands
      → IsPointer asm operation symbols location line operands pointer
      → decode word ≡ some (Instruction.larp pointer)
      → IsDecoded asm operation symbols location line operand_text word

mar_opcode :
    (entry : Entry)
    → entry_named instructions (codes "MAR") ≡ some entry
    → entry.opcode.value ≡ 0x6800
unfolding entry_named instructions
mar_opcode entry h =
    sym (ap (λ (o : Option Entry). elim o [ none ↦ 0x6800 | some e ↦ e.opcode.value ]) h)

larp_spelled :
    (word : ℕ) (i : Instruction)
    → decode word ≡ some i
    → mnemonic i ≡ "LARP"
    → is_no_larp word ≡ false
larp_spelled word i found spelled =
    ap
      (λ (o : Option Instruction). elim o [
        | none ↦ true
        | some k ↦ not (same_text (mnemonic k) "LARP")
      ])
      found
    ∙ ap (λ (name : String). not (same_text name "LARP")) spelled

module _ (asm : Assembler) (symbols : Names) (location : ℕ) (line : SourceLine)
    (operand_text : Text) where
  mar-IsDecoded :
      (operands : List Text) (word : ℕ)
      → encode_fields asm
          (codes "MAR")
          symbols
          location
          line
          (form_of (codes "MAR"))
          0x6800
          operand_text
          operands
        ≡ ok word
      → operands_of operand_text line ≡ ok operands
      → is_no_larp word ≡ false
      → IsDecoded asm (codes "MAR") symbols location line operand_text word
  unfolding encode_fields form_of
  mar-IsDecoded operands word h listed loads =
      let (address, addressed, end) = bind-ok h in
      let result = same_value end in
      elim (mar-cases asm (codes "MAR") symbols location line operands addressed) [
        | inl other ↦ absurd (no (sym loads ∙ (rw result at other)))
        | inr (pointer, named, decoded) ↦
            pointer_load operands pointer refl listed named (rw result at decoded)
      ]

  Found-IsDecoded :
      (operation : Text) (entry : Entry) (operands : List Text) (word : ℕ)
      → entry_named instructions operation ≡ some entry
      → operands_of operand_text line ≡ ok operands
      → encode_fields asm operation symbols location line
          (form_of operation)
          entry.opcode.value
          operand_text
          operands
        ≡ ok word
      → Found operation word
      → IsDecoded asm operation symbols location line operand_text word
  Found-IsDecoded operation entry operands word named listed encoded (same i decoded spelled) =
      same_mnemonic i decoded spelled
  Found-IsDecoded operation entry operands word named listed encoded (larp i decoded mar spelled) =
      rw mar (
        mar-IsDecoded operands word (rw (mar, mar_opcode entry (rw mar at named)) at encoded) listed
          (larp_spelled word i decoded spelled))

-- The assembler of the shipped database.
abbrev pub shipped : List String → (Text → Option Expr) → Assembler
shipped documented parse = record { documented = documented; entries = instructions; parse = parse }

-- With the shipped database, the word that `_encode` returns for an operation fits 16 bits, and the
-- model's decoder gives that operation for it; or the operation is `MAR`, its operands are `*` and a
-- new pointer, and the decoder gives `LARP` of that pointer.
pub encode-decode :
    (documented : List String) (parse : Text → Option Expr) (operation : Text) (symbols : Names)
    (location : ℕ) (line : SourceLine) (operand_text : Text) (word : ℕ)
    → encode (shipped documented parse) operation symbols location line operand_text ≡ ok word
    → (word ≤ 0xFFFF)
      × IsDecoded (shipped documented parse) operation symbols location line operand_text word
unfolding encode
encode-decode documented parse operation symbols location line operand_text word h =
    let (_, _, valid) = bind-ok h in
    let (entry, found, rest) = bind-ok valid in
    let (operands, listed, encoded) = bind-ok rest in
    let named = entry_of-named (shipped documented parse) operation line entry found in
    let (passing, spelled) = entry_named-passes instructions operation entry passes named in
    let (fits, decoded) = decodes_to-Found operation entry.mnemonic word spelled (
      encode_fields-passes (shipped documented parse) operation symbols location line
        (form_of operation) entry.opcode.value operand_text operands (decodes_to entry.mnemonic)
        encoded (rw (← spelled) at passing)) in
    (
      fits,
      Found-IsDecoded (shipped documented parse) symbols location line operand_text operation entry
          operands word named listed encoded decoded,
    )
