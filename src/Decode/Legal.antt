-- ===== src/Decode/Legal.antt =====
-- The operand fields that the decoder can produce.
use tms32010_sv.Base.{
  ℕ, ◌/◌, ◌^◌, ◌≤◌, ◌<◌, bit_and, ◌≡◌, ◌⊎◌, inl, inr, refl, arith, Bool, true, false, not, ◌||◌,
  ◌&&◌, Option, none, some, Bool-cases, List, [], ◌∷◌, ◌==◌, if◌then◌else◌,
}
use tms32010_sv.Base.Int.{pos, sub_ℕ, pos_part, neg_part}
use tms32010_sv.Base.Masks.{bit_and-low, bit_and-high, bit_and-bit}
use tms32010_sv.Isa.{Address, MemoryOp, Instruction}
use tms32010_sv.Decode.{
  bad_control, indirect_bit, with_address, field_at_8, lookup_word, fixed, two_word,
  decode_multiplier, decode_logic, decode_accumulator, decode_transfer, decode,
}

-- Seven bits; and an indirect one sets no reserved bit, and does not both count up and count down.
pub record IsAddress (a : Address) : Type 0 where
  pub seven_bits : a.addressing_field < 128
  pub clean : a.indirect ≡ true → bad_control a.addressing_field ≡ false

abbrev pub IsMemoryOp : MemoryOp → Address → Type 0
IsMemoryOp (MemoryOp.add shift) a = shift < 16
IsMemoryOp (MemoryOp.lac shift) a = shift < 16
IsMemoryOp (MemoryOp.sub shift) a = shift < 16
IsMemoryOp (MemoryOp.sach shift) a = (shift ≡ 0) ⊎ (shift ≡ 1) ⊎ (shift ≡ 4)
IsMemoryOp (MemoryOp.lar register) a = register < 2
IsMemoryOp (MemoryOp.sar register) a = register < 2
IsMemoryOp (MemoryOp.in_port port) a = port < 8
IsMemoryOp (MemoryOp.out_port port) a = port < 8
IsMemoryOp MemoryOp.sst a = a.indirect ≡ false → a.addressing_field < 16
IsMemoryOp _ a = Unit

-- The operands of an instruction fit the fields that the instruction set gives them.
abbrev pub IsLegal : Instruction → Type 0
IsLegal (Instruction.memory op a) = IsMemoryOp op a × IsAddress a
IsLegal (Instruction.mar a) = IsAddress a
IsLegal (Instruction.lack constant) = constant < 256
IsLegal (Instruction.larp constant) = constant < 2
IsLegal (Instruction.ldpk constant) = constant < 2
IsLegal (Instruction.lark register constant) = (register < 2) × (constant < 256)
IsLegal (Instruction.mpyk constant) = (pos_part constant ≤ 4095) × (neg_part constant ≤ 4096)
IsLegal _ = Unit

-- Of a decoded word, if there is one.
pub data Legal : Option Instruction → Type 0 where
  rejected : Legal none
  decoded : {i : Instruction} → IsLegal i → Legal (some i)

pub Legal-some : {i : Instruction} → Legal (some i) → IsLegal i
Legal-some (decoded h) = h

either : (b : Bool) {x y : Option Instruction} → Legal x → Legal y → Legal (if b then x else y)
either true hx hy = hx
either false hx hy = hy

seven_bits_lem : (opcode : ℕ) → bit_and opcode 0x7F < 128
seven_bits_lem opcode = omega (arith, bit_and-low 7 opcode)

with_address-Legal :
    (opcode : ℕ) (build : Address → Instruction)
    → ((a : Address)
        → a.addressing_field ≡ bit_and opcode 0x7F
        → a.indirect ≡ indirect_bit opcode
        → IsAddress a
        → IsLegal (build a))
    → Legal (with_address opcode build)
unfolding with_address
with_address-Legal opcode build h =
    elim (Bool-cases (indirect_bit opcode && bad_control (bit_and opcode 0x7F))) [
      | inl bad ↦ rw bad rejected
      | inr good ↦ rw good (
          decoded
            (h _ refl refl (record { seven_bits = seven_bits_lem opcode; clean = ground arith })))
    ]

-- A memory operation with nothing in its opcode but the address.
plain :
    (opcode : ℕ) (op : MemoryOp)
    → ((a : Address) → IsMemoryOp op a)
    → Legal (with_address opcode (Instruction.memory op))
plain opcode op h = with_address-Legal opcode (Instruction.memory op) (λ a _ _ ok. (h a, ok))

low_bit : (a : ℕ) → bit_and a 1 < 2
low_bit a = omega (arith, bit_and-low 1 a)

byte_bound : (a : ℕ) → bit_and a 0xFF < 256
byte_bound a = omega (arith, bit_and-low 8 a)

register_bit : (opcode : ℕ) → field_at_8 opcode 1 < 2
register_bit opcode = low_bit (opcode / 2 ^ 8)

any : {A : Type 0} → A → Unit {0}
any _ = tt

-- Every instruction of a table is legal.
abbrev AllLegal : List (ℕ × Instruction) → Type 0
AllLegal [] = Unit
AllLegal ((_, i) ∷ rest) = IsLegal i × AllLegal rest

lookup_word-Legal :
    (opcode : ℕ) (table : List (ℕ × Instruction))
    → AllLegal table
    → Legal (lookup_word opcode table)
lookup_word-Legal opcode [] h = rejected
lookup_word-Legal opcode ((key, i) ∷ rest) h =
    either (opcode == key) (decoded h.0) (lookup_word-Legal opcode rest h.1)

-- The constant of `MPYK`, sign-extended from 13 bits.
signed_constant :
    (opcode : ℕ)
    → let c = bit_and opcode 0x1FFF in
      IsLegal (Instruction.mpyk (if bit_and c 0x1000 == 0 then pos c else sub_ℕ c 0x2000))
signed_constant opcode =
    ground (arith, bit_and-low 13 opcode, bit_and-bit 12 (bit_and opcode 0x1FFF))

-- The direct form of `SST` has four bits of address.
sst_word :
    (opcode : ℕ)
    → Legal (
        if not (indirect_bit opcode) && not (bit_and (bit_and opcode 0x7F) 0x70 == 0)
        then none
        else with_address opcode (Instruction.memory MemoryOp.sst))
sst_word opcode =
    elim (Bool-cases (not (indirect_bit opcode) && not (bit_and (bit_and opcode 0x7F) 0x70 == 0))) [
      | inl bad ↦ rw bad rejected
      | inr good ↦ rw good (
          with_address-Legal opcode (Instruction.memory MemoryOp.sst) (λ a field flag ok. (
            (λ direct. ground (
              arith,
              bit_and-high 4 (bit_and opcode 0x7F) 7,
              bit_and-low 3 (bit_and opcode 0x7F / 2 ^ 4),
              bit_and-low 7 opcode,
            )),
            ok,
          )))
    ]

decode_multiplier-Legal : (opcode : ℕ) → Legal (decode_multiplier opcode)
unfolding decode_multiplier
decode_multiplier-Legal opcode =
    either (bit_and opcode 0xFF00 == 0x6800)
      (with_address-Legal opcode Instruction.mar (λ a _ _ ok. ok))
      (either (bit_and opcode 0xFF00 == 0x6F00) (plain opcode MemoryOp.ldp any) (
        either (bit_and opcode 0xFF00 == 0x6A00) (plain opcode MemoryOp.lt any) (
          either (bit_and opcode 0xFF00 == 0x6900) (plain opcode MemoryOp.dmov any) (
            either (bit_and opcode 0xFF00 == 0x6C00) (plain opcode MemoryOp.lta any) (
              either (bit_and opcode 0xFF00 == 0x6B00) (plain opcode MemoryOp.ltd any) (
                either (bit_and opcode 0xFF00 == 0x6D00) (plain opcode MemoryOp.mpy any) (
                  either (bit_and opcode 0xE000 == 0x8000) (decoded (signed_constant opcode)) (
                    either (bit_and opcode 0xFFFE == 0x6E00) (decoded (low_bit opcode))
                      (lookup_word-Legal opcode fixed (omega arith))))))))))

decode_logic-Legal : (opcode : ℕ) → Legal (decode_logic opcode)
unfolding decode_logic
decode_logic-Legal opcode =
    either (bit_and opcode 0xFF00 == 0x7800) (plain opcode MemoryOp.xor any) (
      either (bit_and opcode 0xFF00 == 0x7900) (plain opcode MemoryOp.and any) (
        either (bit_and opcode 0xFF00 == 0x7A00) (plain opcode MemoryOp.or any) (
          either (bit_and opcode 0xFF00 == 0x7B00) (plain opcode MemoryOp.lst any) (
            either (bit_and opcode 0xFF00 == 0x7C00) (sst_word opcode) (
              either (bit_and opcode 0xFE00 == 0x7000)
                (decoded (register_bit opcode, byte_bound opcode))
                (either (bit_and opcode 0xFFFE == 0x6880) (decoded (low_bit opcode))
                  (decode_multiplier-Legal opcode)))))))

shift_field : (opcode : ℕ) → field_at_8 opcode 0xF < 16
shift_field opcode = omega (arith, bit_and-low 4 (opcode / 2 ^ 8))

port_field : (opcode : ℕ) → field_at_8 opcode 0x7 < 8
port_field opcode = omega (arith, bit_and-low 3 (opcode / 2 ^ 8))

sach_word :
    (opcode : ℕ)
    → let shift = field_at_8 opcode 0x7 in
      Legal (
        if shift == 0 || shift == 1 || shift == 4
        then with_address opcode (Instruction.memory (MemoryOp.sach shift))
        else none)
sach_word opcode =
    let shift = field_at_8 opcode 0x7 in
    elim (Bool-cases (shift == 0 || shift == 1 || shift == 4)) [
      | inl good ↦ rw good (plain opcode (MemoryOp.sach shift) (λ _. ground arith))
      | inr bad ↦ rw bad rejected
    ]

decode_accumulator-Legal : (opcode : ℕ) → Legal (decode_accumulator opcode)
unfolding decode_accumulator
decode_accumulator-Legal opcode =
    either (bit_and opcode 0xFF00 == 0x7E00) (decoded (byte_bound opcode)) (
      either (bit_and opcode 0xFF00 == 0x5000) (plain opcode MemoryOp.sacl any) (
        either (bit_and opcode 0xF800 == 0x5800) (sach_word opcode) (
          either (bit_and opcode 0xFF00 == 0x6500) (plain opcode MemoryOp.zalh any) (
            either (bit_and opcode 0xFF00 == 0x6600) (plain opcode MemoryOp.zals any) (
              either (bit_and opcode 0xFF00 == 0x6100) (plain opcode MemoryOp.adds any) (
                either (bit_and opcode 0xFF00 == 0x6000) (plain opcode MemoryOp.addh any) (
                  either (bit_and opcode 0xFF00 == 0x6200) (plain opcode MemoryOp.subh any) (
                    either (bit_and opcode 0xFF00 == 0x6300) (plain opcode MemoryOp.subs any) (
                      either (bit_and opcode 0xFF00 == 0x6400) (plain opcode MemoryOp.subc any)
                        (decode_logic-Legal opcode))))))))))

decode_transfer-Legal : (opcode : ℕ) → Legal (decode_transfer opcode)
unfolding decode_transfer
decode_transfer-Legal opcode =
    either (bit_and opcode 0xF800 == 0x4000)
      (plain opcode (MemoryOp.in_port (field_at_8 opcode 0x7)) (λ _. port_field opcode))
      (either (bit_and opcode 0xF800 == 0x4800)
        (plain opcode (MemoryOp.out_port (field_at_8 opcode 0x7)) (λ _. port_field opcode))
        (either (bit_and opcode 0xFF00 == 0x6700) (plain opcode MemoryOp.tblr any) (
          either (bit_and opcode 0xFF00 == 0x7D00) (plain opcode MemoryOp.tblw any) (
            either (bit_and opcode 0xF000 == 0x0000)
              (plain opcode (MemoryOp.add (field_at_8 opcode 0xF)) (λ _. shift_field opcode))
              (either (bit_and opcode 0xF000 == 0x1000)
                (plain opcode (MemoryOp.sub (field_at_8 opcode 0xF)) (λ _. shift_field opcode))
                (either (bit_and opcode 0xF000 == 0x2000)
                  (plain opcode (MemoryOp.lac (field_at_8 opcode 0xF)) (λ _. shift_field opcode))
                  (either (bit_and opcode 0xFE00 == 0x3000)
                    (plain opcode (MemoryOp.sar (field_at_8 opcode 1)) (λ _. register_bit opcode))
                    (either (bit_and opcode 0xFE00 == 0x3800)
                      (plain opcode (MemoryOp.lar (field_at_8 opcode 1)) (λ _. register_bit opcode))
                      (decode_accumulator-Legal opcode)))))))))

first_of_two :
    (o p : Option Instruction)
    → Legal o
    → Legal p
    → Legal (elim o [ some instruction ↦ some instruction | none ↦ p ])
first_of_two (some i) p h g = h
first_of_two none p h g = g

decode-Legal : (opcode : ℕ) → Legal (decode opcode)
unfolding decode
decode-Legal opcode =
    first_of_two (lookup_word opcode two_word) (decode_transfer opcode)
      (lookup_word-Legal opcode two_word (omega arith)) (decode_transfer-Legal opcode)

-- Every instruction that the decoder returns is legal: its shift, register, port and constants fit
-- their fields, and an indirect address sets no reserved bit and asks for at most one count.
pub decode-IsLegal : (opcode : ℕ) {i : Instruction} → decode opcode ≡ some i → IsLegal i
decode-IsLegal opcode e = Legal-some (rw e at (decode-Legal opcode))
