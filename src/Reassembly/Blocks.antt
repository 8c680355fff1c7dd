-- ===== src/Reassembly/Blocks.antt =====
-- The tests of all words and of all branches with their targets, block by block.
mod Block0
mod Block1
mod Block2
mod Block3
mod Block4
mod Block5
mod Block6
mod Block7
mod Targets0
mod Targets1
mod Targets2
mod Targets3
use Prim.Native.String.{String}
use tms32010_sv.Base.Cases.{no, both}
use tms32010_sv.Base.{
  ℕ, zero, suc, ◌+◌, ◌-◌, ◌≤◌, ◌<◌, ◌≡◌, ◌⊎◌, inl, inr, refl, ap, arith, Bool, true, false,
  Bool-cases, ◌&&◌, ◌||◌, List, [], ◌∷◌, Option, same_text, ◌==◌, ==_iff,
}
use tms32010_sv.Base.Text.{Text, same_text-eq}
use tms32010_sv.Assembler.Expression.{Expr, Names}
use tms32010_sv.Assembler.Ranges.{all_below, all_below-each}
use tms32010_sv.Reassembly.Words.{word_comes_back, pair_comes_back, is_listed, pairs}
use Block0.{words_0, words_1}
use Block1.{words_2, words_3}
use Block2.{words_4, words_5}
use Block3.{words_6, words_7}
use Block4.{words_8, words_9}
use Block5.{words_a, words_b}
use Block6.{words_c, words_d}
use Block7.{words_e, words_f}
use Targets0.{pairs_b, pairs_banz, pairs_bgez}
use Targets1.{pairs_bgz, pairs_bioz, pairs_blez}
use Targets2.{pairs_blz, pairs_bnz, pairs_bv}
use Targets3.{pairs_bz, pairs_call}

back : (a k : ℕ) → a ≤ k → a + (k - a) ≡ k
back a k h = omega arith

both_sides : (a b : Bool) → a ≡ true → b ≡ true → (elim a [ true ↦ b | false ↦ false ]) ≡ true
both_sides true b ha hb = hb
both_sides false b ha hb = absurd (no ha)

below_or_from : (k n : ℕ) → (k < n) ⊎ (n ≤ k)
below_or_from k n = ground arith

-- A test of a range is that of its lower part and of its upper part.
all_below-split :
    (m n : ℕ) (f : ℕ → Bool) (k : ℕ)
    → all_below n (λ j. f (m + j)) ≡ true
    → (k < m → f k ≡ true)
    → k < m + n
    → f k ≡ true
all_below-split m n f k upper lower h = elim (below_or_from k m) [
  | inl below ↦ lower below
  | inr above ↦
      rw (back m k above) at (all_below-each n (λ j. f (m + j)) (k - m) upper (omega arith))
]

data Each (P : String → ℕ → Type 0) : List (String × ℕ) → Type 0 where
  none_left : Each P []
  and_next :
      {name : String} {word : ℕ} {rest : List (String × ℕ)}
      → P name word
      → Each P rest
      → Each P ((name, word) ∷ rest)

either : (a b : Bool) → (a || b) ≡ true → (a ≡ true) ⊎ (b ≡ true)
either a b h = ground arith

is_listed-Each :
    {P : String → ℕ → Type 0} {list : List (String × ℕ)} (name : String) (word : ℕ)
    → Each P list
    → is_listed name word list ≡ true
    → P name word
is_listed-Each name word none_left h = absurd (no h)
is_listed-Each {P = P} name word (and_next {name = other} {word = first} {rest = rest} p more) h =
    elim (either (same_text name other && word == first) (is_listed name word rest) h) [
      | inr later ↦ is_listed-Each name word more later
      | inl this ↦
          (let parts = both (same_text name other) (word == first) this in
            rw (same_text-eq name other parts.0, (==_iff word first).0 parts.1) p)
    ]

module _ (documented : List String) (parse : Text → Option Expr) (symbols : Names) (location : ℕ)
    (path : Text) (number : ℕ) where
  -- Every word of 16 bits comes back.
  pub word_comes_back_lem :
      (word : ℕ)
      → word < 0x10000
      → word_comes_back documented parse symbols location path number word ≡ true
  word_comes_back_lem word fits =
      let f = word_comes_back documented parse symbols location path number in
      let block_0 =
        all_below-split 0 0x1000 f word (words_0 documented parse symbols location path number)
          (λ h. absurd (omega (arith, h))) in
      let block_1 =
        all_below-split 0x1000 0x1000 f word (words_1 documented parse symbols location path number)
          block_0 in
      let block_2 =
        all_below-split 0x2000 0x1000 f word (words_2 documented parse symbols location path number)
          block_1 in
      let block_3 =
        all_below-split 0x3000 0x1000 f word (words_3 documented parse symbols location path number)
          block_2 in
      let block_4 =
        all_below-split 0x4000 0x1000 f word (words_4 documented parse symbols location path number)
          block_3 in
      let block_5 =
        all_below-split 0x5000 0x1000 f word (words_5 documented parse symbols location path number)
          block_4 in
      let block_6 =
        all_below-split 0x6000 0x1000 f word (words_6 documented parse symbols location path number)
          block_5 in
      let block_7 =
        all_below-split 0x7000 0x1000 f word (words_7 documented parse symbols location path number)
          block_6 in
      let block_8 =
        all_below-split 0x8000 0x1000 f word (words_8 documented parse symbols location path number)
          block_7 in
      let block_9 =
        all_below-split 0x9000 0x1000 f word (words_9 documented parse symbols location path number)
          block_8 in
      let block_a =
        all_below-split 0xA000 0x1000 f word (words_a documented parse symbols location path number)
          block_9 in
      let block_b =
        all_below-split 0xB000 0x1000 f word (words_b documented parse symbols location path number)
          block_a in
      let block_c =
        all_below-split 0xC000 0x1000 f word (words_c documented parse symbols location path number)
          block_b in
      let block_d =
        all_below-split 0xD000 0x1000 f word (words_d documented parse symbols location path number)
          block_c in
      let block_e =
        all_below-split 0xE000 0x1000 f word (words_e documented parse symbols location path number)
          block_d in
      let block_f =
        all_below-split 0xF000 0x1000 f word (words_f documented parse symbols location path number)
          block_e in
      block_f fits

  -- So do the branches and calls with a target in the program space.
  pub pair_comes_back_lem :
      (name : String) (word target : ℕ)
      → is_listed name word pairs ≡ true
      → target < 0x1000
      → pair_comes_back documented parse symbols location path number name word target ≡ true
  unfolding pairs
  pair_comes_back_lem name word target listed below =
      let each = and_next (pairs_b documented parse symbols location path number) (
        and_next (pairs_banz documented parse symbols location path number) (
          and_next (pairs_bgez documented parse symbols location path number) (
            and_next (pairs_bgz documented parse symbols location path number) (
              and_next (pairs_bioz documented parse symbols location path number) (
                and_next (pairs_blez documented parse symbols location path number) (
                  and_next (pairs_blz documented parse symbols location path number) (
                    and_next (pairs_bnz documented parse symbols location path number) (
                      and_next (pairs_bv documented parse symbols location path number) (
                        and_next (pairs_bz documented parse symbols location path number) (
                          and_next (pairs_call documented parse symbols location path number)
                            (none_left))))))))))) in
      all_below-each 0x1000 _ target
        (is_listed-Each
          {P = λ n w.
            all_below 0x1000 (pair_comes_back documented parse symbols location path number n w)
            ≡ true}
          name word each listed)
        below
