-- ===== src/Loader.antt =====
-- sim/reference_models/tms32010_model.py: `load_words` and `load_binary`, which write the program
-- memory word by word and stop at the first word that does not fit. Words and the origin are Python
-- integers. What `read_bytes` returns is a list of bytes, a parameter.
pub mod Laws
pub mod Keeps
use Prim.Native.String.{String}
use tms32010_sv.Base.{
  ℕ, suc, ◌+◌, ◌*◌, ◌%◌, List, [], ◌∷◌, length, ltb, leb, ◌==◌, same_text, ◌||◌, not, Bool, true,
  false, if◌then◌else◌, Method, done, raise, require, ◌>>=◌, ◌>>◌, pure, raised, Outcome,
}
use tms32010_sv.Base.Int.{ℤ, pos, negsuc}
use tms32010_sv.Machine.{Model, program_words, Fault}
use tms32010_sv.Access.{write_program}

-- The messages of the `ValueError`s.
pub data LoadError : Type 0 where
  origin_out_of_range : ℤ → LoadError
  image_exceeds : LoadError
  word_out_of_range : ℕ → ℤ → LoadError
  bad_byteorder : LoadError
  odd_byte_count : LoadError
  assignment_failed : Fault → LoadError

abbrev pub L : Type 0 → Type 0
L A = Method Model LoadError A

-- The assignment `self.program[address] = word`.
unfoldable pub assign : ℕ → ℕ → L (Unit {0})
assign address word m = elim (write_program address word m) [
  | done a t ↦ done a t
  | raised e t ↦ raised (assignment_failed e) t
]

-- The body of the loop of `load_words`, at `address` = origin + offset.
unfoldable pub load_word : ℕ → ℤ → L (Unit {0})
unfolding assign
load_word address (negsuc n) = do
  require (ltb address program_words) image_exceeds
  raise (word_out_of_range address (negsuc n))
load_word address (pos n) = do
  require (ltb address program_words) image_exceeds
  require (leb n 0xFFFF) (word_out_of_range address (pos n))
  assign address n

unfoldable pub load_from : List ℤ → ℕ → L (Unit {0})
load_from [] address = pure tt
load_from (word ∷ words) address = do load_word address word; load_from words (suc address)

unfoldable pub load_words : List ℤ → ℤ → L (Unit {0})
load_words words (negsuc n) = raise (origin_out_of_range (negsuc n))
load_words words (pos origin) = do
  require (ltb origin program_words) (origin_out_of_range (pos origin))
  load_from words origin

-- `int.from_bytes` on each pair of bytes.
unfoldable pub words_of : Bool → List ℕ → List ℤ
words_of big [] = []
words_of big (a ∷ []) = []
words_of big (a ∷ b ∷ rest) = pos (if big then a * 256 + b else b * 256 + a) ∷ words_of big rest

unfoldable pub load_binary : List ℕ → String → ℤ → L (Unit {0})
load_binary content byteorder origin = do
  require (same_text byteorder "big" || same_text byteorder "little") bad_byteorder
  require (length content % 2 == 0) odd_byte_count
  load_words (words_of (same_text byteorder "big") content) origin
