-- ===== src/Tests/Assembly.antt =====
-- The assembler on short programs, with a parser that knows numbers and names.
use Prim.Native.String.{String}
use tms32010_sv.Base.{
  ℕ, ◌+◌, ◌-◌, ◌*◌, ◌≤◌, ◌≡◌, ◌≢◌, inl, inr, refl, arith, true, Bool-cases, List, [], ◌∷◌, ◌++◌,
  Option, none, some, leb, ◌&&◌, if◌then◌else◌, done,
}
use tms32010_sv.Base.Int.{ℤ, pos, negsuc}
use tms32010_sv.Base.Text.{Text, codes, same_codes}
use tms32010_sv.Machine.{Model, initial}
use tms32010_sv.Decode.{decode}
use tms32010_sv.Loader.{load_binary}
use tms32010_sv.Step.Reachable.{initial-IsWellFormed}
use tms32010_sv.Database.{ok, failed, decode_word}
use tms32010_sv.Database.Entries.{instructions}
use tms32010_sv.Database.Agreement.{Agrees, decode_word-decode}
use tms32010_sv.Assembler.Source.{SourceLine, Asm, ◌>>=◌, require, split_label, out_of_fuel}
use tms32010_sv.Assembler.Expression.{
  BinaryOperator, floor_div_ℤ, mod_ℤ, apply_binary, Expr, lookup, evaluate,
}
use tms32010_sv.Assembler.Encode.{encode_indirect, Assembler}
use tms32010_sv.Assembler.Instruction.{encode, is_two_word}
use tms32010_sv.Assembler.Passes.{
  ListingRow, Second, AssemblyResult, holds_word, assemble, second_pass, second_start,
}
use tms32010_sv.Assembler.Include.{
  FileSystem, Contents, contents, unreadable, in_stack, expand_file, assemble_file,
}
use tms32010_sv.Assembler.Result.{raw_bytes, listing_text, hex_text}
use tms32010_sv.Assembler.WordCounts.{counts_agree}
use tms32010_sv.Assembler.Labels.{assemble-label}
use tms32010_sv.Assembler.Duplicates.{assemble-duplicate}
use tms32010_sv.Assembler.Termination.{expand_file-ends}
use tms32010_sv.Assembler.Encoding.{shipped, IsDecoded, encode-decode}
use tms32010_sv.Assembler.Placement.{Placed, nothing, then_word, IsImage, assemble-IsImage}
use tms32010_sv.Assembler.LoadBack.{LoadedImage, load_binary-raw_bytes}
use tms32010_sv.Assembler.Memory.{InMemory, assemble-load_binary}

abbrev number_from : ℕ → Text → Option ℕ
number_from value [] = some value
number_from value (c ∷ text) =
    if leb 48 c && leb c 57 then number_from (value * 10 + (c - 48)) text else none

abbrev parse : Text → Option Expr
parse text = elim (number_from 0 text) [
  | some n ↦ some (Expr.constant n)
  | none ↦ some (Expr.name text)
]

abbrev assembler : Assembler
assembler = shipped [] parse

abbrev source_files : Text → Contents
source_files path =
    if same_codes (codes "/main") path
    then contents (codes "start: LACK 5 ; five\n.include \"tail\"\n")
    else if same_codes (codes "/tail") path
    then contents (codes "  B start\nend:\t.word 1, end")
    else unreadable

abbrev files : FileSystem
files = record {
  read = source_files;
  parent = λ path. codes "/";
  resolve = λ root name. some (47 ∷ name);
}

abbrev words_of_result : Asm AssemblyResult → List (ℕ × ℤ)
words_of_result (ok result) = result.output.words
words_of_result (failed e) = []

assembled :
    words_of_result (assemble_file files assembler 2 (codes "/main"))
    ≡ ((0, pos 0x7E05) ∷ (1, pos 0xF900) ∷ (2, pos 0) ∷ (3, pos 1) ∷ (4, pos 3) ∷ [])
unfolding assemble_file instructions ◌>>=◌ require
assembled = refl

-- The files that can be read are the two.
two_files :
    (path text : Text)
    → source_files path ≡ contents text
    → in_stack path (codes "/main" ∷ codes "/tail" ∷ []) ≡ true
unfolding in_stack
two_files path text h = elim (Bool-cases (same_codes (codes "/main") path)) [
  | inl main ↦ rw main refl
  | inr other ↦ elim (Bool-cases (same_codes (codes "/tail") path)) [
    | inl tail ↦ rw (other, tail) refl
    | inr neither ↦ absurd (missing (rw (other, neither) at h))
  ]
]
  where
    missing : unreadable ≢ contents text
    missing e = cc

expand_file-ends_example : expand_file files 3 (codes "/main") [] ≢ failed out_of_fuel
expand_file-ends_example =
    expand_file-ends files (codes "/main" ∷ codes "/tail" ∷ []) two_files (codes "/main")

abbrev line_at : ℕ → String → SourceLine
line_at number text = record { path = codes "a"; number = number; text = codes text }

abbrev first_lines : List SourceLine
first_lines = line_at 1 "start: LACK 5" ∷ line_at 2 " B start" ∷ []

abbrev last_line : SourceLine
last_line = line_at 3 "end: .word 9"

abbrev row : ℕ → ℕ → SourceLine → ListingRow
row address word line = record { address = address; word = pos word; source = line }

abbrev assembled_lines : AssemblyResult
assembled_lines = record {
  output = record {
    words = (0, pos 0x7E05) ∷ (1, pos 0xF900) ∷ (2, pos 0) ∷ (3, pos 9) ∷ [];
    listing =
        row 0 0x7E05 (line_at 1 "start: LACK 5")
        ∷ row 1 0xF900 (line_at 2 " B start")
        ∷ row 2 0 (line_at 2 " B start")
        ∷ row 3 9 last_line
        ∷ [];
  };
  symbols = (codes "END", pos 3) ∷ (codes "START", pos 0) ∷ [];
}

lines_assembled : assemble assembler (first_lines ++ (last_line ∷ [])) ≡ ok assembled_lines
unfolding assemble instructions ◌>>=◌ require
lines_assembled = refl

counted : counts_agree instructions ≡ true
unfolding counts_agree instructions is_two_word
counted = refl

labelled : (split_label last_line).1 ≡ some (codes "END")
unfolding split_label
labelled = refl

assemble-label_example :
    (reached : Second) × (second_pass assembler assembled_lines.symbols first_lines second_start
      ≡ ok reached)
    × (lookup (codes "END") assembled_lines.symbols ≡ some (pos reached.location))
assemble-label_example =
    assemble-label assembler counted first_lines [] last_line (codes "END") assembled_lines
      lines_assembled labelled

labelled_first : (split_label (line_at 1 "start: LACK 5")).1 ≡ some (codes "START")
unfolding split_label
labelled_first = refl

labelled_again : (split_label (line_at 3 "Start:")).1 ≡ some (codes "START")
unfolding split_label
labelled_again = refl

assemble-duplicate_example :
    assemble assembler (
      []
      ++ (line_at 1 "start: LACK 5" ∷ ((line_at 2 " B start" ∷ []) ++ (line_at 3 "Start:" ∷ []))))
    ≢ ok assembled_lines
assemble-duplicate_example =
    assemble-duplicate assembler [] (line_at 2 " B start" ∷ []) [] (line_at 1 "start: LACK 5")
      (line_at 3 "Start:") (codes "START") assembled_lines labelled_first labelled_again

encoded_pointer : encode assembler (codes "MAR") [] 0 last_line (codes "*,AR1") ≡ ok 0x6881
unfolding encode encode_indirect instructions ◌>>=◌ require
encoded_pointer = refl

encoded_star : encode assembler (codes "MAR") [] 0 last_line (codes "*") ≡ ok 0x6888
unfolding encode instructions ◌>>=◌ require
encoded_star = refl

encode-decode_example :
    (0x6881 ≤ 0xFFFF) × IsDecoded assembler (codes "MAR") [] 0 last_line (codes "*,AR1") 0x6881
encode-decode_example =
    encode-decode [] parse (codes "MAR") [] 0 last_line (codes "*,AR1") 0x6881 encoded_pointer

assemble-IsImage_example : IsImage assembled_lines.output
assemble-IsImage_example =
    assemble-IsImage [] parse (first_lines ++ (last_line ∷ [])) assembled_lines lines_assembled

two-Placed : Placed ((4, pos 7) ∷ (2, pos 9) ∷ [])
unfolding holds_word
two-Placed =
    then_word (then_word nothing (omega arith) refl (omega arith)) (omega arith) refl (omega arith)

load_binary-raw_bytes_example :
    (bytes : List ℕ) × (raw_bytes ((4, pos 7) ∷ (2, pos 9) ∷ []) "little" (pos 0) ≡ ok bytes)
    × ((m' : Model) × (load_binary bytes "little" (pos 0) initial ≡ done tt m')
        × LoadedImage ((4, pos 7) ∷ (2, pos 9) ∷ []) (pos 0) initial m')
load_binary-raw_bytes_example =
    load_binary-raw_bytes ((4, pos 7) ∷ (2, pos 9) ∷ []) "little" 0 initial two-Placed (omega arith)
      refl initial-IsWellFormed

assemble-load_binary_example :
    (bytes : List ℕ) × (raw_bytes assembled_lines.output.words "big" (pos 0) ≡ ok bytes)
    × ((m' : Model) × (load_binary bytes "big" (pos 0) initial ≡ done tt m')
        × InMemory assembled_lines.output.listing m')
assemble-load_binary_example =
    assemble-load_binary [] parse (first_lines ++ (last_line ∷ [])) assembled_lines "big" 0 initial
      lines_assembled (omega arith) refl initial-IsWellFormed

decode_word-decode_example : Agrees (decode 0x7E05) (decode_word instructions 0x7E05)
decode_word-decode_example = decode_word-decode 0x7E05 (omega arith)

-- Python rounds a quotient down, and its remainder has the sign of the divisor.
rounded_down : apply_binary BinaryOperator.floor_div (negsuc 6) (pos 2) ≡ some (negsuc 3)
unfolding apply_binary floor_div_ℤ
rounded_down = refl

remainder_left : apply_binary BinaryOperator.modulo (negsuc 6) (pos 2) ≡ some (pos 1)
unfolding apply_binary mod_ℤ
remainder_left = refl

evaluated : evaluate parse (codes "end") ((codes "END", pos 3) ∷ []) 0 last_line ≡ ok (pos 3)
unfolding evaluate
evaluated = refl

listed : listing_text (row 3 9 last_line ∷ []) ≡ codes "003 0009 a:3 end: .word 9\n" ∷ []
unfolding listing_text
listed = refl

hexadecimal : hex_text ((1, pos 0x7E05) ∷ []) (pos 0) ≡ "0000\n" ∷ "7e05\n" ∷ []
unfolding hex_text
hexadecimal = refl
