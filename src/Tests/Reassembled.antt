-- ===== src/Tests/Reassembled.antt =====
-- The disassembler's output through the assembler, with a parser that reads numbers only.
use Prim.Native.String.{String}
use tms32010_sv.Base.{ℕ, ◌^◌, ◌≡◌, refl, arith, List, [], ◌∷◌, none, AllBelow, cons, nil}
use tms32010_sv.Base.Text.{codes}
use tms32010_sv.Database.{ok, decode_word, decode_entry}
use tms32010_sv.Disassembler.Format.{decimal, hex}
use tms32010_sv.Database.Entries.{instructions}
use tms32010_sv.Disassembler.{source_rows, disassemble_word}
use tms32010_sv.Assembler.Passes.{AssemblyResult}
use tms32010_sv.Assembler.Include.{FileSystem, unreadable, assemble_text}
use tms32010_sv.Assembler.Encoding.{shipped}
use tms32010_sv.Reassembly.Literals.{IsReader, literal}
use tms32010_sv.Reassembly.Passes.{numbered}
use tms32010_sv.Reassembly.Rows.{output_text}
use tms32010_sv.Reassembly.RoundTrip.{assemble_text-source_rows}

abbrev no_files : FileSystem
no_files = record { read = λ path. unreadable; parent = λ path. []; resolve = λ root name. none }

reads_numbers : IsReader literal
reads_numbers = record { reads = λ text tree h. h }

-- `LACK 5`, `B 0x001`, a word that starts no pair, and a word that is no instruction.
abbrev few_words : List ℕ
few_words = 0x7E05 ∷ 0xF900 ∷ 0x0001 ∷ 0xF900 ∷ 0xFFFF ∷ []

few_are_words : AllBelow (2 ^ 16) few_words
few_are_words =
    cons (omega arith)
      (cons (omega arith) (cons (omega arith) (cons (omega arith) (cons (omega arith) nil))))

assemble_text-source_rows_example :
    (rows : List String) × (source_rows instructions few_words ≡ ok rows)
    × ((result : AssemblyResult) × (assemble_text no_files
            (shipped [] literal)
            1
            (output_text rows)
            (codes "listing")
            []
          ≡ ok result)
        × (result.output.words ≡ numbered 0 few_words)
        × (result.symbols ≡ []))
assemble_text-source_rows_example =
    assemble_text-source_rows [] literal no_files 1 (codes "listing") [] few_words reads_numbers
      few_are_words (omega arith)

rows_of_few :
    source_rows instructions few_words
    ≡ ok ("LACK 5\n" ∷ "B 0x001\n" ∷ ".word 0xf900\n" ∷ ".word 0xffff\n" ∷ [])
unfolding source_rows disassemble_word instructions decode_word decode_entry decimal hex
rows_of_few = refl
