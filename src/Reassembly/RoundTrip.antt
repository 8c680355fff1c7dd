-- ===== src/Reassembly/RoundTrip.antt =====
-- tools/disassembler/tms32010_dis.py and tools/assembler/tms32010_as.py: `disassemble_source`, then
-- `assemble_text`.
use Prim.Native.String.{String}
use tms32010_sv.Base.{ℕ, ◌^◌, ◌≤◌, ◌≡◌, refl, true, List, [], Option, length, AllBelow}
use tms32010_sv.Base.Text.{Text}
use tms32010_sv.Database.{ok}
use tms32010_sv.Database.Entries.{instructions}
use tms32010_sv.Disassembler.{source_rows}
use tms32010_sv.Assembler.Source.{program_words}
use tms32010_sv.Assembler.Expression.{Expr}
use tms32010_sv.Assembler.Instruction.{is_two_word}
use tms32010_sv.Assembler.Passes.{AssemblyResult}
use tms32010_sv.Assembler.Include.{FileSystem, assemble_text}
use tms32010_sv.Assembler.Encoding.{shipped}
use tms32010_sv.Assembler.WordCounts.{counts_agree}
use tms32010_sv.Reassembly.Literals.{IsReader}
use tms32010_sv.Reassembly.Passes.{numbered}
use tms32010_sv.Reassembly.Program.{assemble_text-Program}
use tms32010_sv.Reassembly.Rows.{Listing, output_text, source_rows-Listing}

counted : counts_agree instructions ≡ true
unfolding counts_agree instructions is_two_word
counted = refl

-- With the shipped database and a parser that reads numbers as Python does, `disassemble_source` of any
-- words of 16 bits that fit the program space succeeds, and `assemble_text` of its output succeeds: it
-- places the same words in the same order from address 0 on, and defines no symbol.
pub assemble_text-source_rows :
    (documented : List String) (parse : Text → Option Expr) (fs : FileSystem) (fuel : ℕ)
    (name root : Text) (words : List ℕ)
    → IsReader parse
    → AllBelow (2 ^ 16) words
    → length words ≤ program_words
    → (rows : List String) × (source_rows instructions words ≡ ok rows)
      × ((result : AssemblyResult) × (assemble_text fs
              (shipped documented parse)
              fuel
              (output_text rows)
              name
              root
            ≡ ok result)
          × (result.output.words ≡ numbered 0 words)
          × (result.symbols ≡ []))
unfolding Listing
assemble_text-source_rows documented parse fs fuel name root words reader fit short =
    let (rows, texts, printed, program, same) =
      source_rows-Listing documented parse reader words fit in
    (
      rows,
      printed,
      rw same (
          assemble_text-Program (shipped documented parse) counted fs fuel name root program short),
    )
