-- ===== src/Lib.antt =====
-- The software of the TMS32010 repository: its architectural reference model and the tools that decode,
-- list and assemble program words.
--
-- sim/reference_models/tms32010_model.py is an instruction-boundary model of the processor. Its object
-- `Tms32010Model` is the record `Model` (Machine); a method is a function from the object to an
-- outcome, which is a result or an exception together with the object as it then stands
-- (Base/Effects). An exception does not undo what was done before it.
--
--   Isa         the mnemonics of `_decode` with their operands, and the operand entries of the trace
--   Decode      `_decode`; Decode/Legal has the fields of what it returns
--   Machine     the classes, the exceptions, the constructor, the reset and the snapshot
--   Access      Python's indexing of the lists of the object, with its exception
--   Alu         `_add_accumulator`, `_subtract_accumulator`, `_conditional_subtract`,
--               `_modify_counter`, `_accumulator_branch_taken`, `MPY`, `MPYK`, `ABS` and the shifts
--   Interrupt   the latch, `_advance_interrupt_pipeline` and the entry cycle of `step`
--   Retire      the common end of the instructions: clock, pipeline and trace
--   Control     branches, calls, returns and the stack of four words
--   Operand     addressing, bus words, transactions and the status word
--   Perform     the operations on data memory, and the modification of the auxiliary register
--   Step        `step`, which latches a request, decodes, executes and retires; Step/Entry has the runs
--               from a request to its entry
--   Loader      `load_words` and `load_binary`
--   WellFormed  the invariant: register widths, memory sizes and word widths
--
-- tools/generators/isa_database.py decodes and classifies words by a table of entries (Database).
-- Database/Validate has `validate_database` over the parsed document of Database/Shape; of its checks,
-- Database/Opcode has those of the opcodes, with Database/Lossless on what they guarantee (and
-- Database/Fields on the dictionary that `decode_entry` fills), and
-- Database/Matches the last loop over all words, with Database/Validation on collisions alone.
-- Database/Validate/Supported is on what an accepted database decodes. Database/Audit counts the
-- classes of all words. Both loops run over the words below a bound. Database/Entries has the table of
-- docs/generated/tms32010_isa.yaml, and Database/Agreement compares it with `_decode`, word by word,
-- with the help of Database/Narrow. tools/disassembler/tms32010_dis.py prints words by the table
-- (Disassembler).
--
-- tools/assembler/tms32010_as.py is the assembler (Assembler), with Python's texts as lists of code
-- points (Base/Text):
--
--   Source       lines, labels, operands, the errors, and the checks of addresses
--   Expression   `_evaluate` and `_ExpressionEvaluator`
--   Encode       `_validate_instruction_shape`, registers, ports and data addresses
--   Instruction  `_encode`, by the classes of operations that it tells apart
--   Passes       `_assemble` with its two passes, and `_emit`
--   Include      `_expand_file` and `_expand_text`, `assemble_text` and `assemble_file`
--   Result       `AssemblyResult`: bytes, hexadecimal text and listing
--   Monotone, WordCounts, Locations, Labels
--                                  the two passes against each other
--   Duplicates                     a label that is defined twice
--   Inversion                      what a result says of the parts of a chain
--   Ranges, Forms, Encoding        the words of `_encode` against the decoder of the model, with
--                                  Encoding/Pointer on `MAR` and `LARP`
--   Placement, LoadBack, Memory    what is emitted, as bytes and in the memory of the model
--   Termination                    the inclusion of files
--
-- Reassembly brings the two tools together: what `disassemble_source` prints goes through
-- `assemble_text`.
--
--   Literals     the numbers that are printed, and what the parser has to make of them
--   Lines, Statements
--                the words that a line without a label gives
--   Passes, Program
--                the two passes over such lines, and `assemble_text`
--   Words        the line of a word, and the line of a branch with its target
--   Blocks       all of these lines, evaluated in blocks of 4096
--   Printed, Rows
--                the rows of `disassemble_source` as such lines
--   RoundTrip    the two tools one after the other
--
-- tools/reference/mame_trace.py compares a trace of the model with one of an emulator (Mame):
-- Markers has `parse_mame_lines`, Records `parse_model_lines` and the views of the states, Compare
-- `compare_steps`, with Compare/Views on when two views differ. tools/trace/push_pop_capture.py
-- analyses captures of a program bus: PushPop has `analyze_runs`, PushPop/Reader
-- `read_normalized_capture`, with PushPop/Runs and PushPop/Order on what it returns, and
-- PushPop/Report the decisions of `build_report`, with PushPop/Classes on what it counts. Both chain
-- their calls by Database/Chains, as does Dac, the three codes of an output word in
-- tools/trace/hard_drivin_dac_codes.py. Mame/Command has `debugger_trace_command`.
--
-- Tests has the theorems at concrete inputs, and programs that are run.
--
-- Numbers. Registers and memory words are natural numbers, and every mask of the source is written
-- out. Python's integers, where they can be negative, are `ℤ` of Base/Int. A left shift by k is a
-- product with 2 ^ k, a right shift a quotient. `ar` and `stack` are lists of fixed length in the
-- source, and tuples here. The places of `_decode` that raise an exception are all `none`.
--
-- Fuel. No loop of the processor's model needs any: they run over lists. The inclusion of files by the
-- assembler recurses on fuel; Assembler/Termination has how much is enough. The digits of a number in
-- Disassembler/Format take as many rounds as the number itself, which is more than its digits.
--
-- Parameters. `ast.parse` is a function from a text to a tree of Assembler/Expression, or to none where
-- it raises; it is given texts and asked for integers, names and operators. A file system is three
-- functions: a path's contents, its parent and the resolution of a name. For Reassembly the parser is
-- assumed to read the decimal, negative and hexadecimal numbers that the disassembler prints.
-- The operators of Python's integers, as `//` and `%`, are written out in Assembler/Expression by the
-- rules of the language.
-- `json.loads` is a function from a text to a value, or to none where it raises a `JSONDecodeError`.
-- The decimal numbers of captures are a type with its parser and two tests; the rows of a capture are
-- those of `csv.DictReader`. The verdict on an evidence package is an argument of the report.
--
-- Not modelled. `to_json` and the command lines; the reading of files, whose contents are parameters;
-- `parse_int`, since the numbers of the database are parsed; the evidence packages of the captures,
-- which are checks of files, hashes and metadata; the other trace and reference tools and the
-- scripts; and all that is not Python: the RTL, the formal properties and the synthesis scripts. Of
-- the texts, digits that are not ASCII in `int(text, 0)`, and the upper case of characters whose upper
-- case is not ASCII; of the evaluation of expressions, the exceptions that the source does not catch
-- (exhausted memory and recursion). The messages of errors are constructors with their values.
pub mod Access
pub mod Alu
pub mod Assembler
pub mod Base
pub mod Control
pub mod Dac
pub mod Database
pub mod Decode
pub mod Disassembler
pub mod Interrupt
pub mod Isa
pub mod Loader
pub mod Machine
pub mod Mame
pub mod Operand
pub mod Perform
pub mod PushPop
pub mod Reassembly
pub mod Retire
pub mod Step
pub mod Tests
pub mod WellFormed
