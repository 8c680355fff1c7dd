-- ===== src/Reassembly.antt =====
-- tools/disassembler/tms32010_dis.py and tools/assembler/tms32010_as.py: what the one prints, the other
-- assembles.
pub mod Literals
pub mod Lines
pub mod Words
pub mod Blocks
pub mod Statements
pub mod Passes
pub mod Printed
pub mod Rows
pub mod Program
pub mod RoundTrip
