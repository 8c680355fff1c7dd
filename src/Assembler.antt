-- ===== src/Assembler.antt =====
-- tools/assembler/tms32010_as.py: the modules of the assembler, of its passes and of their proofs.
pub mod Source
pub mod Expression
pub mod Encode
pub mod Instruction
pub mod Passes
pub mod Include
pub mod Result
pub mod Inversion
pub mod Monotone
pub mod WordCounts
pub mod Locations
pub mod Labels
pub mod Termination
pub mod Ranges
pub mod Forms
pub mod Encoding
pub mod Placement
pub mod LoadBack
pub mod Memory
pub mod Duplicates
