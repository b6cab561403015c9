-- ===== src/Assemble.antt =====
-- src/assemble.c: the assembly of lines.
pub mod Cond
pub mod World
pub mod Label
pub mod Instruction
pub mod Macro
pub mod Line
pub mod Program
pub mod Excluded
pub mod Labels
pub mod Captured
pub mod Passes
pub mod Dispatch
pub mod Export
pub mod Steps
