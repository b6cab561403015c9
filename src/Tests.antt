-- ===== src/Tests.antt =====
-- Concrete inputs on which the theorems apply.
mod Fixtures
mod Worlds
mod Symbols
mod Programs
mod Emission
mod Encoders
mod Sorting
mod Files
mod Lines
mod Runs
mod Cells
mod Printing
