-- ===== src/Opcode/Row.antt =====
-- src/opcode.c: how the rows of the tables are written. Fields that a row does not name are 0.
use asm.Prelude.{ℕ, String}
use asm.Text.{bytes}
use asm.Opcode.{Opcode}

-- MEM, that is DIRECT|INDEXED|EXTENDED
abbrev pub opcode_mem : ℕ
opcode_mem = 7

abbrev pub opcode_row : String → ℕ → ℕ → ℕ → ℕ → ℕ → Opcode
opcode_row name type immediate direct indexed extended = record {
  op = bytes name;
  type = type;
  immediate = immediate;
  direct = direct;
  indexed = indexed;
  extended = extended;
}

-- A row with the field `immediate` only.
abbrev pub one_form : String → ℕ → ℕ → Opcode
one_form name type immediate = opcode_row name type immediate 0 0 0

-- A row of type MEM.
abbrev pub in_memory : String → ℕ → ℕ → ℕ → Opcode
in_memory name direct indexed extended = opcode_row name opcode_mem 0 direct indexed extended
