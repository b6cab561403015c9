-- ===== src/Opcode.antt =====
-- src/opcode.h: one row of the opcode tables, and the fields of its type.
pub mod Row
pub mod Mc6809
pub mod Hd6309
pub mod Tables
pub mod Lookup
use asm.Prelude.{ℕ, Bool, not, bit_and, ◌==◌}
use asm.Text.{Bytes}

-- struct opcode
pub record Opcode : Type 0 where
  pub op : Bytes
  pub type : ℕ
  pub immediate : ℕ
  pub direct : ℕ
  pub indexed : ℕ
  pub extended : ℕ

abbrev pub opcode_direct : ℕ
opcode_direct = 1

abbrev pub opcode_indexed : ℕ
opcode_indexed = 2

abbrev pub opcode_extended : ℕ
opcode_extended = 4

abbrev pub opcode_inherent : ℕ
opcode_inherent = 8

abbrev pub opcode_imm8 : ℕ
opcode_imm8 = 16

abbrev pub opcode_imm16 : ℕ
opcode_imm16 = 24

abbrev pub opcode_pair : ℕ
opcode_pair = 32

abbrev pub opcode_stacku : ℕ
opcode_stacku = 40

abbrev pub opcode_stacks : ℕ
opcode_stacks = 48

abbrev pub opcode_rel8 : ℕ
opcode_rel8 = 56

abbrev pub opcode_rel16 : ℕ
opcode_rel16 = 64

abbrev pub opcode_imm32 : ℕ
opcode_imm32 = 72

abbrev pub opcode_imm8_mem : ℕ
opcode_imm8_mem = 80

abbrev pub opcode_reg_mem : ℕ
opcode_reg_mem = 88

abbrev pub opcode_tfm : ℕ
opcode_tfm = 96

-- op->type & OPCODE_EXT_TYPE
unfoldable pub ext_type : Opcode → ℕ
ext_type op = bit_and op.type 120

-- op->type & OPCODE_DIRECT, and so for the other two
unfoldable pub has_mode : ℕ → Opcode → Bool
has_mode mode op = not (bit_and op.type mode == 0)
