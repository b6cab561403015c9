-- ===== src/Tests/Fixtures.antt =====
-- The states and instructions that the examples share: code of one section, assembled from $4000 on.
use asm.Prelude.{ℕ, ◌≤◌, refl, some, [], ◌∷◌, arith}
use asm.Prelude.Int.{pos}
use asm.Text.{Bytes}
use asm.Error.{no_errors}
use asm.Register.{isa_6809}
use asm.Section.{Span, Section, Asm}
use asm.Section.Emitted.{Fits}
use asm.Opcode.{Opcode}

abbrev pub first_span : Span
first_span = record {
  sequence = 0;
  org = pos 0x4000;
  put = 0x4000;
  allocated = 128;
  data_bytes = 0x12 ∷ 0x12 ∷ [];
}

abbrev pub code_section : Section
code_section = record {
  closed = [];
  span = some first_span;
  pass = 0;
  line_number = 3;
  pc = pos 0x4002;
  put = 0x4002;
  dp = 0x40;
  last_pc = pos 0x4000;
  last_put = 0x4000;
}

abbrev pub midway : Asm
midway = record {
  cur = code_section;
  span_sequence = 1;
  errors = no_errors;
  isa = isa_6809;
  setdp = 0;
}

abbrev pub Fits-midway : (n : ℕ) → n ≤ 256 → Fits n midway
Fits-midway n h = record { at = 0x4002; is_pc = refl; below = omega arith }

-- the row of an instruction, by its type and its four opcodes
abbrev pub row : Bytes → ℕ → ℕ → ℕ → ℕ → ℕ → Opcode
row name type immediate direct indexed extended = record {
  op = name;
  type = type;
  immediate = immediate;
  direct = direct;
  indexed = indexed;
  extended = extended;
}

abbrev pub lda : Opcode
lda = row (0x6c ∷ 0x64 ∷ 0x61 ∷ []) 0x17 0x86 0x96 0xa6 0xb6

abbrev pub bra : Opcode
bra = row (0x62 ∷ 0x72 ∷ 0x61 ∷ []) 56 0x20 0 0 0

abbrev pub lbne : Opcode
lbne = row (0x6c ∷ 0x62 ∷ 0x6e ∷ 0x65 ∷ []) 64 0x1026 0 0 0

abbrev pub pshs : Opcode
pshs = row (0x70 ∷ 0x73 ∷ 0x68 ∷ 0x73 ∷ []) 48 0x34 0 0 0

abbrev pub tfr : Opcode
tfr = row (0x74 ∷ 0x66 ∷ 0x72 ∷ []) 32 0x1f 0 0 0
