-- ===== src/Instr/Address.antt =====
-- instr_address and instr_imm8_mem: direct and extended addressing.
pub mod Reach
use asm.Prelude.{
  ℕ, ◌/◌, ◌%◌, Bool, true, false, not, ◌&&◌, ◌||◌, Option, none, some, List, [], ◌∷◌, leb, ltb,
  ◌==◌, if◌then◌else◌, length,
}
use asm.Prelude.Int.{ℤ, pos, negsuc, uint8, uint16, uint32, int32}
use asm.Error.{syntax}
use asm.Node.{
  Node, undef, node, int, array, node_array_of, of_list, Attr, attr_none, attr_8bit, attr_16bit,
  same_attr,
}
use asm.Opcode.{Opcode, has_mode, opcode_direct, opcode_indexed, opcode_extended}
use asm.Eval.{eval_int}
use asm.Section.{Asm, section_emit_op, section_emit_uint8, section_emit_uint16}
use asm.Instr.{complain}
use asm.Instr.Indexed.{instr_indexed, emit_imm8}

-- attr and addr after the cast of the argument; without a value they are those of a forward
-- reference, 16 bits and the program counter
abbrev pub address_attr : Node → Attr
address_attr (node (int v) attr) = attr
address_attr _ = attr_16bit

abbrev pub address_value : ℤ → Node → ℕ
address_value pc (node (int v) attr) = uint16 v
address_value pc _ = uint32 pc

abbrev pub uses_direct : Opcode → Attr → ℕ → ℕ → Bool
uses_direct op attr dp addr =
    has_mode opcode_direct op
    && (same_attr attr attr_8bit || (same_attr attr attr_none && dp == addr / 256))

abbrev pub uses_extended : Opcode → Attr → Bool
uses_extended op attr =
    has_mode opcode_extended op && (same_attr attr attr_16bit || same_attr attr attr_none)

module _ (float_to_int : ℕ → ℤ) where
  abbrev pub address_one : Opcode → Node → Node → ℤ → Asm → Asm
  address_one op args arg imm8_val a =
      let attr = address_attr arg in
      let addr = address_value a.cur.pc arg in
      if uses_direct op attr a.cur.dp addr
      then section_emit_uint8 (addr % 256) (emit_imm8 imm8_val (section_emit_op op.direct a))
      else (if uses_extended op attr
          then section_emit_uint16 (addr % 65536)
              (emit_imm8 imm8_val (section_emit_op op.extended a))
          else instr_indexed float_to_int op args imm8_val a)

  abbrev pub address_list : Opcode → Node → List Node → ℤ → Asm → Asm
  address_list op args (node (array l) attr ∷ []) imm8_val a =
      instr_indexed float_to_int op args imm8_val a
  address_list op args (arg ∷ []) imm8_val a =
      address_one op args (eval_int float_to_int arg) imm8_val a
  address_list op args (arg0 ∷ arg1 ∷ []) imm8_val a =
      if has_mode opcode_indexed op
      then instr_indexed float_to_int op args imm8_val a
      else complain syntax "invalid number of arguments" a
  address_list op args _ imm8_val a = complain syntax "invalid number of arguments" a

  unfoldable pub instr_address : Opcode → Node → ℤ → Asm → Asm
  instr_address op args imm8_val a = address_list op args (node_array_of args) imm8_val a

  -- (uint8_t)imm8_val
  abbrev imm8_of : Node → ℤ
  imm8_of (node (int v) attr) = pos (uint8 v)
  imm8_of _ = pos 0

  abbrev imm8_list : Opcode → List Node → Asm → Asm
  imm8_list op [] a = complain syntax "invalid number of arguments" a
  imm8_list op (imm8 ∷ rest) a =
      let nargs = length rest in
      if ltb nargs 1 || ltb 2 nargs || (not (has_mode opcode_indexed op) && ltb 1 nargs)
      then complain syntax "invalid number of arguments" a
      else instr_address op (node (array (of_list rest)) attr_none) (imm8_of imm8) a

  unfoldable pub instr_imm8_mem : Opcode → Node → Asm → Asm
  instr_imm8_mem op args a = imm8_list op (node_array_of args) a
