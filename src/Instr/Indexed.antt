-- ===== src/Instr/Indexed.antt =====
-- instr_indexed2 and instr_indexed. The table of modes is in Modes, which this module passes on.
mod Modes
pub mod Decode
pub mod Forms
pub mod Fewest
pub mod Offset
pub mod Relative
unfoldable pub use Modes.*
use asm.Prelude.{
  ℕ, ◌+◌, ◌*◌, ◌/◌, ◌%◌, bit_and, bit_or, Bool, true, false, not, ◌&&◌, ◌||◌, Option, none, some,
  List, [], ◌∷◌, ltb, ◌==◌, if◌then◌else◌,
}
use asm.Prelude.Int.{
  ℤ, pos, negsuc, ◌+ℤ◌, ◌-ℤ◌, int32, int64, uint8, uint16, leb_ℤ, ltb_ℤ, eqb_ℤ, wrap,
}
use asm.Error.{syntax, illegal}
use asm.Register.{
  RegId, reg_a, reg_b, reg_d, reg_e, reg_f, reg_w, reg_x, reg_y, reg_u, reg_s, reg_pc, reg_pcr,
}
use asm.Node.{
  Node, undef, node, Content, empty, int, float, reg, string, array, node_array_of, node_attr_of,
  node_type_of, NodeType, type_empty, type_int, type_undef, Attr, attr_undef, attr_none, attr_5bit,
  attr_8bit, attr_16bit, attr_postinc, attr_postinc2, attr_predec, attr_predec2, same_attr, to_list,
}
use asm.Opcode.{Opcode}
use asm.Eval.{eval_int}
use asm.Section.{Asm, section_emit_op, section_emit_pad, section_emit_uint8, section_emit_uint16}
use asm.Instr.{complain}
use asm.Instr.Rel.{to_rel16}

-- idx_type, idx_select and pcr of the index register
pub record Index : Type 0 where
  pub idx_type : IdxType
  pub idx_select : ℕ
  pub pcr : Bool

abbrev index : IdxType → ℕ → Bool → Index
index idx select pcr = record { idx_type = idx; idx_select = select; pcr = pcr }

unfoldable pub index_of : RegId → Option Index
index_of reg_x = some (index idx_xyus 0x00 false)
index_of reg_y = some (index idx_xyus 0x20 false)
index_of reg_u = some (index idx_xyus 0x40 false)
index_of reg_s = some (index idx_xyus 0x60 false)
index_of reg_pc = some (index idx_pcr 0 false)
index_of reg_pcr = some (index idx_pcr 0 true)
index_of reg_w = some (index idx_w 0 false)
index_of _ = none

-- The conditions under which the loop over the table does not `continue`.
abbrev pub mode_fits : Bool → Index → Attr → ℤ → Node → Mode → Bool
mode_fits indirect i attr pc arg m =
    (idx_num m.idx_type == idx_num i.idx_type)
    && same_attr m.idx_attr attr
    && off_type_compatible m.off_type i.pcr pc arg
    && not (indirect && is_impossible m.idx_indirect)

-- the first mode that fits
unfoldable pub find_mode : Bool → Index → Attr → ℤ → Node → List Mode → Option Mode
find_mode indirect i attr pc arg [] = none
find_mode indirect i attr pc arg (m ∷ ms) =
    if mode_fits indirect i attr pc arg m then some m else find_mode indirect i attr pc arg ms

-- off_value. The assignment of the empty type to arg0_type, for a plain zero, makes it 0 as well.
abbrev pub pcr_offset : OffType → ℤ → ℤ → ℤ
pcr_offset off_8bit pc v = int64 (v -ℤ int32 (pc +ℤ pos 2))
pcr_offset off_16bit pc v = int64 (v -ℤ int32 (pc +ℤ pos 3))
pcr_offset _ pc v = v

unfoldable pub off_value : Index → OffType → ℤ → Node → ℤ
off_value i off pc (node (int v) attr) =
    if same_attr attr attr_none && eqb_ℤ v (pos 0)
    then pos 0
    else (if i.pcr then pcr_offset off pc v else v)
off_value i off pc _ = pos 0

-- `postbyte++` or `postbyte |= 0x10`
abbrev pub indirect_bits : Indirect → ℕ → ℕ
indirect_bits indirect_ok_6309 byte = byte + 1
indirect_bits _ byte = bit_or byte 0x10

abbrev pub report_indirect : Indirect → Asm → Asm
report_indirect indirect_illegal a = complain illegal "illegal indirect indexed mode" a
report_indirect _ a = a

unfoldable pub post_byte : Bool → Index → Mode → ℤ → ℕ
post_byte indirect i m off =
    let selected = bit_or m.postbyte i.idx_select in
    let with_offset = if is_off_5bit m.off_type then bit_or selected (wrap 32 off) else selected in
    if indirect then indirect_bits m.idx_indirect with_offset else with_offset

abbrev pub emit_offset : OffType → ℤ → Asm → Asm
emit_offset off_8bit off a = section_emit_uint8 (uint8 off) a
emit_offset off_16bit off a = section_emit_uint16 (uint16 off) a
emit_offset _ off a = a

abbrev pub emit_mode : Bool → Index → Mode → ℤ → Asm → Asm
emit_mode indirect i m off a = emit_offset m.off_type off (
    section_emit_uint8 (uint8 (pos (post_byte indirect i m off)))
      (if indirect then report_indirect m.idx_indirect a else a))

abbrev pub invalid_mode : Asm → Asm
invalid_mode a = complain syntax "invalid addressing mode" a

abbrev pub emit_found : Bool → Index → Node → Option Mode → Asm → Asm
emit_found indirect i arg0 none a = invalid_mode a
emit_found indirect i arg0 (some m) a =
    emit_mode indirect i m (off_value i m.off_type a.cur.pc arg0) a

abbrev pub indexed_by : Bool → Node → Attr → Option Index → Asm → Asm
indexed_by indirect arg0 attr none a = invalid_mode a
indexed_by indirect arg0 attr (some i) a =
    emit_found indirect i arg0 (find_mode indirect i attr a.cur.pc arg0 indexed_modes) a

unfoldable pub instr_indexed2 : Bool → Node → Node → Asm → Asm
instr_indexed2 indirect undef arg1 a = section_emit_pad 1 a
instr_indexed2 indirect arg0 undef a = section_emit_pad 1 a
instr_indexed2 indirect arg0 (node (reg r) attr) a = indexed_by indirect arg0 attr (index_of r) a
instr_indexed2 indirect arg0 arg1 a = invalid_mode a

-- One argument: an extended address, by way of the indexed postbyte.
abbrev extended_attr : Attr → Bool
extended_attr attr_undef = true
extended_attr attr_none = true
extended_attr attr_16bit = true
extended_attr _ = false

abbrev emit_extended : Bool → ℤ → Asm → Asm
emit_extended indirect addr a = section_emit_uint16 (uint16 addr) (
    section_emit_uint8 (if indirect then 0x9f else 0x8f)
      (if indirect then a else complain illegal "illegal indexed addressing form" a))

unfoldable pub indexed_address : Bool → Node → Asm → Asm
indexed_address indirect undef a = emit_extended indirect (pos 0) a
indexed_address indirect (node (int v) attr) a =
    if extended_attr attr then emit_extended indirect (int32 v) a else invalid_mode a
indexed_address indirect _ a = invalid_mode a

-- The 8-bit operand of a 6309 instruction, where there is one (it is not negative).
abbrev pub emit_imm8 : ℤ → Asm → Asm
emit_imm8 (pos v) a = section_emit_uint8 (uint8 (pos v)) a
emit_imm8 (negsuc v) a = a

module _ (float_to_int : ℕ → ℤ) where
  -- A text in the place of the offset stands for its bytes.
  abbrev pub string_to_int : Node → Node
  string_to_int (node (string s) attr) = eval_int float_to_int (node (string s) attr)
  string_to_int n = n

  abbrev pub indexed_args : Opcode → Bool → List Node → ℤ → Asm → Asm
  indexed_args op indirect (arg ∷ []) imm8_val a =
      indexed_address indirect (string_to_int arg)
        (emit_imm8 imm8_val (section_emit_op op.indexed a))
  indexed_args op indirect (arg0 ∷ arg1 ∷ []) imm8_val a =
      instr_indexed2 indirect (string_to_int arg0) arg1
        (emit_imm8 imm8_val (section_emit_op op.indexed a))
  indexed_args op indirect _ imm8_val a = complain syntax "invalid number of arguments" a

  -- An array as the only argument means indirection.
  abbrev pub indexed_list : Opcode → List Node → ℤ → Asm → Asm
  indexed_list op (node (array args) attr ∷ []) imm8_val a =
      indexed_args op true (to_list args) imm8_val a
  indexed_list op args imm8_val a = indexed_args op false args imm8_val a

  unfoldable pub instr_indexed : Opcode → Node → ℤ → Asm → Asm
  instr_indexed op args imm8_val a = indexed_list op (node_array_of args) imm8_val a
