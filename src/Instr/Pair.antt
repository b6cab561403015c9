-- ===== src/Instr/Pair.antt =====
-- instr_pair (TFR, EXG and the like), instr_tfm and instr_reg_mem.
-- Where an argument is undefined, the source reads elements of local arrays that were never
-- assigned: `Local` holds their indeterminate values, an argument of the model.
pub mod Nibbles
use asm.Prelude.{
  ℕ, ◌+◌, ◌*◌, ◌%◌, bit_and, bit_or, Bool, true, false, ◌&&◌, ◌||◌, Option, none, some, List, [],
  ◌∷◌, ◌==◌, if◌then◌else◌,
}
use asm.Prelude.Int.{ℤ, pos, int32, uint8, wrap, ltb_ℤ, eqb_ℤ, pos_part}
use asm.Error.{syntax, illegal, out_of_range}
use asm.Register.{
  RegId, Isa, isa_6809, isa_6309, reg_cc, reg_a, reg_b, reg_tfr_nibble, reg_tfr_size,
}
use asm.Node.{
  Node, undef, node, int, reg, node_array_of, node_attr_of, Attr, attr_none, attr_postinc,
  attr_postdec, same_attr,
}
use asm.Opcode.{Opcode}
use asm.Section.{Asm, section_emit_op, section_emit_uint8, section_emit_pad}
use asm.Instr.{complain}

-- nibble[i] and size[i]
pub record Local : Type 0 where
  pub nibble : ℤ
  pub size : ℤ

-- One round of a loop: it goes on with the values assigned, or the function returns.
pub data Round : Type 0 where
  next : Local → Asm → Round
  return : Asm → Round

abbrev is_6309 : Isa → Bool
is_6309 isa_6309 = true
is_6309 isa_6809 = false

abbrev outside : ℤ → ℤ → Bool
outside v last = ltb_ℤ v (pos 0) || ltb_ℤ last v

abbrev report_outside : Bool → Asm → Asm
report_outside out a =
    if out then complain out_of_range "numeric value for register out of range" a else a

abbrev pair_number : ℤ → Asm → Round
pair_number v a =
    if eqb_ℤ v (pos 0) && is_6309 a.isa
    then next (record { nibble = pos 0x0c; size = pos 24 }) a
    else next (record { nibble = pos (wrap 16 v); size = pos 24 })
        (report_outside (outside v (pos 15))
          (complain illegal "numerical values used in inter-register op" a))

abbrev pub pair_round : Local → Node → Asm → Round
pair_round junk undef a = next junk a
pair_round junk (node (reg r) attr) a =
    next (record { nibble = reg_tfr_nibble r; size = reg_tfr_size r }) a
pair_round junk (node (int v) attr) a = pair_number (int32 v) a
pair_round junk _ a = return (complain syntax "invalid register in inter-register op" a)

-- (nibble[0] << 4) | nibble[1], cut to a byte
abbrev pub pair_byte : ℤ → ℤ → ℕ
pair_byte n0 n1 = bit_or (uint8 n0 * 16 % 256) (uint8 n1)

abbrev pub check_sizes : Local → Local → Asm → Asm
check_sizes l0 l1 a =
    if bit_and (uint8 l0.size) (uint8 l1.size) == 0
    then complain illegal "register size mismatch in inter-register op" a
    else a

abbrev pub emit_pair : Opcode → Local → Local → Asm → Asm
emit_pair op l0 l1 a =
    section_emit_uint8 (pair_byte l0.nibble l1.nibble)
      (section_emit_op op.immediate (check_sizes l0 l1 a))

abbrev pub pair_second : Opcode → Local → Round → Asm
pair_second op l0 (next l1 a) = emit_pair op l0 l1 a
pair_second op l0 (return a) = a

abbrev pub pair_first : Opcode → Local → Node → Round → Asm
pair_first op junk arg1 (next l0 a) = pair_second op l0 (pair_round junk arg1 a)
pair_first op junk arg1 (return a) = a

abbrev pub pair_args : Opcode → Local → Local → List Node → Asm → Asm
pair_args op junk0 junk1 (arg0 ∷ arg1 ∷ []) a = pair_first op junk1 arg1 (pair_round junk0 arg0 a)
pair_args op junk0 junk1 _ a = complain syntax "invalid number of arguments" a

unfoldable pub instr_pair : Local → Local → Opcode → Node → Asm → Asm
instr_pair junk0 junk1 op args a = pair_args op junk0 junk1 (node_array_of args) a

-- One round of the loop of instr_tfm; it assigns the nibble only.
abbrev tfm_register : ℤ → Local → Asm → Round
tfm_register v junk a =
    if outside v (pos 4)
    then return (complain syntax "invalid register in TFM op" a)
    else next (record junk { nibble = v }) a

abbrev pub tfm_round : Local → Node → Asm → Round
tfm_round junk undef a = next junk a
tfm_round junk (node (reg r) attr) a = tfm_register (reg_tfr_nibble r) junk a
tfm_round junk (node (int v) attr) a =
    next (record junk { nibble = pos (wrap 16 v) })
      (report_outside (outside (int32 v) (pos 4))
        (complain illegal "numerical values used in TFM op" a))
tfm_round junk _ a = return (complain syntax "invalid register in inter-register op" a)

-- The mode of the transfer by the attributes of its arguments.
abbrev pub tfm_mode : Attr → Attr → Option ℕ
tfm_mode attr_postinc attr_postinc = some 0
tfm_mode attr_postdec attr_postdec = some 1
tfm_mode attr_postinc attr_none = some 2
tfm_mode attr_none attr_postinc = some 3
tfm_mode _ _ = none

abbrev pub emit_tfm : Opcode → Local → Local → Option ℕ → Asm → Asm
emit_tfm op l0 l1 none a = complain syntax "invalid TFM mode" a
emit_tfm op l0 l1 (some offset) a =
    section_emit_uint8 (pair_byte l0.nibble l1.nibble) (section_emit_op (op.immediate + offset) a)

abbrev pub tfm_second : Opcode → Local → Option ℕ → Round → Asm
tfm_second op l0 m (next l1 a) = emit_tfm op l0 l1 m a
tfm_second op l0 m (return a) = a

abbrev pub tfm_first : Opcode → Local → Node → Option ℕ → Round → Asm
tfm_first op junk arg1 m (next l0 a) = tfm_second op l0 m (tfm_round junk arg1 a)
tfm_first op junk arg1 m (return a) = a

abbrev pub tfm_args : Opcode → Local → Local → List Node → Asm → Asm
tfm_args op junk0 junk1 (arg0 ∷ arg1 ∷ []) a =
    tfm_first op junk1 arg1 (tfm_mode (node_attr_of arg0) (node_attr_of arg1))
      (tfm_round junk0 arg0 a)
tfm_args op junk0 junk1 _ a = complain syntax "invalid number of arguments" a

unfoldable pub instr_tfm : Local → Local → Opcode → Node → Asm → Asm
instr_tfm junk0 junk1 op args a = tfm_args op junk0 junk1 (node_array_of args) a

-- The register of instr_reg_mem: the bits of the postbyte, or the `goto`.
abbrev mem_register : RegId → Option ℕ
mem_register reg_cc = some 0
mem_register reg_a = some 0x40
mem_register reg_b = some 0x80
mem_register _ = none

pub data MemRound : Type 0 where
  pbyte : ℕ → Asm → MemRound
  invalid_register : MemRound

abbrev of_register : Option ℕ → Asm → MemRound
of_register (some p) a = pbyte p a
of_register none a = invalid_register

abbrev mem_first : Node → Asm → MemRound
mem_first undef a = pbyte 0xc0 a
mem_first (node (int v) attr) a =
    pbyte (bit_or 0xc0 (wrap 4 v * 64))
      (complain illegal "numerical value used in place of register" a)
mem_first (node (reg r) attr) a = of_register (mem_register r) a
mem_first _ a = invalid_register

abbrev mem_source : Node → MemRound → MemRound
mem_source (node (int v) attr) (pbyte p a) =
    if outside v (pos 7)
    then pbyte p (complain out_of_range "bad source bit" a)
    else pbyte (bit_or p (pos_part v * 8)) a
mem_source n m = m

abbrev mem_destination : Node → MemRound → MemRound
mem_destination (node (int v) attr) (pbyte p a) =
    if outside v (pos 7)
    then pbyte p (complain out_of_range "bad destination bit" a)
    else pbyte (bit_or p (pos_part v)) a
mem_destination n m = m

abbrev mem_address : Node → Asm → Asm
mem_address (node (int v) attr) a = section_emit_uint8 (uint8 v) a
mem_address _ a = section_emit_pad 1 a

abbrev emit_mem : Opcode → Node → Asm → MemRound → Asm
emit_mem op address start (pbyte p a) =
    mem_address address (section_emit_uint8 p (section_emit_op op.direct a))
emit_mem op address start invalid_register =
    complain syntax "invalid register in register-memory operation" start

abbrev mem_args : Opcode → List Node → Asm → Asm
mem_args op (r ∷ source ∷ destination ∷ address ∷ []) a =
    emit_mem op address a (mem_destination destination (mem_source source (mem_first r a)))
mem_args op _ a = complain syntax "invalid number of arguments" a

unfoldable pub instr_reg_mem : Opcode → Node → Asm → Asm
instr_reg_mem op args a = mem_args op (node_array_of args) a
