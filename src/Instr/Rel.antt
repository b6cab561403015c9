-- ===== src/Instr/Rel.antt =====
-- to_rel16 and instr_rel: relative addressing.
pub mod Range
pub mod Target
use asm.Prelude.{
  ℕ, zero, suc, ◌+◌, ◌/◌, Bool, true, false, not, ◌&&◌, ◌||◌, List, [], ◌∷◌, ◌==◌, if◌then◌else◌,
}
use asm.Prelude.Int.{
  ℤ, pos, negsuc, pos_part, neg_part, ◌+ℤ◌, ◌-ℤ◌, int32, int64, uint8, uint16, ltb_ℤ,
}
use asm.Error.{syntax, out_of_range, inefficient}
use asm.Node.{Node, node, int, node_array_of, Attr, attr_16bit, same_attr}
use asm.Opcode.{Opcode, ext_type, opcode_rel8}
use asm.Section.{Asm, section_emit_op, section_emit_pad, section_emit_uint8, section_emit_uint16}
use asm.Instr.{complain}

-- while (i < -32768) i += 65536, on fuel
pub raise_loop : ℕ → ℤ → ℤ
raise_loop zero i = i
raise_loop (suc fuel) i =
    let rest = raise_loop fuel (i +ℤ pos 65536) in if ltb_ℤ i (negsuc 32767) then rest else i

-- while (i > 32767) i -= 65536, on fuel
pub lower_loop : ℕ → ℤ → ℤ
lower_loop zero i = i
lower_loop (suc fuel) i =
    let rest = lower_loop fuel (i -ℤ pos 65536) in if ltb_ℤ (pos 32767) i then rest else i

-- One round takes 65536 off, so the number of them is known in advance.
unfoldable pub to_rel16 : ℤ → ℤ
unfolding raise_loop lower_loop ◌+ℤ◌ ◌-ℤ◌
to_rel16 i = lower_loop (pos_part i / 65536 + 1) (raise_loop (neg_part i / 65536 + 1) i)

abbrev pub beyond_8bit : ℤ → Bool
beyond_8bit rel8 = ltb_ℤ rel8 (negsuc 127) || ltb_ℤ (pos 127) rel8

-- the two branches for a target that is known, after the opcode
abbrev pub rel_short : ℤ → Asm → Asm
rel_short rel8 a =
    section_emit_uint8 (uint8 rel8)
      (if beyond_8bit rel8 then complain out_of_range "8-bit relative value out of range" a else a)

abbrev pub rel_long : ℤ → Attr → Asm → Asm
rel_long rel8 attr a = section_emit_uint16 (uint16 (rel8 -ℤ pos 1)) (
    if not (beyond_8bit rel8) && not (same_attr attr attr_16bit)
    then complain inefficient "16-bit relative value could be represented in 8 bits" a
    else a)

abbrev pub rel_arg : Bool → Node → Asm → Asm
rel_arg short (node (int target) attr) a =
    let rel8 = to_rel16 (int64 (target -ℤ int32 (a.cur.pc +ℤ pos 1))) in
    if short then rel_short rel8 a else rel_long rel8 attr a
rel_arg short _ a = if short then section_emit_pad 1 a else section_emit_pad 2 a

abbrev rel_args : Opcode → List Node → Asm → Asm
rel_args op (arg ∷ []) a = rel_arg (ext_type op == opcode_rel8) arg (section_emit_op op.immediate a)
rel_args op _ a = complain syntax "invalid number of arguments" a

unfoldable pub instr_rel : Opcode → Node → Asm → Asm
instr_rel op args a = rel_args op (node_array_of args) a
