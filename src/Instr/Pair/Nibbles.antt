-- ===== src/Instr/Pair/Nibbles.antt =====
-- The postbytes of register pairs.
use asm.Prelude.{
  ℕ, ◌+◌, ◌/◌, ◌%◌, ◌≡◌, Bool, true, false, bit_and, not, [], ◌∷◌, ◌++◌, arith, length, ◌==◌,
  if◌then◌else◌,
}
use asm.Prelude.Int.{pos, uint8}
use asm.Error.{Errors, error, illegal}
use asm.Register.{
  RegId, reg_cc, reg_a, reg_b, reg_dp, reg_pcr, reg_e, reg_f, reg_q, reg_tfr_nibble, reg_tfr_size,
}
use asm.Node.{Node, node, reg, array, nil, cons, Attr}
use asm.Opcode.{Opcode}
use asm.Section.{Asm, op_bytes}
use asm.Section.Emitted.{Fits}
use asm.Instr.Outcome.{
  Outcome, Outcome-op, Outcome-uint8, Outcome-complained, Fits-complain, Fits-le,
}
use asm.Instr.Pair.{Local, pair_byte, emit_pair, instr_pair}

abbrev pub two_registers : RegId → RegId → Attr → Attr → Attr → Node
two_registers r q ar aq list_attr =
    node (array (cons (node (reg r) ar) (cons (node (reg q) aq) nil))) list_attr

-- The registers with a number in the postbyte.
abbrev pub transferable : RegId → Bool
transferable reg_pcr = false
transferable reg_q = false
transferable _ = true

-- 8-bit registers
abbrev pub is_byte_register : RegId → Bool
is_byte_register reg_cc = true
is_byte_register reg_a = true
is_byte_register reg_b = true
is_byte_register reg_dp = true
is_byte_register reg_e = true
is_byte_register reg_f = true
is_byte_register _ = false

-- what the loop assigns for a register
abbrev local : RegId → Local
local r = record { nibble = reg_tfr_nibble r; size = reg_tfr_size r }

nibbles_table :
    (r q : RegId)
    → transferable r ≡ true
    → transferable q ≡ true
    → (pos (pair_byte (reg_tfr_nibble r) (reg_tfr_nibble q) / 16) ≡ reg_tfr_nibble r)
      × (pos (pair_byte (reg_tfr_nibble r) (reg_tfr_nibble q) % 16) ≡ reg_tfr_nibble q)
unfolding reg_tfr_nibble
nibbles_table r q hr hq = ground arith

-- The sizes in the table have no bit in common exactly where the widths differ.
sizes_table :
    (r q : RegId)
    → transferable r ≡ true
    → transferable q ≡ true
    → (bit_and (uint8 (reg_tfr_size r)) (uint8 (reg_tfr_size q)) == 0)
      ≡ (if is_byte_register r then not (is_byte_register q) else is_byte_register q)
unfolding reg_tfr_size
sizes_table r q hr hq = ground arith

pcr_table :
    (q : RegId)
    → transferable q ≡ true
    → (pos (pair_byte (reg_tfr_nibble reg_pcr) (reg_tfr_nibble q) / 16) ≡ reg_tfr_nibble reg_f)
      × ((bit_and (uint8 (reg_tfr_size reg_pcr)) (uint8 (reg_tfr_size q)) == 0) ≡ false)
unfolding reg_tfr_nibble reg_tfr_size
pcr_table q hq = ground arith

abbrev pub mismatch : Errors → Errors
mismatch e = error illegal "register size mismatch in inter-register op" e

emit_pair-Outcome :
    (op : Opcode) (l0 l1 : Local) (a : Asm) (differ : Bool)
    → (bit_and (uint8 l0.size) (uint8 l1.size) == 0) ≡ differ
    → Fits (length (op_bytes op.immediate) + 1) a
    → Outcome
        (op_bytes op.immediate ++ pair_byte l0.nibble l1.nibble ∷ [])
        (if differ then mismatch a.errors else a.errors)
        a
        (emit_pair op l0 l1 a)
emit_pair-Outcome op l0 l1 a true e f =
    let g = Fits-complain illegal "register size mismatch in inter-register op" f in
    rw e (
      Outcome-complained illegal "register size mismatch in inter-register op"
        (Outcome-uint8 _ g (Outcome-op op.immediate (Fits-le (omega arith) g))))
emit_pair-Outcome op l0 l1 a false e f =
    rw e (Outcome-uint8 _ f (Outcome-op op.immediate (Fits-le (omega arith) f)))

module _ (op : Opcode) (junk0 junk1 : Local) (ar aq list_attr : Attr) (a : Asm)
    (f : Fits (length (op_bytes op.immediate) + 1) a) where
  -- An inter-register instruction on two registers of the postbyte's list, assembled within memory,
  -- emits the opcode and a byte with the number of the first register in its high half and that of
  -- the second in its low half. It reports a mismatch exactly when one register has 8 bits and the
  -- other has not, and nothing else.
  pub instr_pair-nibbles :
      (r q : RegId)
      → transferable r ≡ true
      → transferable q ≡ true
      → (b : ℕ) × Outcome
          (op_bytes op.immediate ++ b ∷ [])
          (if (if is_byte_register r then not (is_byte_register q) else is_byte_register q)
            then mismatch a.errors
            else a.errors)
          a
          (instr_pair junk0 junk1 op (two_registers r q ar aq list_attr) a)
        × (pos (b / 16) ≡ reg_tfr_nibble r)
        × (pos (b % 16) ≡ reg_tfr_nibble q)
  unfolding instr_pair
  instr_pair-nibbles r q hr hq =
      let (high, low) = nibbles_table r q hr hq in
      (
        pair_byte (reg_tfr_nibble r) (reg_tfr_nibble q),
        emit_pair-Outcome op (local r) (local q) a _ (sizes_table r q hr hq) f,
        high,
        low,
      )

  -- An inter-register instruction from PCR, which has no number in the postbyte, reports nothing at
  -- all, and emits the number of register F.
  pub instr_pair-pcr :
      (q : RegId)
      → transferable q ≡ true
      → (b : ℕ) × Outcome
          (op_bytes op.immediate ++ b ∷ [])
          a.errors
          a
          (instr_pair junk0 junk1 op (two_registers reg_pcr q ar aq list_attr) a)
        × (pos (b / 16) ≡ reg_tfr_nibble reg_f)
  unfolding instr_pair
  instr_pair-pcr q hq =
      let (high, fits) = pcr_table q hq in
      (
        pair_byte (reg_tfr_nibble reg_pcr) (reg_tfr_nibble q),
        emit_pair-Outcome op (local reg_pcr) (local q) a false fits f,
        high,
      )
