-- ===== src/Instr/Indexed/Relative.antt =====
-- Operands relative to the program counter: `v,PCR` and `[v,PCR]`.
use asm.Prelude.{
  ℕ, sym, ap, ◌∙◌, ◌+◌, ◌*◌, ◌/◌, ◌%◌, ◌≤◌, ◌≡◌, refl, Bool, true, false, ◌&&◌, Option, none, some,
  List, [], ◌∷◌, ◌++◌, arith, length, ◌==◌, ltb, Bool-cases, inl, inr, if◌then◌else◌,
}
use asm.Prelude.Int.{
  ℤ, pos, negsuc, ◌+ℤ◌, ◌-ℤ◌, int32, int64, leb_ℤ, eqb_ℤ, uint8, uint16, signed, uint16-int64,
}
use asm.Error.{Errors}
use asm.Node.{Node, node, int, reg, array, nil, cons, attr_none, same_attr}
use asm.Register.{reg_pcr}
use asm.Opcode.{Opcode}
use asm.Section.{Asm, op_bytes, section_emit_op}
use asm.Section.Emitted.{Fits, Fits-Emitted}
use asm.Instr.Outcome.{Outcome, Outcome-op, Outcome-two, Outcome-three, Fits-le}
use asm.Instr.Rel.{to_rel16, beyond_8bit}
use asm.Instr.Rel.Range.{to_rel16_lem}
use asm.Instr.Indexed.{
  OffType, off_8bit, off_16bit, idx_pcr, indirect_ok, Mode, Index, indexed_modes, find_mode,
  off_type_compatible, off_value, pcr_offset, post_byte, emit_mode, index_of, instr_indexed2,
  instr_indexed,
}
use asm.Instr.Rel.Target.{short_hit, int32_ahead}

-- The address of an operand relative to the program counter, for a postbyte at the address `at`:
-- the displacement counts from the instruction behind. With it stands whether it is indirect.
abbrev pub reads_pcr : ℕ → List ℕ → Option (Bool × ℕ)
reads_pcr at (p ∷ b ∷ []) =
    if ltb 127 p && p % 16 == 12
    then some (p / 16 % 2 == 1, uint16 (pos (at + 2) +ℤ signed 128 b))
    else none
reads_pcr at (p ∷ hi ∷ lo ∷ []) =
    if ltb 127 p && p % 16 == 13
    then some (p / 16 % 2 == 1, uint16 (pos (at + 3) +ℤ signed 32768 (hi * 256 + lo)))
    else none
reads_pcr at _ = none

-- The operands of the source, `v,PCR` or `[v,PCR]`.
abbrev pub pcr_args : Bool → ℤ → Node
pcr_args indirect v =
    let pair = array (cons (node (int v) attr_none) (cons (node (reg reg_pcr) attr_none) nil)) in
    if indirect
    then node (array (cons (node pair attr_none) nil)) attr_none
    else node pair attr_none

abbrev pcr_mode : Bool → Mode
pcr_mode near = record {
  idx_type = idx_pcr;
  idx_attr = attr_none;
  off_type = if near then off_8bit else off_16bit;
  postbyte = if near then 0x8c else 0x8d;
  idx_indirect = indirect_ok;
}

abbrev pcr_index : Index
pcr_index = record { idx_type = idx_pcr; idx_select = 0; pcr = true }

-- the test of the 8-bit mode
abbrev is_near : ℤ → ℤ → Bool
is_near pc v =
    let rel = to_rel16 (int64 (v -ℤ int32 (pc +ℤ pos 2))) in
    leb_ℤ (negsuc 127) rel && leb_ℤ rel (pos 127)

find_mode-pcr :
    (indirect : Bool) (pc v : ℤ)
    → find_mode indirect pcr_index attr_none pc (node (int v) attr_none) indexed_modes
      ≡ some (pcr_mode (is_near pc v))
unfolding find_mode indexed_modes off_type_compatible same_attr
find_mode-pcr indirect pc v = ground arith

-- The address that the operand means: that of the source, but for a plain zero, which is taken for
-- an empty offset.
abbrev pub meant : ℕ → ℤ → ℕ
meant next v = if eqb_ℤ v (pos 0) then next % 65536 else uint16 v

off_value-zero :
    (off : OffType) (pc v : ℤ)
    → eqb_ℤ v (pos 0) ≡ true
    → off_value pcr_index off pc (node (int v) attr_none) ≡ pos 0
unfolding off_value same_attr
off_value-zero off pc v h = rw h

off_value-pcr :
    (off : OffType) (pc v : ℤ)
    → eqb_ℤ v (pos 0) ≡ false
    → off_value pcr_index off pc (node (int v) attr_none) ≡ pcr_offset off pc v
unfolding off_value same_attr
off_value-pcr off pc v h = rw h

same_low_byte : (x y : ℤ) → uint16 x ≡ uint16 y → uint8 x ≡ uint8 y
same_low_byte x y h = ground arith

no_offset_8 : (next : ℕ) → uint16 (pos next +ℤ signed 128 (uint8 (pos 0))) ≡ next % 65536
unfolding ◌+ℤ◌
no_offset_8 next = ground arith

no_offset_16 : (next : ℕ) → uint16 (pos next +ℤ signed 32768 (uint16 (pos 0))) ≡ next % 65536
unfolding ◌+ℤ◌
no_offset_16 next = ground arith

not_beyond :
    (rel : ℤ) → leb_ℤ (negsuc 127) rel && leb_ℤ rel (pos 127) ≡ true → beyond_8bit rel ≡ false
not_beyond rel h = ground arith

word_hit :
    (next : ℕ) (v : ℤ) → uint16 (pos next +ℤ signed 32768 (uint16 (v -ℤ pos next))) ≡ uint16 v
unfolding ◌+ℤ◌ ◌-ℤ◌
word_hit next v = ground arith

module _ (at : ℕ) (pc v : ℤ) (h : pc ≡ pos at) where
  near_address :
      at + 2 ≤ 65536
      → is_near pc v ≡ true
      → uint16 (
          pos (at + 2)
          +ℤ signed 128 (uint8 (off_value pcr_index off_8bit pc (node (int v) attr_none))))
        ≡ meant (at + 2) v
  near_address below near = elim (Bool-cases (eqb_ℤ v (pos 0))) [
    | inl z ↦ rw (off_value-zero off_8bit pc v z, z) (no_offset_8 (at + 2))
    | inr nz ↦
        let i = int64 (v -ℤ int32 (pc +ℤ pos 2)) in
        let (low, high, same) = to_rel16_lem i in
        let distance : uint16 (to_rel16 i) ≡ uint16 (v -ℤ pos (at + 2)) =
          same
          ∙ uint16-int64 (v -ℤ int32 (pc +ℤ pos 2))
          ∙ ap (λ q. uint16 (v -ℤ q)) (int32_ahead pc at 2 h below) in
        rw (off_value-pcr off_8bit pc v nz, nz, sym (same_low_byte (to_rel16 i) i same))
          (short_hit (at + 2) v (to_rel16 i) distance (not_beyond (to_rel16 i) near))
  ]

  far_address :
      at + 3 ≤ 65536
      → uint16 (
          pos (at + 3)
          +ℤ signed 32768 (uint16 (off_value pcr_index off_16bit pc (node (int v) attr_none))))
        ≡ meant (at + 3) v
  far_address below = elim (Bool-cases (eqb_ℤ v (pos 0))) [
    | inl z ↦ rw (off_value-zero off_16bit pc v z, z) (no_offset_16 (at + 3))
    | inr nz ↦
        rw
          (
            off_value-pcr off_16bit pc v nz,
            nz,
            uint16-int64 (v -ℤ int32 (pc +ℤ pos 3)),
            int32_ahead pc at 3 h below,
          )
          (word_hit (at + 3) v)
  ]

pcr_bytes : Bool → Bool → ℤ → ℤ → List ℕ
pcr_bytes indirect true pc v =
    (if indirect then 0x9c else 0x8c)
    ∷ uint8 (off_value pcr_index off_8bit pc (node (int v) attr_none))
    ∷ []
pcr_bytes indirect false pc v =
    let off = uint16 (off_value pcr_index off_16bit pc (node (int v) attr_none)) in
    (if indirect then 0x9d else 0x8d) ∷ off / 256 ∷ off % 256 ∷ []

join_word : (w : ℕ) → w / 256 * 256 + w % 256 ≡ w
join_word w = omega arith

reads-pcr_bytes :
    (indirect near : Bool) (at : ℕ) (pc v : ℤ)
    → pc ≡ pos at
    → at + 3 ≤ 65536
    → is_near pc v ≡ near
    → reads_pcr at (pcr_bytes indirect near pc v)
      ≡ some (indirect, meant (at + length (pcr_bytes indirect near pc v)) v)
unfolding pcr_bytes
reads-pcr_bytes true true at pc v h below near =
    ap (λ n. some (true, n)) (near_address at pc v h (omega arith) near)
reads-pcr_bytes false true at pc v h below near =
    ap (λ n. some (false, n)) (near_address at pc v h (omega arith) near)
reads-pcr_bytes true false at pc v h below near =
    ap (λ n. some (true, n)) (rw join_word (far_address at pc v h below))
reads-pcr_bytes false false at pc v h below near =
    ap (λ n. some (false, n)) (rw join_word (far_address at pc v h below))

emit_pcr-Outcome :
    {bs : List ℕ} {e : Errors} {a b : Asm} (indirect near : Bool) (v : ℤ)
    → Fits (length bs + 3) a
    → Outcome bs e a b
    → Outcome (bs ++ pcr_bytes indirect near b.cur.pc v) e a (
        emit_mode indirect pcr_index
          (pcr_mode near)
          (off_value pcr_index (pcr_mode near).off_type b.cur.pc (node (int v) attr_none))
          b)
unfolding pcr_bytes post_byte
emit_pcr-Outcome true true v f o = Outcome-two _ _ (Fits-le (omega arith) f) o
emit_pcr-Outcome false true v f o = Outcome-two _ _ (Fits-le (omega arith) f) o
emit_pcr-Outcome true false v f o = Outcome-three _ _ f o
emit_pcr-Outcome false false v f o = Outcome-three _ _ f o

indexed2_pcr-Outcome :
    {bs : List ℕ} {e : Errors} {a b : Asm} (indirect : Bool) (v : ℤ)
    → Fits (length bs + 3) a
    → Outcome bs e a b
    → Outcome
        (bs ++ pcr_bytes indirect (is_near b.cur.pc v) b.cur.pc v)
        e
        a
        (instr_indexed2 indirect (node (int v) attr_none) (node (reg reg_pcr) attr_none) b)
unfolding instr_indexed2 index_of
indexed2_pcr-Outcome {b} indirect v f o =
    rw (find_mode-pcr indirect b.cur.pc v) (emit_pcr-Outcome indirect (is_near b.cur.pc v) v f o)

module _ (op : Opcode) (indirect : Bool) (v : ℤ) (a : Asm) where
  -- Assembled within memory, an operand `v,PCR` or `[v,PCR]` emits the opcode and operand bytes, and
  -- nothing is reported. The processor reads the operand as the address v modulo 65536 where v is not
  -- 0; where v is 0 it reads the address of the instruction behind.
  pub instr_indexed-pcr :
      (float_to_int : ℕ → ℤ) (f : Fits (length (op_bytes op.indexed) + 3) a)
      → (bytes : List ℕ) × Outcome
          (op_bytes op.indexed ++ bytes)
          a.errors
          a
          (instr_indexed float_to_int op (pcr_args indirect v) (negsuc 0) a)
        × (reads_pcr (f.at + length (op_bytes op.indexed)) bytes
            ≡ some (indirect, meant (f.at + length (op_bytes op.indexed) + length bytes) v))
  unfolding instr_indexed
  instr_indexed-pcr float_to_int f =
      let o = Outcome-op op.indexed (Fits-le (omega arith) f) in
      let g = Fits-Emitted 3 o.emitted f in
      let pc = (section_emit_op op.indexed a).cur.pc in
      (
        pcr_bytes indirect (is_near pc v) pc v,
        as_instr indirect (indexed2_pcr-Outcome indirect v f o),
        reads-pcr_bytes indirect (is_near pc v) g.at pc v g.is_pc g.below refl,
      )
    where
      as_instr :
          {bytes : List ℕ} (ind : Bool)
          → Outcome bytes a.errors a (
              instr_indexed2 ind
                (node (int v) attr_none)
                (node (reg reg_pcr) attr_none)
                (section_emit_op op.indexed a))
          → Outcome bytes a.errors a (instr_indexed float_to_int op (pcr_args ind v) (negsuc 0) a)
      as_instr true o = o
      as_instr false o = o
