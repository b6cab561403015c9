-- ===== src/Instr/Indexed/Forms.antt =====
-- The forms of a constant offset in the table of modes, and how the processor reads each.
use mathlib.Core.Path.{subst}
use asm.Prelude.{
  ℕ, sym, ◌+◌, ◌*◌, ◌/◌, ◌%◌, ◌<◌, ◌≡◌, refl, bit_or, Bool, true, false, not, ◌&&◌, ◌||◌, some,
  List, [], ◌∷◌, arith, length, ◌==◌, ==_iff, Bool-cases, and_left, and_right, inl, inr,
  if◌then◌else◌,
}
use asm.Prelude.Int.{ℤ, pos, negsuc, leb_ℤ, eqb_ℤ, uint8, uint16, wrap, eq_of_parts}
use asm.Prelude.Table.{each_below, each_below-at}
use asm.Node.{Node, node, int, reg, array, nil, cons, attr_none, same_attr}
use asm.Instr.Indexed.{
  OffType, off_zero, off_5bit, off_8bit, off_16bit, idx_xyus, indirect_ok, indirect_impossible,
  Mode, Index, indexed_modes, find_mode, off_type_compatible, post_byte, index_of, is_off_8bit,
  is_off_16bit,
}
use asm.Instr.Indexed.Decode.{
  Pointer, pointer_x, pointer_y, pointer_u, pointer_s, pointer_reg, pointer_num, decode_operand,
}

abbrev pub mode_of : OffType → Mode
mode_of off_zero = record {
  idx_type = idx_xyus;
  idx_attr = attr_none;
  off_type = off_zero;
  postbyte = 0x84;
  idx_indirect = indirect_ok;
}
mode_of off_5bit = record {
  idx_type = idx_xyus;
  idx_attr = attr_none;
  off_type = off_5bit;
  postbyte = 0x00;
  idx_indirect = indirect_impossible;
}
mode_of off_8bit = record {
  idx_type = idx_xyus;
  idx_attr = attr_none;
  off_type = off_8bit;
  postbyte = 0x88;
  idx_indirect = indirect_ok;
}
mode_of _ = record {
  idx_type = idx_xyus;
  idx_attr = attr_none;
  off_type = off_16bit;
  postbyte = 0x89;
  idx_indirect = indirect_ok;
}

-- the shortest form of an offset
abbrev pub shortest : Bool → ℤ → OffType
shortest indirect v =
    if eqb_ℤ v (pos 0)
    then off_zero
    else (if not indirect && leb_ℤ (negsuc 15) v && leb_ℤ v (pos 15)
        then off_5bit
        else (if leb_ℤ (negsuc 127) v && leb_ℤ v (pos 127) then off_8bit else off_16bit))

abbrev pub pointer_index : Pointer → Index
pointer_index p = record { idx_type = idx_xyus; idx_select = pointer_num p * 32; pcr = false }

pub find_mode-shortest :
    (indirect : Bool) (i : Index) (pc v : ℤ)
    → i.idx_type ≡ idx_xyus
    → i.pcr ≡ false
    → find_mode indirect i attr_none pc (node (int v) attr_none) indexed_modes
      ≡ some (mode_of (shortest indirect v))
unfolding find_mode indexed_modes off_type_compatible same_attr
find_mode-shortest indirect i pc v h k = ground arith

-- The operands of the source, `v,R` or `[v,R]`.
abbrev pub offset_args : Bool → ℤ → Pointer → Node
offset_args indirect v p =
    let pair =
      array (cons (node (int v) attr_none) (cons (node (reg (pointer_reg p)) attr_none) nil)) in
    if indirect
    then node (array (cons (node pair attr_none) nil)) attr_none
    else node pair attr_none

-- The number of bytes of that form: the postbyte, and one or two more.
abbrev pub offset_size : Bool → ℤ → ℕ
offset_size indirect v =
    if eqb_ℤ v (pos 0) || (not indirect && leb_ℤ (negsuc 15) v && leb_ℤ v (pos 15))
    then 1
    else (if leb_ℤ (negsuc 127) v && leb_ℤ v (pos 127) then 2 else 3)

pub index_of-pointer : (p : Pointer) → index_of (pointer_reg p) ≡ some (pointer_index p)
unfolding index_of
index_of-pointer pointer_x = refl
index_of-pointer pointer_y = refl
index_of-pointer pointer_u = refl
index_of-pointer pointer_s = refl

-- The five bits of the offset stand beside those of the register.
pointer_num-lt : (p : Pointer) → pointer_num p < 4
pointer_num-lt p = ground arith

select_offset :
    (p : Pointer) (w : ℕ)
    → w < 32
    → bit_or (bit_or 0x00 (pointer_num p * 32)) w ≡ pointer_num p * 32 + w
unfolding each_below
select_offset pointer_x w h =
    (==_iff _ (0 + w)).0 (each_below-at 32 (λ w. bit_or 0 w == 0 + w) w refl h)
select_offset pointer_y w h =
    (==_iff _ (32 + w)).0 (each_below-at 32 (λ w. bit_or 32 w == 32 + w) w refl h)
select_offset pointer_u w h =
    (==_iff _ (64 + w)).0 (each_below-at 32 (λ w. bit_or 64 w == 64 + w) w refl h)
select_offset pointer_s w h =
    (==_iff _ (96 + w)).0 (each_below-at 32 (λ w. bit_or 96 w == 96 + w) w refl h)

-- What the processor reads for a form of the offset.
abbrev pub offset_bytes : Bool → Pointer → OffType → ℤ → List ℕ
offset_bytes indirect p off v =
    uint8 (pos (post_byte indirect (pointer_index p) (mode_of off) v))
    ∷ (if is_off_8bit (mode_of off).off_type
        then uint8 v ∷ []
        else (if is_off_16bit (mode_of off).off_type
            then uint16 v / 256 ∷ uint16 v % 256 ∷ []
            else []))

abbrev pub ReadsAs : Bool → Pointer → ℤ → List ℕ → Type 0
ReadsAs indirect p v bytes =
    (decode_operand bytes
      ≡ some (record { indirect = indirect; register = pointer_num p; offset = uint16 v }))
    × (length bytes ≡ offset_size indirect v)

zero-ReadsAs :
    (indirect : Bool) (p : Pointer)
    → ReadsAs indirect p (pos 0) (offset_bytes indirect p off_zero (pos 0))
unfolding post_byte
zero-ReadsAs true p = ground arith
zero-ReadsAs false p = ground arith

wrap_32-lt : (v : ℤ) → wrap 32 v < 32
wrap_32-lt v = ground arith

five_bits :
    (n : ℕ) (v : ℤ)
    → n < 4
    → leb_ℤ (negsuc 15) v ≡ true
    → leb_ℤ v (pos 15) ≡ true
    → eqb_ℤ v (pos 0) ≡ false
    → (decode_operand ((n * 32 + wrap 32 v) % 256 ∷ [])
        ≡ some (record { indirect = false; register = n; offset = uint16 v }))
      × (1 ≡ offset_size false v)
five_bits n v h lo hi nz = ground arith

short-ReadsAs :
    (p : Pointer) (v : ℤ)
    → leb_ℤ (negsuc 15) v ≡ true
    → leb_ℤ v (pos 15) ≡ true
    → eqb_ℤ v (pos 0) ≡ false
    → ReadsAs false p v (offset_bytes false p off_5bit v)
unfolding post_byte
short-ReadsAs p v lo hi nz =
    rw (select_offset p (wrap 32 v) (wrap_32-lt v))
      (five_bits (pointer_num p) v (pointer_num-lt p) lo hi nz)

byte-ReadsAs :
    (indirect : Bool) (p : Pointer) (v : ℤ)
    → not indirect && leb_ℤ (negsuc 15) v && leb_ℤ v (pos 15) ≡ false
    → leb_ℤ (negsuc 127) v ≡ true
    → leb_ℤ v (pos 127) ≡ true
    → eqb_ℤ v (pos 0) ≡ false
    → ReadsAs indirect p v (offset_bytes indirect p off_8bit v)
unfolding post_byte
byte-ReadsAs true p v short lo hi nz = ground arith
byte-ReadsAs false p v short lo hi nz = ground arith

word-ReadsAs :
    (indirect : Bool) (p : Pointer) (v : ℤ)
    → not indirect && leb_ℤ (negsuc 15) v && leb_ℤ v (pos 15) ≡ false
    → leb_ℤ (negsuc 127) v && leb_ℤ v (pos 127) ≡ false
    → eqb_ℤ v (pos 0) ≡ false
    → ReadsAs indirect p v (offset_bytes indirect p off_16bit v)
unfolding post_byte
word-ReadsAs true p v short lo nz = ground arith
word-ReadsAs false p v short lo nz = ground arith

short_form :
    (indirect : Bool) (p : Pointer) (v : ℤ)
    → not indirect && leb_ℤ (negsuc 15) v && leb_ℤ v (pos 15) ≡ true
    → eqb_ℤ v (pos 0) ≡ false
    → ReadsAs indirect p v (offset_bytes indirect p off_5bit v)
short_form true p v short nz = absurd (ground arith)
short_form false p v short nz = short-ReadsAs p v (and_left _ _ short) (and_right _ _ short) nz

-- Every form that the table gives is read back.
pub shortest-ReadsAs :
    (indirect : Bool) (p : Pointer) (v : ℤ)
    → ReadsAs indirect p v (offset_bytes indirect p (shortest indirect v) v)
shortest-ReadsAs indirect p v = elim (Bool-cases (eqb_ℤ v (pos 0))) [
  | inl is_zero ↦
      let e : v ≡ pos 0 = eq_of_parts v (pos 0) ((==_iff _ _).0 is_zero) in
      rw e (zero-ReadsAs indirect p)
  | inr nz ↦ elim (Bool-cases (not indirect && leb_ℤ (negsuc 15) v && leb_ℤ v (pos 15))) [
    | inl short ↦ as_form off_5bit (rw (nz, short)) (short_form indirect p v short nz)
    | inr far ↦ elim (Bool-cases (leb_ℤ (negsuc 127) v && leb_ℤ v (pos 127))) [
      | inl near ↦ as_form off_8bit (rw (nz, far, near)) (
          byte-ReadsAs indirect p v far (and_left _ _ near)
            (and_right (leb_ℤ (negsuc 127) v) _ near) nz)
      | inr word ↦ as_form off_16bit (rw (nz, far, word)) (word-ReadsAs indirect p v far word nz)
    ]
  ]
]
  where
    as_form :
        (off : OffType)
        → shortest indirect v ≡ off
        → ReadsAs indirect p v (offset_bytes indirect p off v)
        → ReadsAs indirect p v (offset_bytes indirect p (shortest indirect v) v)
    as_form off e h = subst (λ o. ReadsAs indirect p v (offset_bytes indirect p o v)) (sym e) h
