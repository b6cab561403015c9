-- ===== src/Instr/Indexed/Modes.antt =====
-- The table of indexed modes, and off_type_compatible, which tests an offset for a row.
use asm.Prelude.{ℕ, Bool, true, false, ◌&&◌, List, [], ◌∷◌, if◌then◌else◌}
use asm.Prelude.Int.{ℤ, pos, negsuc, ◌+ℤ◌, ◌-ℤ◌, int32, int64, leb_ℤ, eqb_ℤ}
use asm.Register.{RegId, reg_a, reg_b, reg_d, reg_e, reg_f, reg_w}
use asm.Node.{
  Node, node, Content, empty, int, reg, Attr, attr_none, attr_5bit, attr_8bit, attr_16bit,
  attr_postinc, attr_postinc2, attr_predec, attr_predec2,
}
use asm.Instr.Rel.{to_rel16}

-- enum off_type
pub data OffType : Type 0 where
  off_none off_zero off_5bit off_8bit off_16bit : OffType
  off_reg_a off_reg_b off_reg_d off_reg_e off_reg_f off_reg_w : OffType

-- enum idx_type
pub data IdxType : Type 0 where
  idx_xyus idx_pcr idx_w : IdxType

abbrev pub idx_num : IdxType → ℕ
idx_num idx_xyus = 0
idx_num idx_pcr = 1
idx_num idx_w = 2

-- enum idx_indirect
pub data Indirect : Type 0 where
  indirect_ok indirect_ok_6309 indirect_impossible indirect_illegal : Indirect

abbrev pub is_impossible : Indirect → Bool
is_impossible indirect_impossible = true
is_impossible _ = false

pub record Mode : Type 0 where
  pub idx_type : IdxType
  pub idx_attr : Attr
  pub off_type : OffType
  pub postbyte : ℕ
  pub idx_indirect : Indirect

abbrev mode : IdxType → Attr → OffType → ℕ → Indirect → Mode
mode idx attr off byte ind = record {
  idx_type = idx;
  idx_attr = attr;
  off_type = off;
  postbyte = byte;
  idx_indirect = ind;
}

unfoldable pub indexed_modes : List Mode
indexed_modes =
    mode idx_xyus attr_none off_zero 0x84 indirect_ok
    ∷ mode idx_xyus attr_none off_5bit 0x00 indirect_impossible
    ∷ mode idx_xyus attr_none off_8bit 0x88 indirect_ok
    ∷ mode idx_xyus attr_none off_16bit 0x89 indirect_ok
    ∷ mode idx_xyus attr_none off_reg_a 0x86 indirect_ok
    ∷ mode idx_xyus attr_none off_reg_b 0x85 indirect_ok
    ∷ mode idx_xyus attr_none off_reg_d 0x8b indirect_ok
    ∷ mode idx_xyus attr_postinc off_none 0x80 indirect_illegal
    ∷ mode idx_xyus attr_postinc off_zero 0x80 indirect_illegal
    ∷ mode idx_xyus attr_postinc2 off_none 0x81 indirect_ok
    ∷ mode idx_xyus attr_postinc2 off_zero 0x81 indirect_ok
    ∷ mode idx_xyus attr_predec off_none 0x82 indirect_illegal
    ∷ mode idx_xyus attr_predec2 off_none 0x83 indirect_ok
    ∷ mode idx_pcr attr_none off_8bit 0x8c indirect_ok
    ∷ mode idx_pcr attr_none off_16bit 0x8d indirect_ok
    ∷ mode idx_xyus attr_none off_reg_e 0x87 indirect_ok
    ∷ mode idx_xyus attr_none off_reg_f 0x8a indirect_ok
    ∷ mode idx_xyus attr_none off_reg_w 0x8e indirect_ok
    ∷ mode idx_w attr_none off_none 0x8f indirect_ok_6309
    ∷ mode idx_w attr_none off_16bit 0xaf indirect_ok_6309
    ∷ mode idx_w attr_postinc2 off_none 0xcf indirect_ok_6309
    ∷ mode idx_w attr_predec2 off_none 0xef indirect_ok_6309
    ∷ []

abbrev pub is_off_5bit : OffType → Bool
is_off_5bit off_5bit = true
is_off_5bit _ = false

abbrev pub is_off_8bit : OffType → Bool
is_off_8bit off_8bit = true
is_off_8bit _ = false

abbrev pub is_off_16bit : OffType → Bool
is_off_16bit off_16bit = true
is_off_16bit _ = false

-- The second `switch` of off_type_compatible, for an argument without an attribute. `pc` is the
-- program counter of the current section, `pcr` selects offsets from it.
abbrev int_compatible : OffType → Bool → ℤ → ℤ → Bool
int_compatible off_zero pcr pc v = eqb_ℤ v (pos 0)
int_compatible off_5bit pcr pc v = leb_ℤ (negsuc 15) v && leb_ℤ v (pos 15)
int_compatible off_8bit pcr pc v =
    let v' = if pcr then to_rel16 (int64 (v -ℤ int32 (pc +ℤ pos 2))) else v in
    leb_ℤ (negsuc 127) v' && leb_ℤ v' (pos 127)
int_compatible off_16bit pcr pc v = true
int_compatible _ pcr pc v = false

abbrev empty_compatible : OffType → Bool
empty_compatible off_none = true
empty_compatible off_zero = true
empty_compatible off_5bit = true
empty_compatible off_8bit = true
empty_compatible off_16bit = true
empty_compatible _ = false

abbrev reg_compatible : OffType → RegId → Bool
reg_compatible off_reg_a reg_a = true
reg_compatible off_reg_b reg_b = true
reg_compatible off_reg_d reg_d = true
reg_compatible off_reg_e reg_e = true
reg_compatible off_reg_f reg_f = true
reg_compatible off_reg_w reg_w = true
reg_compatible _ _ = false

abbrev content_compatible : OffType → Bool → ℤ → Content → Bool
content_compatible off pcr pc (int v) = int_compatible off pcr pc v
content_compatible off pcr pc empty = empty_compatible off
content_compatible off pcr pc (reg r) = reg_compatible off r
content_compatible off pcr pc _ = false

unfoldable pub off_type_compatible : OffType → Bool → ℤ → Node → Bool
off_type_compatible off pcr pc (node c attr_none) = content_compatible off pcr pc c
off_type_compatible off pcr pc (node c attr_5bit) = is_off_5bit off
off_type_compatible off pcr pc (node c attr_8bit) = is_off_8bit off
off_type_compatible off pcr pc (node c attr_16bit) = is_off_16bit off
off_type_compatible off pcr pc _ = false
