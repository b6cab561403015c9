-- ===== src/Register.antt =====
-- src/register.c and src/register.h: register names, and the tables that the encoders index.
pub mod Names
use asm.Prelude.{ℕ, String, Bool, Option, none, some, List, [], ◌∷◌, ◌==◌, if◌then◌else◌}
use asm.Prelude.Int.{ℤ, pos, negsuc}
use asm.Text.{Bytes, bytes, strcasecmp_eq}

-- enum reg_id, without REG_INVALID, which is `none` of an `Option RegId`
pub data RegId : Type 0 where
  reg_cc reg_a reg_b reg_dp reg_x reg_y reg_u reg_s reg_pc reg_d : RegId
  reg_pcr : RegId
  reg_e reg_f reg_w reg_q reg_v : RegId

abbrev pub reg_num : RegId → ℕ
reg_num reg_cc = 0
reg_num reg_a = 1
reg_num reg_b = 2
reg_num reg_dp = 3
reg_num reg_x = 4
reg_num reg_y = 5
reg_num reg_u = 6
reg_num reg_s = 7
reg_num reg_pc = 8
reg_num reg_d = 9
reg_num reg_pcr = 10
reg_num reg_e = 11
reg_num reg_f = 12
reg_num reg_w = 13
reg_num reg_q = 14
reg_num reg_v = 15

-- `==` on reg_id
unfoldable pub same_reg : RegId → RegId → Bool
same_reg r q = reg_num r == reg_num q

-- enum asm6809_isa
pub data Isa : Type 0 where
  isa_6809 isa_6309 : Isa

-- struct reg_info
pub record RegInfo : Type 0 where
  pub name : Bytes
  pub id : RegId

abbrev reg_info : String → RegId → RegInfo
reg_info name id = record { name = bytes name; id = id }

unfoldable pub registers_6809 : List RegInfo
registers_6809 =
    reg_info "cc" reg_cc
    ∷ reg_info "a" reg_a
    ∷ reg_info "b" reg_b
    ∷ reg_info "dp" reg_dp
    ∷ reg_info "x" reg_x
    ∷ reg_info "y" reg_y
    ∷ reg_info "u" reg_u
    ∷ reg_info "s" reg_s
    ∷ reg_info "pc" reg_pc
    ∷ reg_info "d" reg_d
    ∷ reg_info "pcr" reg_pcr
    ∷ []

unfoldable pub registers_6309 : List RegInfo
registers_6309 =
    reg_info "e" reg_e
    ∷ reg_info "f" reg_f
    ∷ reg_info "w" reg_w
    ∷ reg_info "q" reg_q
    ∷ reg_info "v" reg_v
    ∷ []

-- int8_t const reg_tfr_size[REG_MAX]; -1 is invalid
unfoldable pub reg_tfr_size : RegId → ℤ
reg_tfr_size reg_cc = pos 8
reg_tfr_size reg_a = pos 8
reg_tfr_size reg_b = pos 8
reg_tfr_size reg_dp = pos 8
reg_tfr_size reg_x = pos 16
reg_tfr_size reg_y = pos 16
reg_tfr_size reg_u = pos 16
reg_tfr_size reg_s = pos 16
reg_tfr_size reg_pc = pos 16
reg_tfr_size reg_d = pos 16
reg_tfr_size reg_pcr = negsuc 0
reg_tfr_size reg_e = pos 8
reg_tfr_size reg_f = pos 8
reg_tfr_size reg_w = pos 16
reg_tfr_size reg_q = pos 32
reg_tfr_size reg_v = pos 16

-- int8_t const reg_tfr_nibble[REG_MAX]; -1 is invalid
unfoldable pub reg_tfr_nibble : RegId → ℤ
reg_tfr_nibble reg_cc = pos 0x0a
reg_tfr_nibble reg_a = pos 0x08
reg_tfr_nibble reg_b = pos 0x09
reg_tfr_nibble reg_dp = pos 0x0b
reg_tfr_nibble reg_x = pos 0x01
reg_tfr_nibble reg_y = pos 0x02
reg_tfr_nibble reg_u = pos 0x03
reg_tfr_nibble reg_s = pos 0x04
reg_tfr_nibble reg_pc = pos 0x05
reg_tfr_nibble reg_d = pos 0x00
reg_tfr_nibble reg_pcr = negsuc 0
reg_tfr_nibble reg_e = pos 0x0e
reg_tfr_nibble reg_f = pos 0x0f
reg_tfr_nibble reg_w = pos 0x06
reg_tfr_nibble reg_q = negsuc 0
reg_tfr_nibble reg_v = pos 0x07

-- uint8_t const reg_stack_bit[REG_MAX]; 0 is invalid
unfoldable pub reg_stack_bit : RegId → ℕ
reg_stack_bit reg_cc = 0x01
reg_stack_bit reg_a = 0x02
reg_stack_bit reg_b = 0x04
reg_stack_bit reg_dp = 0x08
reg_stack_bit reg_x = 0x10
reg_stack_bit reg_y = 0x20
reg_stack_bit reg_u = 0x40
reg_stack_bit reg_s = 0x40
reg_stack_bit reg_pc = 0x80
reg_stack_bit reg_d = 0x06
reg_stack_bit _ = 0

-- The loops over a table: the first entry with the name, the first entry with the id.
pub find_name : Bytes → List RegInfo → Option RegId
find_name name [] = none
find_name name (info ∷ table) =
    if strcasecmp_eq name info.name then some info.id else find_name name table

pub find_id : RegId → List RegInfo → Option Bytes
find_id id [] = none
find_id id (info ∷ table) = if same_reg id info.id then some info.name else find_id id table

abbrev pub or_else {ℓ} : {A : Type ℓ} → Option A → Option A → Option A
or_else none other = other
or_else (some a) other = some a

-- The 6309 case falls through to that of the 6809.
unfoldable pub reg_name_to_id : Isa → Bytes → Option RegId
unfolding find_name registers_6809 registers_6309
reg_name_to_id isa_6309 name =
    or_else (find_name name registers_6309) (find_name name registers_6809)
reg_name_to_id isa_6809 name = find_name name registers_6809

unfoldable pub reg_id_to_name : Isa → RegId → Option Bytes
unfolding find_id same_reg registers_6809 registers_6309
reg_id_to_name isa_6309 id = or_else (find_id id registers_6309) (find_id id registers_6809)
reg_id_to_name isa_6809 id = find_id id registers_6809
