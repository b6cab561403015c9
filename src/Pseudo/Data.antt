-- ===== src/Pseudo/Data.antt =====
-- FCB, FCC, FCV, FCI, FCN, FCS, FDB and FQB: data in the order of the arguments.
pub mod Readback
use asm.Prelude.{
  ℕ, suc, ◌+◌, ◌%◌, bit_or, Bool, true, false, Option, none, some, List, [], ◌∷◌, ltb,
  if◌then◌else◌,
}
use asm.Prelude.Int.{ℤ, pos, uint8, uint16, uint32}
use asm.Text.{Bytes}
use asm.Error.{syntax}
use asm.Node.{Node, undef, node, empty, int, float, string}
use asm.Section.{
  Asm, section_emit_pad, section_emit_uint8, section_emit_uint16, section_emit_uint32,
}
use asm.Instr.{complain}
use asm.Pseudo.{verify_num_args, have_int_optional}
use asm.Pseudo.Vdg.{ascii_to_vdg}

-- enum translate
pub data Translate : Type 0 where
  translate_none translate_basic_keyword translate_vdg translate_inverse_vdg : Translate

abbrev pub or_last : Translate → ℕ
or_last translate_basic_keyword = 0x80
or_last _ = 0

-- The code of one character, after the bit of the last.
abbrev pub to_vdg : Translate → ℕ → ℕ
to_vdg translate_vdg cc = ascii_to_vdg cc false
to_vdg translate_inverse_vdg cc = ascii_to_vdg cc true
to_vdg _ cc = cc

abbrev pub emit_string : Translate → Bytes → Asm → Asm
emit_string mode [] a = a
emit_string mode (c ∷ []) a = section_emit_uint8 (to_vdg mode (bit_or c (or_last mode))) a
emit_string mode (c ∷ d ∷ s) a = emit_string mode (d ∷ s) (section_emit_uint8 (to_vdg mode c) a)

module _ (float_to_int float_to_int32 : ℕ → ℤ) where
  unfoldable pub emit_formatted : Translate → Node → Asm → Asm
  emit_formatted mode undef a = section_emit_pad 1 a
  emit_formatted mode (node empty attr) a = section_emit_uint8 0 a
  emit_formatted mode (node (int v) attr) a = section_emit_uint8 (bit_or (uint8 v) (or_last mode)) a
  emit_formatted mode (node (float v) attr) a =
      section_emit_uint8 (bit_or (uint8 (float_to_int32 v)) (or_last mode)) a
  emit_formatted mode (node (string s) attr) a = emit_string mode s a
  emit_formatted mode _ a =
      complain syntax "argument %d of '%s' invalid: expected string or integer value" a

  abbrev pub emit_all : Translate → List Node → Asm → Asm
  unfolding emit_formatted
  emit_all mode [] a = a
  emit_all mode (n ∷ args) a = emit_all mode args (emit_formatted mode n a)

  unfoldable pub pseudo_fcb : Node → Asm → Asm
  pseudo_fcb args a = verify_num_args 1 none (emit_all translate_none) args a

  unfoldable pub pseudo_fcc : Node → Asm → Asm
  pseudo_fcc args a = verify_num_args 1 none (emit_all translate_none) args a

  unfoldable pub pseudo_fcv : Node → Asm → Asm
  pseudo_fcv args a = verify_num_args 1 none (emit_all translate_vdg) args a

  unfoldable pub pseudo_fci : Node → Asm → Asm
  pseudo_fci args a = verify_num_args 1 none (emit_all translate_inverse_vdg) args a

  unfoldable pub pseudo_fcn : Node → Asm → Asm
  pseudo_fcn args a =
      verify_num_args 1 none (λ l b. section_emit_uint8 0 (emit_all translate_none l b)) args a

  unfoldable pub pseudo_fcs : Node → Asm → Asm
  pseudo_fcs args a = verify_num_args 1 none (emit_all translate_basic_keyword) args a

  abbrev pub emit_words : List Node → Asm → Asm
  emit_words [] a = a
  emit_words (n ∷ args) a =
      let (word, b) = have_int_optional float_to_int (n ∷ args) (pos 0) a in
      emit_words args (section_emit_uint16 (uint16 word) b)

  unfoldable pub pseudo_fdb : Node → Asm → Asm
  pseudo_fdb args a = verify_num_args 1 none emit_words args a

  abbrev pub emit_quads : List Node → Asm → Asm
  emit_quads [] a = a
  emit_quads (n ∷ args) a =
      let (word, b) = have_int_optional float_to_int (n ∷ args) (pos 0) a in
      emit_quads args (section_emit_uint32 (uint32 word) b)

  unfoldable pub pseudo_fqb : Node → Asm → Asm
  pseudo_fqb args a = verify_num_args 1 none emit_quads args a
