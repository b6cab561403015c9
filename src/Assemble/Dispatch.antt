-- ===== src/Assemble/Dispatch.antt =====
-- Which rows of the tables an instruction cannot be assembled from.
use mathlib.Core.List.{Memᴰ}
use asm.Prelude.{
  ◌≡◌, refl, ap, ◌∙◌, sym, Bool, true, false, not, if◌then◌else◌, ◌↔◌, arith, ◌&&◌, ◌||◌, ◌++◌, all,
  all-mem, all-append, and_left, and_right, Bool-cases, inl, inr,
}
use asm.Text.{Bytes, bytes, bytes_eq}
use asm.Register.{Isa, isa_6809, isa_6309}
use asm.Node.{Attr, attr_none, attr_immediate, same_attr}
use asm.Opcode.{Opcode, ext_type, has_mode}
use asm.Opcode.Mc6809.{memory_and_branches, accumulators, other_pages}
use asm.Opcode.Hd6309.{on_registers, on_w_and_bits, on_e_and_f}
use asm.Opcode.Tables.{opcodes_6809, opcodes_6309, rows_of}
use asm.Assemble.Instruction.{Encoder, no_encoder, encoder_of}

abbrev is_encoder : Encoder → Bool
is_encoder no_encoder = false
is_encoder _ = true

-- The instructions that have an immediate byte for their only operand.
abbrev pub immediate_only : Bytes → Bool
immediate_only name =
    bytes_eq (bytes "orcc") name
    || bytes_eq (bytes "andcc") name
    || bytes_eq (bytes "cwai") name
    || bytes_eq (bytes "bitmd") name
    || bytes_eq (bytes "ldmd") name

-- A row has an encoder for an immediate argument, and has one for any other unless it is one of those.
abbrev same : Bool → Bool → Bool
same a b = if a then b else not b

unfoldable usable : Opcode → Bool
unfolding encoder_of ext_type has_mode same_attr
usable op =
    is_encoder (encoder_of op attr_immediate)
    && same (is_encoder (encoder_of op attr_none)) (not (immediate_only op.op))

usable-memory : all usable memory_and_branches ≡ true
unfolding usable
usable-memory = refl

usable-accumulators : all usable accumulators ≡ true
unfolding usable
usable-accumulators = refl

usable-other_pages : all usable other_pages ≡ true
unfolding usable
usable-other_pages = refl

usable-on_registers : all usable on_registers ≡ true
unfolding usable
usable-on_registers = refl

usable-on_w_and_bits : all usable on_w_and_bits ≡ true
unfolding usable
usable-on_w_and_bits = refl

usable-on_e_and_f : all usable on_e_and_f ≡ true
unfolding usable
usable-on_e_and_f = refl

usable-opcodes_6809 : all usable opcodes_6809 ≡ true
usable-opcodes_6809 =
    all-append usable memory_and_branches (accumulators ++ other_pages) usable-memory
      (all-append usable accumulators other_pages usable-accumulators usable-other_pages)

usable-rows_of : (isa : Isa) → all usable (rows_of isa) ≡ true
usable-rows_of isa_6809 = usable-opcodes_6809
usable-rows_of isa_6309 =
    all-append usable opcodes_6309 opcodes_6809
      (all-append usable on_registers (on_w_and_bits ++ on_e_and_f) usable-on_registers
        (all-append usable on_w_and_bits on_e_and_f usable-on_w_and_bits usable-on_e_and_f))
      usable-opcodes_6809

-- The attribute counts as immediate or not.
encoder_of-attr :
    (op : Opcode) (a b : Attr)
    → same_attr a attr_immediate ≡ same_attr b attr_immediate
    → encoder_of op a ≡ encoder_of op b
unfolding encoder_of
encoder_of-attr op a b h = rw h refl

usable-parts :
    (op : Opcode)
    → usable op ≡ true
    → is_encoder (encoder_of op attr_immediate)
        && same (is_encoder (encoder_of op attr_none)) (not (immediate_only op.op))
      ≡ true
unfolding usable
usable-parts op h = h

same-eq : (a b : Bool) → same a b ≡ true → a ≡ b
same-eq a b h = ground arith

is_encoder-no_encoder : (e : Encoder) → is_encoder e ≡ false → e ≡ no_encoder
is_encoder-no_encoder no_encoder h = refl
is_encoder-no_encoder _ h = cc

-- the rows and arguments without an encoder
abbrev pub not_encoded : Opcode → Attr → Bool
unfolding same_attr
not_encoded op attr = immediate_only op.op && not (same_attr attr attr_immediate)

is_encoder-encoder_of :
    (op : Opcode) (attr : Attr)
    → usable op ≡ true
    → is_encoder (encoder_of op attr) ≡ not (not_encoded op attr)
unfolding same_attr
is_encoder-encoder_of op attr h =
    let parts = usable-parts op h in
    elim (Bool-cases (same_attr attr attr_immediate)) [
      | inl t ↦
          ap is_encoder (encoder_of-attr op attr attr_immediate t)
          ∙ and_left (is_encoder (encoder_of op attr_immediate)) _ parts
          ∙ immediate (immediate_only op.op) _ t
      | inr f ↦
          ap is_encoder (encoder_of-attr op attr attr_none f)
          ∙ same-eq _ _ (and_right (is_encoder (encoder_of op attr_immediate)) _ parts)
          ∙ other (immediate_only op.op) _ f
    ]
  where
    immediate : (b c : Bool) → c ≡ true → true ≡ not (b && not c)
    immediate b c h = ground (arith, h)

    other : (b c : Bool) → c ≡ false → not b ≡ not (b && not c)
    other b c h = ground (arith, h)

-- Of all rows of both instruction sets, no encoder is chosen exactly for ORCC, ANDCC, CWAI, BITMD and
-- LDMD with a first argument that is not written as immediate; every other row, and these with an
-- immediate argument, is handed to an encoder.
pub encoder_of-no_encoder :
    (isa : Isa) (op : Opcode) (attr : Attr)
    → Memᴰ op (rows_of isa)
    → (encoder_of op attr ≡ no_encoder) ↔ (not_encoded op attr ≡ true)
encoder_of-no_encoder isa op attr m =
    let key =
      is_encoder-encoder_of op attr (all-mem usable (rows_of isa) op (usable-rows_of isa) m) in
    (
      λ h. flipped (not_encoded op attr) (sym key ∙ ap is_encoder h),
      λ h. is_encoder-no_encoder (encoder_of op attr) (key ∙ ap not h),
    )
  where
    flipped : (b : Bool) → not b ≡ false → b ≡ true
    flipped b h = ground arith
