-- ===== src/Instr/Address/Reach.antt =====
-- A plain address is read back from the bytes of the direct or the extended form.
use mathlib.Core.Path.{subst}
use asm.Prelude.{
  ℕ, ◌+◌, ◌*◌, ◌/◌, ◌%◌, ◌≤◌, ◌≡◌, ◌≢◌, refl, sym, ◌⊎◌, inl, inr, true, List, [], ◌∷◌, ◌++◌,
  append-nil, length-append, arith, length, ◌==◌, ==_iff, Bool-cases,
}
use asm.Prelude.Int.{ℤ, pos, negsuc, uint8, uint16}
use asm.Error.{Errors}
use asm.Node.{node, int, array, nil, cons, Attr, attr_none, same_attr}
use asm.Opcode.{Opcode, has_mode, opcode_direct, opcode_extended}
use asm.Eval.{eval_int}
use asm.Section.{Asm, op_bytes, section_emit_op}
use asm.Section.Emitted.{Fits}
use asm.Instr.Outcome.{Outcome, Outcome-op, Outcome-uint8, Outcome-uint16, Fits-le}
use asm.Instr.Indexed.{emit_imm8}
use asm.Instr.Address.{instr_address}

-- the 8-bit operand of a 6309 instruction between opcode and address
abbrev pub imm8_bytes : ℤ → List ℕ
imm8_bytes (pos v) = uint8 (pos v) ∷ []
imm8_bytes (negsuc v) = []

Outcome-imm8 :
    {bs : List ℕ} {e : Errors} {a b : Asm} (imm8 : ℤ)
    → Fits (length bs + 1) a
    → Outcome bs e a b
    → Outcome (bs ++ imm8_bytes imm8) e a (emit_imm8 imm8 b)
Outcome-imm8 (pos v) f o = Outcome-uint8 _ f o
Outcome-imm8 {bs} {e} {a} {b} (negsuc v) f o = subst (λ l. Outcome l e a b) (sym (append-nil bs)) o

op_bytes-le : (op : ℕ) → length (op_bytes op) ≤ 2
unfolding op_bytes
op_bytes-le op = ground arith

imm8_bytes-le : (imm8 : ℤ) → length (imm8_bytes imm8) ≤ 1
imm8_bytes-le imm8 = ground arith

-- The bytes before the address.
abbrev pub prefix_bytes : ℕ → ℤ → List ℕ
prefix_bytes op imm8 = op_bytes op ++ imm8_bytes imm8

prefix_bytes-le : (op : ℕ) (imm8 : ℤ) → length (prefix_bytes op imm8) ≤ 3
prefix_bytes-le op imm8 =
    omega (arith, length-append (op_bytes op) (imm8_bytes imm8), op_bytes-le op, imm8_bytes-le imm8)

module _ (op : Opcode) (v imm8 : ℤ) (list_attr : Attr) (a : Asm) (f : Fits 5 a) where
  prefix-Outcome :
      (code : ℕ)
      → Outcome (prefix_bytes code imm8) a.errors a (emit_imm8 imm8 (section_emit_op code a))
  prefix-Outcome code =
      Outcome-imm8 imm8 (Fits-le (omega (arith, op_bytes-le code)) f)
        (Outcome-op code (Fits-le (omega (arith, op_bytes-le code)) f))

  -- An instruction with a direct and an extended form, given a plain address and assembled within
  -- memory, reports nothing. Where the page of the address, modulo 65536, is the assumed direct page
  -- it emits the direct form, whose byte in that page is the address; elsewhere the extended form,
  -- whose two bytes are the address.
  pub instr_address-reach :
      (float_to_int : ℕ → ℤ)
      → has_mode opcode_direct op ≡ true
      → has_mode opcode_extended op ≡ true
      → (bytes : List ℕ) × Outcome bytes a.errors a (
          instr_address float_to_int op
            (node (array (cons (node (int v) attr_none) nil)) list_attr)
            imm8
            a)
        × (((a.cur.dp ≡ uint16 v / 256)
              × (b : ℕ) × (bytes ≡ prefix_bytes op.direct imm8 ++ b ∷ [])
              × (a.cur.dp * 256 + b ≡ uint16 v))
            ⊎ ((a.cur.dp ≢ uint16 v / 256)
                × (hi : ℕ) × (lo : ℕ) × (bytes ≡ prefix_bytes op.extended imm8 ++ hi ∷ lo ∷ [])
                × (hi * 256 + lo ≡ uint16 v)))
  unfolding instr_address eval_int same_attr
  instr_address-reach float_to_int d e = elim (Bool-cases (a.cur.dp == uint16 v / 256)) [
    | inl here ↦
        let page = (==_iff a.cur.dp (uint16 v / 256)).0 here in
        rw (d, here)
          (
            prefix_bytes op.direct imm8 ++ uint16 v % 256 ∷ [],
            Outcome-uint8 _ (Fits-le (omega (arith, prefix_bytes-le op.direct imm8)) f)
                (prefix-Outcome op.direct),
            inl (page, uint16 v % 256, refl, omega (arith, page)),
          )
    | inr away ↦
        rw (d, away, e)
          (
            prefix_bytes op.extended imm8 ++ uint16 v % 65536 / 256 ∷ uint16 v % 65536 % 256 ∷ [],
            Outcome-uint16 _ (Fits-le (omega (arith, prefix_bytes-le op.extended imm8)) f)
                (prefix-Outcome op.extended),
            inr (
              λ page. cc ((==_iff a.cur.dp (uint16 v / 256)).1 page),
              uint16 v % 65536 / 256,
              uint16 v % 65536 % 256,
              refl,
              in_word v,
            ),
          )
  ]
    where
      in_word : (z : ℤ) → uint16 z % 65536 / 256 * 256 + uint16 z % 65536 % 256 ≡ uint16 z
      in_word z = ground arith
