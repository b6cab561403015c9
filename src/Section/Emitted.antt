-- ===== src/Section/Emitted.antt =====
-- The effect of an emission on the current section, and how effects compose.
use asm.Prelude.{
  ℕ, ◌+◌, ◌%◌, ◌/◌, ◌≤◌, ◌≡◌, sym, ◌∙◌, ap, List, [], ◌∷◌, ◌++◌, append_assoc, arith, length,
  length-append, replicate,
}
use asm.Prelude.Int.{ℤ, pos, ◌+ℤ◌, int32, int32_add}
use native.Mathlib.Nat.{add_assoc}
use asm.Error.{Errors}
use asm.Section.{
  Asm, spans, choose_span, append_bytes, section_emit, section_emit_pad, section_emit_op, op_bytes,
  section_emit_uint8, section_emit_uint16, check_negative, check_beyond,
}
use asm.Section.Emit.{writes, writes-append, writes-put, image, image-section_emit}

-- From `a` to `b` the bytes `bs` were emitted, and only they.
pub record Emitted (bs : List ℕ) (a b : Asm) : Type 0 where
  pub image : image (spans b.cur) ≡ image (spans a.cur) ++ writes a.cur.put bs
  pub put : b.cur.put ≡ (a.cur.put + length bs) % 4294967296
  pub pc : b.cur.pc ≡ int32 (a.cur.pc +ℤ pos (length bs))
  pub dp : b.cur.dp ≡ a.cur.dp

-- The program counter stays within the addressable memory.
pub record Fits (n : ℕ) (a : Asm) : Type 0 where
  pub at : ℕ
  pub is_pc : a.cur.pc ≡ pos at
  pub below : at + n ≤ 65536

pub Emitted-append :
    {xs ys : List ℕ} {a b c : Asm} → Emitted xs a b → Emitted ys b c → Emitted (xs ++ ys) a c
Emitted-append {xs} {ys} {a} {b} {c} f g = record {
  image =
      g.image
      ∙ ap (λ t. t ++ writes b.cur.put ys) f.image
      ∙ append_assoc (image (spans a.cur)) (writes a.cur.put xs) (writes b.cur.put ys)
      ∙ ap (λ t. image (spans a.cur) ++ t)
          (ap (λ t. writes a.cur.put xs ++ t)
              (writes-put b.cur.put (a.cur.put + length xs) ys (omega (arith, f.put)))
            ∙ sym (writes-append a.cur.put xs ys));
  put = omega (arith, f.put, g.put, length-append xs ys);
  pc =
      g.pc
      ∙ ap (λ p. int32 (p +ℤ pos (length ys))) f.pc
      ∙ int32_add a.cur.pc (length xs) (length ys)
      ∙ ap (λ n. int32 (a.cur.pc +ℤ pos n)) (sym (length-append xs ys));
  dp = g.dp ∙ f.dp;
}

pub Emitted-section_emit : (buf : List ℕ) (a : Asm) → Emitted buf a (section_emit buf a)
unfolding section_emit append_bytes choose_span
Emitted-section_emit buf a = record {
  image = image-section_emit buf a;
  put = ground arith;
  pc = ground arith;
  dp = ground arith;
}

pub Emitted-pad : (n : ℕ) (a : Asm) → Emitted (replicate n 0) a (section_emit_pad n a)
unfolding section_emit_pad
Emitted-pad n a = Emitted-section_emit (replicate n 0) a

pub Emitted-op : (op : ℕ) (a : Asm) → Emitted (op_bytes op) a (section_emit_op op a)
unfolding section_emit_op
Emitted-op op a = Emitted-section_emit (op_bytes op) a

pub Emitted-uint8 : (v : ℕ) (a : Asm) → Emitted (v ∷ []) a (section_emit_uint8 v a)
unfolding section_emit_uint8
Emitted-uint8 v a = Emitted-section_emit (v ∷ []) a

pub Emitted-uint16 :
    (v : ℕ) (a : Asm) → Emitted (v / 256 ∷ v % 256 ∷ []) a (section_emit_uint16 v a)
unfolding section_emit_uint16
Emitted-uint16 v a = Emitted-section_emit (v / 256 ∷ v % 256 ∷ []) a

choose_span-errors :
    (a : Asm) → ((choose_span a).errors ≡ a.errors) × ((choose_span a).cur.pc ≡ a.cur.pc)
unfolding choose_span
choose_span-errors a = ground arith

checks_quiet :
    (p : ℤ) (n at : ℕ) (e : Errors)
    → p ≡ pos at
    → at + n ≤ 65536
    → check_beyond (int32 (p +ℤ pos n)) (check_negative p e) ≡ e
unfolding check_beyond check_negative int32 ◌+ℤ◌
checks_quiet p n at e h below = ground arith

pc_after :
    (p q : ℤ) (n at : ℕ) → p ≡ pos at → q ≡ int32 (p +ℤ pos n) → at + n ≤ 65536 → q ≡ pos (at + n)
unfolding int32 ◌+ℤ◌
pc_after p q n at h e below = ground arith

-- Where the program counter stays within memory, an emission reports nothing.
pub section_emit-errors :
    (buf : List ℕ) (a : Asm) → Fits (length buf) a → (section_emit buf a).errors ≡ a.errors
unfolding section_emit append_bytes
section_emit-errors buf a f =
    let (same_errors, same_pc) = choose_span-errors a in
    rw (same_errors, same_pc) (checks_quiet a.cur.pc (length buf) f.at a.errors f.is_pc f.below)

pub pc-Emitted :
    {bs : List ℕ} {a b : Asm} (n : ℕ)
    → Emitted bs a b
    → (f : Fits (length bs + n) a) → b.cur.pc ≡ pos (f.at + length bs)
pc-Emitted {bs} {a} {b} n e f =
    pc_after a.cur.pc b.cur.pc (length bs) f.at f.is_pc e.pc (omega (arith, f.below))

abbrev pub Fits-Emitted :
    {bs : List ℕ} {a b : Asm} (n : ℕ) → Emitted bs a b → Fits (length bs + n) a → Fits n b
Fits-Emitted {bs} {a} {b} n e f = record {
  at = f.at + length bs;
  is_pc = pc-Emitted n e f;
  below = rw add_assoc f.below;
}
