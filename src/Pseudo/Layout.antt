-- ===== src/Pseudo/Layout.antt =====
-- ALIGN, RZB and FILL: the bytes that they emit, and the address behind them.
use mathlib.Core.Path.{subst}
use native.Mathlib.Nat.{add-mod-mod, mod-add-mod, mod_self, mod-lt}
use asm.Prelude.{
  ℕ, zero, suc, ◌+◌, ◌-◌, ◌%◌, ◌≤◌, ◌<◌, ◌≡◌, refl, sym, ap, ◌∙◌, List, [], ◌∷◌, ◌++◌, append-nil,
  append_assoc, arith, length, length-append, replicate,
}
use asm.Prelude.Int.{ℤ, pos, ◌+ℤ◌, int32, uint8}
use asm.Error.{Errors}
use asm.Node.{Node, node, int, array, cons, nil, Attr}
use asm.Section.{Asm, spans, section_emit_uint8}
use asm.Section.Emit.{image, writes}
use asm.Section.Emitted.{Fits}
use asm.Instr.Outcome.{Outcome, Outcome-uint8, Fits-le}
use asm.Pseudo.Address.{emit_times, align_count, pseudo_align}

-- Where nothing was emitted yet.
pc_still : (p : ℤ) (at : ℕ) → p ≡ pos at → at ≤ 65536 → p ≡ int32 (p +ℤ pos 0)
unfolding int32 ◌+ℤ◌
pc_still p at h small = ground arith

pub Outcome-nothing : (a : Asm) → Fits 0 a → a.cur.put < 4294967296 → Outcome [] a.errors a a
unfolding writes
Outcome-nothing a f small = record {
  emitted = record {
    image = sym (append-nil (image (spans a.cur)));
    put = omega (arith, small);
    pc = pc_still a.cur.pc f.at f.is_pc (omega (arith, f.below));
    dp = refl;
  };
  errors = refl;
}

pub emit_times-Outcome :
    (fill count : ℕ) {bs : List ℕ} {e : Errors} {a b : Asm}
    → Fits (length bs + count) a
    → Outcome bs e a b
    → Outcome (bs ++ replicate count fill) e a (emit_times fill count b)
unfolding emit_times
emit_times-Outcome fill zero {bs} {e} {a} {b} f o =
    subst (λ l. Outcome l e a b) (sym (append-nil bs)) o
emit_times-Outcome fill (suc count) {bs} {e} {a} {b} f o =
    subst (λ l. Outcome l e a (emit_times fill count (section_emit_uint8 fill b)))
      (append_assoc bs (fill ∷ []) (replicate count fill))
      (emit_times-Outcome fill count (Fits-le (omega (arith, length-append bs (fill ∷ []))) f)
        (Outcome-uint8 fill (Fits-le (omega arith) f) o))

aligned : (at align : ℕ) → 0 < align → (at + (align - at % align) % align) % align ≡ 0
aligned at align h =
    add-mod-mod at (align - at % align) align
    ∙ sym (mod-add-mod at align (align - at % align))
    ∙ ap (λ n. n % align) (omega (arith, mod-lt at h))
    ∙ mod_self align

align_count-pos :
    (pc : ℤ) (at align : ℕ) → pc ≡ pos at → align_count pc align ≡ (align - at % align) % align
unfolding align_count
align_count-pos pc at align h = rw h refl

-- The new address is the next multiple.
abbrev pub NextMultiple : ℕ → ℕ → ℕ → Type 0
NextMultiple align at next = (next % align ≡ 0) × (at ≤ next) × (next < at + align)

next_multiple :
    (pc : ℤ) (at align : ℕ)
    → pc ≡ pos at
    → 0 < align
    → NextMultiple align at (at + align_count pc align)
next_multiple pc at align h some_align = rw (align_count-pos pc at align h) (
  aligned at align some_align,
  omega arith,
  omega (arith, mod-lt (align - at % align) some_align),
)

module _ (align : ℕ) (fill : ℤ) (ar aq list_attr : Attr) (a : Asm) where
  -- ALIGN with a positive alignment and a fill value, assembled within memory, emits copies of the
  -- value and reports nothing, and the address behind them is the least multiple of the alignment
  -- that is not below the address before.
  pub pseudo_align-next :
      (float_to_int : ℕ → ℤ) (f : Fits (suc align) a)
      → a.cur.put < 4294967296
      → (count : ℕ) × Outcome (replicate count (uint8 fill)) a.errors a (
          pseudo_align float_to_int
            (node
              (array (cons (node (int (pos (suc align))) ar) (cons (node (int fill) aq) nil)))
              list_attr)
            a)
        × NextMultiple (suc align) f.at (f.at + count)
  unfolding pseudo_align emit_times
  pseudo_align-next float_to_int f small =
      let count = align_count a.cur.pc (suc align) in
      let next = next_multiple a.cur.pc f.at (suc align) f.is_pc (omega arith) in
      (
        count,
        emit_times-Outcome (uint8 fill) count (Fits-le (omega (arith, next.2)) f)
            (Outcome-nothing a (Fits-le (omega arith) f) small),
        next,
      )

abbrev pub one_arg : ℤ → Attr → Attr → Node
one_arg v attr list_attr = node (array (cons (node (int v) attr) nil)) list_attr

abbrev pub two_args : ℤ → ℤ → Attr → Attr → Attr → Node
two_args v w av aw list_attr =
    node (array (cons (node (int v) av) (cons (node (int w) aw) nil))) list_attr
