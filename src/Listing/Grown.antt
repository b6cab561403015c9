-- ===== src/Listing/Grown.antt =====
-- Where the bytes of calls of section_emit go: behind those of one span.
use mathlib.Core.Path.{subst}
use asm.Prelude.{
  ℕ, ◌+◌, ◌%◌, ◌≤◌, ◌≡◌, refl, sym, ap, ◌∙◌, Bool-cases, inl, inr, Option, none, some, List, [],
  ◌∷◌, ◌++◌, arith, length, length-append, append-nil, append_assoc, and_left, ◌==◌, ==_iff,
  and_right, true,
}
use asm.Prelude.Int.{ℤ, pos, ◌+ℤ◌, int32, int32_add, eqb_ℤ, eq_of_parts}
use asm.Section.{
  Span, Asm, size, spans, open_new, choose_span, choose_from, append_bytes, section_emit, next_put,
  next_pc, continues, section_span_new, write_span, map_option,
}

-- The span that is chosen ends at the current addresses.
record Reaching (a b : Asm) : Type 0 where
  span : Span
  is_current : b.cur.span ≡ some span
  same_pc : b.cur.pc ≡ a.cur.pc
  same_put : b.cur.put ≡ a.cur.put
  ends_at : int32 (span.org +ℤ pos (size span)) ≡ a.cur.pc
  ends_put : (span.put + size span) % 4294967296 ≡ a.cur.put % 4294967296

end_of_empty : (p : ℤ) (at n : ℕ) → p ≡ pos at → at ≤ 65536 → n ≡ 0 → int32 (p +ℤ pos n) ≡ p
unfolding int32 ◌+ℤ◌
end_of_empty p at n e h z = ground arith

same_ℤ : (a b : ℤ) → eqb_ℤ a b ≡ true → b ≡ a
same_ℤ a b h = sym (eq_of_parts a b ((==_iff _ _).0 h))

new-Reaching :
    (closed : List Span) (a : Asm) (at : ℕ)
    → a.cur.pc ≡ pos at
    → at ≤ 65536
    → Reaching a (open_new closed a)
new-Reaching closed a at p h = record {
  span = section_span_new a;
  is_current = refl;
  same_pc = refl;
  same_put = refl;
  ends_at = end_of_empty a.cur.pc at 0 p h refl;
  ends_put = omega arith;
}

choose_from-Reaching :
    (o : Option Span) (a : Asm) (at : ℕ)
    → a.cur.span ≡ o
    → a.cur.pc ≡ pos at
    → at ≤ 65536
    → Reaching a (choose_from o a)
choose_from-Reaching none a at e p h = new-Reaching (spans a.cur) a at p h
choose_from-Reaching (some span) a at e p h = elim (Bool-cases (continues a.cur span)) [
  | inl on ↦ rw on (record {
    span = span;
    is_current = e;
    same_pc = refl;
    same_put = refl;
    ends_at =
        same_ℤ a.cur.pc (next_pc span)
          (and_right (a.cur.put == next_put span) (eqb_ℤ a.cur.pc (next_pc span)) on);
    ends_put = omega (arith, (==_iff _ _).0 (and_left (a.cur.put == next_put span) _ on));
  })
  | inr off ↦ elim (Bool-cases (size span == 0)) [
    | inl zero_size ↦
        rw (off, zero_size)
          (record {
            span = record span { put = a.cur.put; org = a.cur.pc };
            is_current = refl;
            same_pc = refl;
            same_put = refl;
            ends_at = end_of_empty a.cur.pc at (size span) p h ((==_iff _ _).0 zero_size);
            ends_put = omega (arith, (==_iff _ _).0 zero_size);
          })
    | inr full ↦ rw (off, full) (new-Reaching (spans a.cur) a at p h)
  ]
]

-- Since the program counter was `pc`, the bytes went behind those of one span, which ends at the current
-- addresses.
pub record Grown (bs : List ℕ) (pc : ℤ) (b : Asm) : Type 0 where
  pub before : Span
  pub span : Span
  pub is_current : b.cur.span ≡ some span
  pub same_org : span.org ≡ before.org
  pub grown : span.data_bytes ≡ before.data_bytes ++ bs
  pub offset : int32 (before.org +ℤ pos (size before)) ≡ pc
  pub ends_at : b.cur.pc ≡ int32 (span.org +ℤ pos (size span))
  pub ends_put : b.cur.put ≡ (span.put + size span) % 4294967296

append_bytes-Grown :
    (bs buf : List ℕ) (pc : ℤ) (b : Asm) (before span : Span)
    → b.cur.span ≡ some span
    → span.org ≡ before.org
    → span.data_bytes ≡ before.data_bytes ++ bs
    → int32 (before.org +ℤ pos (size before)) ≡ pc
    → b.cur.pc ≡ int32 (span.org +ℤ pos (size span))
    → b.cur.put % 4294967296 ≡ (span.put + size span) % 4294967296
    → Grown (bs ++ buf) pc (append_bytes buf b)
unfolding append_bytes
append_bytes-Grown bs buf pc b before span e o g f p q = record {
  before = before;
  span = write_span (int32 (b.cur.pc +ℤ pos (length buf))) buf span;
  is_current = ap (map_option (write_span (int32 (b.cur.pc +ℤ pos (length buf))) buf)) e;
  same_org = o;
  grown = ap (λ l. l ++ buf) g ∙ append_assoc before.data_bytes bs buf;
  offset = f;
  ends_at =
      ap (λ v. int32 (v +ℤ pos (length buf))) p
      ∙ int32_add span.org (size span) (length buf)
      ∙ ap (λ n. int32 (span.org +ℤ pos n)) (sym (length-append span.data_bytes buf));
  ends_put = omega (arith, q, length-append span.data_bytes buf);
}

pub section_emit-first :
    (buf : List ℕ) (a : Asm) (at : ℕ)
    → a.cur.pc ≡ pos at
    → at ≤ 65536
    → Grown buf a.cur.pc (section_emit buf a)
unfolding section_emit choose_span
section_emit-first buf a at p h =
    let r = choose_from-Reaching a.cur.span a at refl p h in
    append_bytes-Grown [] buf a.cur.pc (choose_from a.cur.span a) r.span r.span r.is_current refl
      (sym (append-nil r.span.data_bytes)) r.ends_at (r.same_pc ∙ sym r.ends_at)
      (omega (arith, r.same_put, r.ends_put))

section_emit-Grown :
    (bs buf : List ℕ) (pc : ℤ) (b : Asm) → Grown bs pc b → Grown (bs ++ buf) pc (section_emit buf b)
unfolding section_emit choose_span
section_emit-Grown bs buf pc b g =
    subst (λ c. Grown (bs ++ buf) pc (append_bytes buf c)) (sym stays)
      (append_bytes-Grown bs buf pc b g.before g.span g.is_current g.same_org g.grown g.offset
        g.ends_at (omega (arith, g.ends_put)))
  where
    goes_on : continues b.cur g.span ≡ true
    goes_on = ground (arith, g.ends_put, g.ends_at)

    stays : choose_from b.cur.span b ≡ b
    stays = ap (λ o. choose_from o b) g.is_current ∙ rw goes_on refl

-- One call of section_emit after the other.
unfoldable pub emit_all : List (List ℕ) → Asm → Asm
emit_all [] a = a
emit_all (buf ∷ bufs) a = emit_all bufs (section_emit buf a)

abbrev pub joined : List (List ℕ) → List ℕ
joined [] = []
joined (buf ∷ bufs) = buf ++ joined bufs

pub emit_all-Grown :
    (bs : List ℕ) (bufs : List (List ℕ)) (pc : ℤ) (b : Asm)
    → Grown bs pc b
    → Grown (bs ++ joined bufs) pc (emit_all bufs b)
unfolding emit_all
emit_all-Grown bs [] pc b g = subst (λ l. Grown l pc b) (sym (append-nil bs)) g
emit_all-Grown bs (buf ∷ bufs) pc b g =
    subst (λ l. Grown l pc (emit_all bufs (section_emit buf b))) (append_assoc bs buf (joined bufs))
      (emit_all-Grown (bs ++ buf) bufs pc (section_emit buf b) (section_emit-Grown bs buf pc b g))
