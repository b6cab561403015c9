-- ===== src/Section/Bounds.antt =====
-- The buffer of the current span is large enough for every write.
use asm.Prelude.{
  ℕ, ◌+◌, ◌≤◌, ◌≡◌, refl, sym, ◌∙◌, ◌-◌, leb, if◌then◌else◌, ap, true, Option, none, some, List,
  arith, length, length-append, Bool-cases, inl, inr, ◌==◌, ==_iff,
}
use asm.Prelude.Int.{
  ℤ, pos, negsuc, ◌+ℤ◌, ◌≤ℤ◌, int32, leb_ℤ, int32_add, int32_add_id, +ℤ_parts, eq_of_parts,
}
use asm.Section.{
  Asm, Span, size, spans, next_pc, continues, open_new, retarget, choose_span, choose_from,
  append_bytes, section_emit, write_span, section_span_new,
}

-- The bytes of the span are within its buffer, which has at most 128 bytes to spare.
abbrev pub InBuffer : Option Span → Type 0
InBuffer none = Unit {0}
InBuffer (some s) = (size s ≤ s.allocated) × (s.allocated ≤ size s + 128)

-- After the choice the current span is in its buffer and ends at the program counter.
record Ready (pc : ℤ) (a : Asm) : Type 0 where
  span : Span
  is_current : a.cur.span ≡ some span
  in_buffer : InBuffer (some span)
  ends_at : next_pc span ≡ pc
  same_pc : a.cur.pc ≡ pc

ends_at_start : (pc : ℤ) → negsuc 2147483647 ≤ℤ pc → pc ≤ℤ pos 2147483647 → int32 (pc +ℤ pos 0) ≡ pc
unfolding int32 ◌+ℤ◌
ends_at_start pc low high = ground arith

module _ (a : Asm) (low : negsuc 2147483647 ≤ℤ a.cur.pc) (high : a.cur.pc ≤ℤ pos 2147483647) where
  open_new-Ready : Ready a.cur.pc (open_new (spans a.cur) a)
  open_new-Ready = record {
    span = section_span_new a;
    is_current = refl;
    in_buffer = omega arith;
    ends_at = ends_at_start a.cur.pc low high;
    same_pc = refl;
  }

  retarget-Ready :
      (span : Span) → InBuffer (some span) → size span ≡ 0 → Ready a.cur.pc (retarget span a)
  retarget-Ready span v h = record {
    span = record span { put = a.cur.put; org = a.cur.pc };
    is_current = refl;
    in_buffer = v;
    ends_at = ap (λ n. int32 (a.cur.pc +ℤ pos n)) h ∙ ends_at_start a.cur.pc low high;
    same_pc = refl;
  }

  continues-ends_at : (span : Span) → continues a.cur span ≡ true → next_pc span ≡ a.cur.pc
  continues-ends_at span h = eq_of_parts _ _ (ground arith)

  choose_from-Ready :
      (o : Option Span) → a.cur.span ≡ o → InBuffer o → Ready a.cur.pc (choose_from o a)
  choose_from-Ready none e v = open_new-Ready
  choose_from-Ready (some span) e v = elim (Bool-cases (continues a.cur span)) [
    | inl goes_on ↦ rw goes_on (record {
      span = span;
      is_current = e;
      in_buffer = v;
      ends_at = continues-ends_at span goes_on;
      same_pc = refl;
    })
    | inr elsewhere ↦ elim (Bool-cases (size span == 0)) [
      | inl zero_size ↦ rw (elsewhere, zero_size) (retarget-Ready span v ((==_iff _ _).0 zero_size))
      | inr full ↦ rw (elsewhere, full) open_new-Ready
    ]
  ]

-- With `spare` bytes behind the span, the comparison of `section_emit` is that of `spare` and the
-- number of bytes to write.
grows_iff : (p : ℤ) (spare n : ℕ) → leb_ℤ (p +ℤ pos spare) (p +ℤ pos n) ≡ leb spare n
unfolding ◌+ℤ◌
grows_iff p spare n = ground arith

grown :
    (bytes len spare allocated : ℕ)
    → allocated ≡ bytes + spare
    → len ≤ 128
    → spare ≤ 128
    → (bytes + len ≤ (if leb spare len then allocated + 128 else allocated))
      × ((if leb spare len then allocated + 128 else allocated) ≤ bytes + len + 128)
grown bytes len spare allocated e h k = ground arith

module _ (buf : List ℕ) (s : Span) (pc : ℤ) (ends_at : next_pc s ≡ pc)
    (low : negsuc 2147483647 ≤ℤ pc) (high : pc ≤ℤ pos 2147483519) (fits : length buf ≤ 128) where
  buffer_end :
      (spare : ℕ)
      → spare ≤ 128
      → s.allocated ≡ size s + spare
      → int32 (s.org +ℤ pos s.allocated) ≡ pc +ℤ pos spare
  buffer_end spare h e =
      ap (λ n. int32 (s.org +ℤ pos n)) e
      ∙ sym (int32_add s.org (size s) spare)
      ∙ ap (λ p. int32 (p +ℤ pos spare)) ends_at
      ∙ int32_add_id pc spare low (omega (arith, +ℤ_parts pc (pos spare)))

  -- A write of up to 128 bytes at the end of the span leaves it within its buffer.
  write_span-InBuffer :
      InBuffer (some s) → InBuffer (some (write_span (int32 (pc +ℤ pos (length buf))) buf s))
  write_span-InBuffer v =
      let spare = s.allocated - size s in
      let at = buffer_end spare (omega arith) (omega arith) in
      let new = int32_add_id pc (length buf) low (omega (arith, +ℤ_parts pc (pos (length buf)))) in
      rw (at, new, grows_iff pc spare (length buf), length-append s.data_bytes buf)
        (grown (size s) (length buf) spare s.allocated (omega arith) fits (omega arith))

-- `section_emit` of up to 128 bytes at an address of 31 bits keeps the current span within its
-- buffer: the bytes that it copies never pass the end of what it has allocated.
pub section_emit-InBuffer :
    (buf : List ℕ) (a : Asm)
    → length buf ≤ 128
    → negsuc 2147483647 ≤ℤ a.cur.pc
    → a.cur.pc ≤ℤ pos 2147483519
    → InBuffer a.cur.span
    → InBuffer (section_emit buf a).cur.span
unfolding section_emit append_bytes choose_span
section_emit-InBuffer buf a fits low high v =
    let r = choose_from-Ready a low (omega arith) a.cur.span refl v in
    rw (r.is_current, r.same_pc)
      (write_span-InBuffer buf r.span a.cur.pc r.ends_at low high fits r.in_buffer)
