-- ===== src/Section/Emit.antt =====
-- Spans as a record of what was written where.
use asm.Prelude.{
  ℕ, suc, ◌+◌, ◌%◌, ◌≡◌, refl, sym, ◌∙◌, ap, Option, none, some, List, [], ◌∷◌, ◌++◌, append-nil,
  append_assoc, arith, inl, inr, Bool-cases, length, ==_iff, ◌==◌,
}
use asm.Prelude.Int.{ℤ, pos, ◌+ℤ◌, int32}
use asm.Section.{
  Span, Asm, spans, option_list, size, continues, choose_span, append_bytes, section_emit,
  write_span, open_new, retarget, choose_from, section_span_new, map_option,
}

-- One byte at an address of the machine: (address, byte).
abbrev pub Write : Type 0
Write = ℕ × ℕ

-- Bytes at consecutive addresses, which wrap like the unsigned put address.
unfoldable pub writes : ℕ → List ℕ → List Write
writes p [] = []
writes p (b ∷ bs) = (p % 4294967296, b) ∷ writes (p + 1) bs

unfoldable pub span_image : Span → List Write
span_image s = writes s.put s.data_bytes

unfoldable pub image : List Span → List Write
image [] = []
image (s ∷ ss) = span_image s ++ image ss

pub writes-put :
    (p q : ℕ) (bs : List ℕ) → p % 4294967296 ≡ q % 4294967296 → writes p bs ≡ writes q bs
unfolding writes
writes-put p q [] h = refl
writes-put p q (b ∷ bs) h = rw (h, writes-put (p + 1) (q + 1) bs (omega arith)) refl

pub writes-append :
    (p : ℕ) (xs ys : List ℕ) → writes p (xs ++ ys) ≡ writes p xs ++ writes (p + length xs) ys
unfolding writes
writes-append p [] ys = writes-put p (p + 0) ys (omega arith)
writes-append p (x ∷ xs) ys = ap (◌∷◌ (p % 4294967296, x)) (
    writes-append (p + 1) xs ys
    ∙ ap (λ t. writes (p + 1) xs ++ t)
        (writes-put (p + 1 + length xs) (p + suc (length xs)) ys (omega arith)))

pub image-append : (xs ys : List Span) → image (xs ++ ys) ≡ image xs ++ image ys
unfolding image
image-append [] ys = refl
image-append (x ∷ xs) ys =
    rw (image-append xs ys) (sym (append_assoc (span_image x) (image xs) (image ys)))

-- After the choice there is a current span, it ends at the current address, and nothing is lost.
record Chosen (a b : Asm) : Type 0 where
  span : Span
  is_current : b.cur.span ≡ some span
  same_image : image (spans b.cur) ≡ image (spans a.cur)
  same_put : b.cur.put ≡ a.cur.put
  ends_at : (span.put + size span) % 4294967296 ≡ a.cur.put % 4294967296

image-singleton : (s : Span) → image (s ∷ []) ≡ span_image s
unfolding image
image-singleton s = append-nil (span_image s)

image-closed : (ss : List Span) (s : Span) → image (ss ++ s ∷ []) ≡ image ss ++ span_image s
image-closed ss s = image-append ss (s ∷ []) ∙ ap (λ t. image ss ++ t) (image-singleton s)

image-empty : (s : Span) → size s ≡ 0 → span_image s ≡ []
unfolding span_image writes
image-empty s h = empty s.put s.data_bytes h
  where
    empty : (p : ℕ) (bs : List ℕ) → length bs ≡ 0 → writes p bs ≡ []
    empty p [] e = refl
    empty p (b ∷ bs) e = absurd (omega arith)

open_new-Chosen : (a : Asm) → Chosen a (open_new (spans a.cur) a)
open_new-Chosen a = record {
  span = section_span_new a;
  is_current = refl;
  same_image =
      image-closed (spans a.cur) (section_span_new a)
      ∙ rw (image-empty (section_span_new a) refl) (append-nil _);
  same_put = refl;
  ends_at = omega arith;
}

image-current :
    (closed : List Span) (o : Option Span) (s : Span)
    → o ≡ some s
    → image (closed ++ option_list o) ≡ image closed ++ span_image s
image-current closed o s e = ap (λ p. image (closed ++ option_list p)) e ∙ image-closed closed s

retarget-Chosen :
    (span : Span) (a : Asm) → a.cur.span ≡ some span → size span ≡ 0 → Chosen a (retarget span a)
retarget-Chosen span a e h = record {
  span = record span { put = a.cur.put; org = a.cur.pc };
  is_current = refl;
  same_image =
      let moved = record span { put = a.cur.put; org = a.cur.pc } in
      image-closed a.cur.closed moved
      ∙ ap (λ t. image a.cur.closed ++ t) (image-empty moved h ∙ sym (image-empty span h))
      ∙ sym (image-current a.cur.closed a.cur.span span e);
  same_put = refl;
  ends_at = omega arith;
}

choose_from-Chosen : (o : Option Span) (a : Asm) → a.cur.span ≡ o → Chosen a (choose_from o a)
choose_from-Chosen none a e = open_new-Chosen a
choose_from-Chosen (some span) a e = elim (Bool-cases (continues a.cur span)) [
  | inl yes_ ↦ rw yes_ (record {
    span = span;
    is_current = e;
    same_image = refl;
    same_put = refl;
    ends_at = ground arith;
  })
  | inr no_ ↦ elim (Bool-cases (size span == 0)) [
    | inl zero_size ↦ rw (no_, zero_size) (retarget-Chosen span a e ((==_iff _ _).0 zero_size))
    | inr full ↦ rw (no_, full) (open_new-Chosen a)
  ]
]

choose_span-Chosen : (a : Asm) → Chosen a (choose_span a)
unfolding choose_span
choose_span-Chosen a = choose_from-Chosen a.cur.span a refl

image-write_span :
    (pc : ℤ) (buf : List ℕ) (s : Span) (p : ℕ)
    → (s.put + size s) % 4294967296 ≡ p % 4294967296
    → span_image (write_span pc buf s) ≡ span_image s ++ writes p buf
unfolding span_image
image-write_span pc buf s p h =
    writes-append s.put s.data_bytes buf
    ∙ ap (λ t. writes s.put s.data_bytes ++ t) (writes-put (s.put + size s) p buf h)

image-append_bytes :
    (buf : List ℕ) (b : Asm) (s : Span) (p : ℕ)
    → b.cur.span ≡ some s
    → (s.put + size s) % 4294967296 ≡ p % 4294967296
    → image (spans (append_bytes buf b).cur) ≡ image (spans b.cur) ++ writes p buf
unfolding append_bytes
image-append_bytes buf b s p e h =
    let pc = int32 (b.cur.pc +ℤ pos (length buf)) in
    ap (λ o. image (b.cur.closed ++ option_list (map_option (write_span pc buf) o))) e
    ∙ image-closed b.cur.closed (write_span pc buf s)
    ∙ ap (λ t. image b.cur.closed ++ t) (image-write_span pc buf s p h)
    ∙ sym (append_assoc (image b.cur.closed) (span_image s) (writes p buf))
    ∙ ap (λ t. t ++ writes p buf) (sym (image-current b.cur.closed b.cur.span s e))

-- Whatever the state, `section_emit` adds to the bytes that the spans of the section place in
-- memory exactly the bytes of its buffer, in order, from the put address on.
pub image-section_emit :
    (buf : List ℕ) (a : Asm)
    → image (spans (section_emit buf a).cur) ≡ image (spans a.cur) ++ writes a.cur.put buf
unfolding section_emit
image-section_emit buf a =
    let c = choose_span-Chosen a in
    image-append_bytes buf (choose_span a) c.span a.cur.put c.is_current c.ends_at
    ∙ ap (λ t. t ++ writes a.cur.put buf) c.same_image
