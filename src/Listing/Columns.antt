-- ===== src/Listing/Columns.antt =====
-- src/listing.c: what the listing shows of the bytes that a line emits.
use mathlib.Core.Option.{some-injective}
use asm.Prelude.{
  ℕ, suc, ◌+◌, ◌%◌, ◌<◌, ◌≡◌, ◌≢◌, refl, sym, ap, ◌∙◌, Option, none, some, List, [], ◌∷◌, ◌++◌,
  arith, length, length-append, get_or, Bool, false, if◌then◌else◌, ==_ne, true,
}
use asm.Prelude.Int.{ℤ, pos, ◌+ℤ◌, ◌-ℤ◌, int32, int32_add, uint16, eqb_ℤ}
use asm.Text.{Bytes}
use asm.Section.{Span, Asm, size, section_emit}
use asm.Output.Hex.{hex_bytes}
use asm.Listing.{ListingLine, data_column, byte_columns, instruction_line, data_line, ends_at_pc}
use asm.Listing.Grown.{section_emit-first, emit_all, joined, emit_all-Grown}

-- the bytes as the listing shows them
abbrev pub low_bytes : List ℕ → List ℕ
low_bytes [] = []
low_bytes (b ∷ bs) = b % 256 ∷ low_bytes bs

get_or-append :
    {A : Type 0} (l m : List A) (i : ℕ) (d : A) → get_or (l ++ m) (length l + i) d ≡ get_or m i d
get_or-append [] m i d = ap (λ k. get_or m k d) (omega arith)
get_or-append (x ∷ l) m i d = ap (λ k. get_or (x ∷ l ++ m) k d) shift ∙ get_or-append l m i d
  where
    shift : suc (length l) + i ≡ suc (length l + i)
    shift = omega arith

module _ (outside : ℤ → ℕ) where
  next_index : (k : ℕ) → pos k +ℤ pos 1 ≡ pos (k + 1)
  unfolding ◌+ℤ◌
  next_index k = ground arith

  byte_columns-same :
      (span : Span) (rest : List ℕ) (k : ℕ)
      → ((i d : ℕ) → i < length rest → get_or span.data_bytes (k + i) d ≡ get_or rest i d)
      → byte_columns outside span (length rest) (pos k) ≡ hex_bytes (low_bytes rest)
  unfolding byte_columns hex_bytes
  byte_columns-same span [] k f = refl
  byte_columns-same span (b ∷ rest) k f =
      rw (next_index k, first, byte_columns-same span rest (k + 1) later) refl
    where
      first : get_or span.data_bytes k (outside (pos k)) ≡ b
      first =
          ap (λ i. get_or span.data_bytes i (outside (pos k))) (omega arith)
          ∙ f 0 (outside (pos k)) (omega arith)

      later : (i d : ℕ) → i < length rest → get_or span.data_bytes (k + 1 + i) d ≡ get_or rest i d
      later i d h =
          ap (λ j. get_or span.data_bytes j d) (omega arith) ∙ f (suc i) d (omega (arith, h))

offset_of :
    (org p : ℤ) (n : ℕ) → int32 (org +ℤ pos n) ≡ p → n < 2147483648 → int32 (p -ℤ org) ≡ pos n
unfolding int32 ◌+ℤ◌ ◌-ℤ◌
offset_of org p n e h = ground arith

-- The columns of a line with the address before the bytes, and their number.
shown :
    (outside : ℤ → ℕ) (bs : List ℕ) (pc : ℤ) (text : Bytes) (before span : Span)
    → span.org ≡ before.org
    → span.data_bytes ≡ before.data_bytes ++ bs
    → int32 (before.org +ℤ pos (size before)) ≡ pc
    → size before < 2147483648
    → span.allocated ≢ 0
    → data_column outside
        (record { pc = pc; nbytes = pos (length bs); span = some span; text = text })
      ≡ hex_bytes (low_bytes bs)
unfolding data_column
shown outside bs pc text before span o g f small buffer =
    rw (==_ne _ 0 buffer, o, offset_of before.org pc (size before) f small)
      (byte_columns-same outside span bs (size before) (λ i d h.
        ap (λ l. get_or l (size before + i) d) g ∙ get_or-append before.data_bytes bs i d))

grown_by :
    (p q : ℤ) (at m : ℕ)
    → p ≡ pos at
    → at < 65536
    → q ≡ int32 (p +ℤ pos m)
    → m < 2147483648
    → int32 (q -ℤ p) ≡ pos m
unfolding int32 ◌+ℤ◌ ◌-ℤ◌
grown_by p q at m e h f small = ground arith

masked : (p : ℤ) (at : ℕ) → p ≡ pos at → at < 65536 → pos (uint16 p) ≡ p
masked p at h small = ground arith

abbrev line_of : ℤ → ℤ → Option Span → Bytes → ListingLine
line_of pc nbytes span text = record { pc = pc; nbytes = nbytes; span = span; text = text }

line_same :
    (p q m n : ℤ) (s t : Option Span) (text : Bytes)
    → p ≡ q
    → m ≡ n
    → s ≡ t
    → line_of p m s text ≡ line_of q n t text
line_same p q m n s t text e f g = λ i. line_of (e i) (f i) (g i) text

column_if :
    (outside : ℤ → ℕ) (b : Bool) (pc nbytes : ℤ) (span : Span) (text hex : Bytes)
    → data_column outside (line_of pc nbytes (some span) text) ≡ hex
    → data_column outside (line_of pc nbytes (if b then some span else none) text)
      ≡ (if b then hex else [])
unfolding data_column
column_if outside true pc nbytes span text hex h = h
column_if outside false pc nbytes span text hex h = refl

module _ (outside : ℤ → ℕ) (buf : List ℕ) (bufs : List (List ℕ)) (a : Asm) (text : Bytes)
    (at : ℕ) where
  -- Let an operation emit bytes by one or more calls of section_emit, at an address below 65536, into a
  -- span that is shorter than 2 ^ 31 and has a buffer. The line that the assembly of an instruction adds
  -- to the listing shows the bytes of all calls, in order, as two digits each. The line of a
  -- pseudo-operation on data does so where the put address is the program counter, and else, as after a
  -- PUT, shows no bytes.
  pub data_column-emit_all :
      (span : Span)
      → a.cur.pc ≡ pos at
      → at < 65536
      → (emit_all (buf ∷ bufs) a).cur.span ≡ some span
      → size span < 2147483648
      → span.allocated ≢ 0
      → (data_column outside (instruction_line a (emit_all (buf ∷ bufs) a) text)
          ≡ hex_bytes (low_bytes (joined (buf ∷ bufs))))
        × (data_column outside (data_line a (emit_all (buf ∷ bufs) a) text) ≡ (
            if eqb_ℤ
              (emit_all (buf ∷ bufs) a).cur.pc
              (int32 (pos (emit_all (buf ∷ bufs) a).cur.put))
            then hex_bytes (low_bytes (joined (buf ∷ bufs)))
            else []))
  unfolding instruction_line data_line emit_all
  data_column-emit_all span p small e short buffer =
      let new = emit_all bufs (section_emit buf a) in
      let bs = joined (buf ∷ bufs) in
      let g =
        emit_all-Grown buf bufs a.cur.pc (section_emit buf a)
          (section_emit-first buf a at p (omega (arith, small))) in
      let is_span : g.span ≡ span = some-injective _ _ (sym g.is_current ∙ e) in
      let total : size g.span ≡ size g.before + length bs =
        ap length g.grown ∙ length-append g.before.data_bytes bs in
      let bounded : size g.span < 2147483648 = omega (arith, short, ap size is_span) in
      let low = masked a.cur.pc at p small in
      let moved : new.cur.pc ≡ int32 (a.cur.pc +ℤ pos (length bs)) =
        g.ends_at
        ∙ ap (λ org. int32 (org +ℤ pos (size g.span))) g.same_org
        ∙ ap (λ n. int32 (g.before.org +ℤ pos n)) total
        ∙ sym (int32_add g.before.org (size g.before) (length bs))
        ∙ ap (λ pc. int32 (pc +ℤ pos (length bs))) g.offset in
      let number =
        grown_by a.cur.pc new.cur.pc at (length bs) p small moved (omega (arith, bounded, total)) in
      let column =
        shown outside bs a.cur.pc text g.before g.span g.same_org g.grown g.offset
          (omega (arith, bounded, total)) (λ z. buffer (sym (ap (λ s. s.allocated) is_span) ∙ z)) in
      let test = eqb_ℤ new.cur.pc (int32 (pos new.cur.put)) in
      (
        ap (data_column outside) (line_same _ _ _ _ _ _ text low number g.is_current) ∙ column,
        ap (data_column outside) (
              line_same _ _ _ _ (ends_at_pc new.cur.pc new.cur.span)
                (if test then some g.span else none) text low number
                (ap (ends_at_pc new.cur.pc) g.is_current
                  ∙ ap (λ put. if eqb_ℤ new.cur.pc (int32 (pos put)) then some g.span else none)
                      (sym g.ends_put)))
            ∙ column_if outside test a.cur.pc (pos (length bs)) g.span text _ column,
      )
