-- ===== src/Coalesce.antt =====
-- src/section.c: section_coalesce and section_coalesce_all, which join the spans of all sections for
-- output. The source works on spans that the sections share; here the spans of the result are new.
-- It is called with sorting only, so a span that is cut keeps at most its own bytes.
pub mod Join
pub mod Order
use asm.Prelude.{
  ℕ, ◌+◌, ◌-◌, Bool, true, false, ◌&&◌, ◌||◌, List, [], ◌∷◌, ◌++◌, ltb, ◌==◌, length, take,
  replicate, if◌then◌else◌,
}
use asm.Error.{Errors, error, data_error}
use asm.Section.{Span, Section, spans, size, next_put}
use asm.Slist.{slist_sort}

-- span_cmp(a, b) <= 0
abbrev pub span_le : Span → Span → Bool
span_le a b =
    if ltb a.put b.put then true else (if ltb b.put a.put then false else ltb a.sequence b.sequence)

-- Bytes behind those of a span, its buffer enlarged where they would not fit.
abbrev pub extend : List ℕ → Span → Span
extend bytes s = record s {
  allocated =
      if ltb s.allocated (size s + length bytes) then size s + length bytes else s.allocated;
  data_bytes = s.data_bytes ++ bytes;
}

-- the earlier of two spans that overlap, cut at the address of the later
abbrev pub cut : ℕ → Span → Span
cut nput s = record s { data_bytes = take (size s - (next_put s - nput)) s.data_bytes }

-- the zero bytes up to the address of the next span
abbrev pub pad_to : ℕ → Span → Span
pad_to nput s = extend (replicate (nput - next_put s) 0) s

abbrev pub put_before : Span → List Span × Errors → List Span × Errors
put_before s (out, e) = (s ∷ out, e)

-- The loops: `span` is the element that `l` points to, the list is what follows it. The inner loop
-- goes on while spans are joined to it; where it breaks, the outer one moves on.
pub coalesce_from : Bool → Span → List Span → Errors → List Span × Errors
coalesce_from pad span [] e = (span ∷ [], e)
coalesce_from pad span (nspan ∷ rest) e = elim (ltb nspan.put (next_put span)) [
  | true ↦
      put_before (cut nspan.put span)
        (coalesce_from pad nspan rest (error data_error "data at $%04X overlaps data at $%04X" e))
  | false ↦ elim (pad && ltb (next_put span) nspan.put) [
    | true ↦ coalesce_from pad (extend nspan.data_bytes (pad_to nspan.put span)) rest e
    | false ↦ elim (next_put span == nspan.put) [
      | true ↦ coalesce_from pad (extend nspan.data_bytes span) rest e
      | false ↦ put_before span (coalesce_from pad nspan rest e)
    ]
  ]
]

abbrev pub coalesce_list : Bool → List Span → Errors → List Span × Errors
coalesce_list pad [] e = ([], e)
coalesce_list pad (span ∷ rest) e = coalesce_from pad span rest e

unfoldable pub section_coalesce : Bool → Bool → List Span → Errors → List Span × Errors
unfolding coalesce_from slist_sort
section_coalesce sort pad l e = coalesce_list pad (if sort then slist_sort span_le l else l) e

abbrev pub all_spans : List Section → List Span
all_spans [] = []
all_spans (s ∷ ss) = spans s ++ all_spans ss

-- The sections come in the order of the hash table, which is not the program's.
unfoldable pub section_coalesce_all : Bool → List Section → Errors → List Span × Errors
unfolding section_coalesce
section_coalesce_all pad sections e = section_coalesce true pad (all_spans sections) e
