-- ===== src/Coalesce/Order.antt =====
-- Coalescing the spans of all sections, in whatever order the sections gave them.
use mathlib.Core.Logic.{∥∥₁_elim}
use mathlib.Core.Bool.{Bool-set}
use mathlib.Core.List.{
  Mem, Memᴰ, Pairwise, Perm, Permᴰ, Perm-prop, perm_append_comm, mem-cons_self, mem-cons_of_mem,
}
use mathlib.Core.List.Memᴰ
use mathlib.Core.List.Perm
use asm.Prelude.{
  ◌+◌, ◌≤◌, ◌≡◌, refl, sym, Bool, true, false, ◌&&◌, ◌||◌, List, [], ◌∷◌, ◌++◌, append_assoc, arith,
  ltb, leb, and_left, and_right,
}
use asm.Error.{Errors}
use asm.Section.{Span, Section, size}
use asm.Section.Emit.{Write, span_image, image}
use asm.Slist.{slist_sort}
use asm.Slist.Sorted.{IsSorted, slist_sort-IsSorted, slist_sort-perm}
use asm.Coalesce.{span_le, coalesce_list, section_coalesce, section_coalesce_all, all_spans}
use asm.Coalesce.Join.{IsLaid, IsSeparated, coalesce_from-Joined}

-- Two spans that start at different addresses and share none.
abbrev pub apart : Span → Span → Bool
apart a b =
    (ltb a.put b.put && leb (a.put + size a) b.put)
    || (ltb b.put a.put && leb (b.put + size b) a.put)

abbrev pub in_space : Span → Bool
in_space s = ltb (s.put + size s) 4294967296

abbrev pub every : (Span → Bool) → List Span → Bool
every p [] = true
every p (s ∷ l) = p s && every p l

abbrev pub all_apart : List Span → Bool
all_apart [] = true
all_apart (s ∷ l) = every (apart s) l && all_apart l

abbrev Before : Span → Span → Type 0
Before a b = a.put ≤ b.put

span_le-yes : (a b : Span) → span_le a b ≡ true → Before a b
span_le-yes a b h = ground arith

span_le-no : (a b : Span) → span_le a b ≡ false → Before b a
span_le-no a b h = ground arith

every-Mem : (p : Span → Bool) (l : List Span) → every p l ≡ true → (a : Span) → Mem a l → p a ≡ true
every-Mem p l h a m = ∥∥₁_elim m (Bool-set (p a) true) (λ d. go l h d)
  where
    go : (l : List Span) → every p l ≡ true → Memᴰ a l → p a ≡ true
    go [] h d = absurd (Memᴰ.not-nil d)
    go (x ∷ l) h (Memᴰ.head e) = rw e (and_left (p x) (every p l) h)
    go (x ∷ l) h (Memᴰ.tail d) = go l (and_right (p x) (every p l) h) d

all_apart-Pairwise : (l : List Span) → all_apart l ≡ true → Pairwise (λ a b. apart a b ≡ true) l
all_apart-Pairwise [] h = Pairwise.nil
all_apart-Pairwise (s ∷ l) h =
    Pairwise.cons (every-Mem (apart s) l (and_left (every (apart s) l) (all_apart l) h))
      (all_apart-Pairwise l (and_right (every (apart s) l) (all_apart l) h))

apart_sym : (a b : Span) → apart a b ≡ true → apart b a ≡ true
apart_sym a b h = ground arith

swap_front : (xs ys zs : List Write) → Perm (xs ++ (ys ++ zs)) (ys ++ (xs ++ zs))
swap_front xs ys zs =
    rw (sym (append_assoc xs ys zs), sym (append_assoc ys xs zs))
      (Perm.append_right zs (perm_append_comm xs ys))

image-Permᴰ : {l r : List Span} → Permᴰ l r → Perm (image l) (image r)
unfolding image
image-Permᴰ Permᴰ.nil = Perm.rfl
image-Permᴰ (Permᴰ.cons {a = a} {b = b} e d) =
    rw e (Perm.append_left (span_image b) (image-Permᴰ d))
image-Permᴰ (Permᴰ.swap {a = a} {b = b} {l = l} e f) =
    rw (sym e, sym f) (swap_front (span_image a) (span_image b) (image l))
image-Permᴰ (Permᴰ.trans d c) = Perm.trans (image-Permᴰ d) (image-Permᴰ c)

image-Perm : {l r : List Span} → Perm l r → Perm (image l) (image r)
image-Perm p = ∥∥₁_elim p Perm-prop image-Permᴰ

-- In order of address and apart is one behind the other.
IsLaid-sorted :
    (s : Span) (l : List Span)
    → IsSorted Before (s ∷ l)
    → Pairwise (λ a b. apart a b ≡ true) (s ∷ l)
    → ((a : Span) → Mem a (s ∷ l) → in_space a ≡ true)
    → IsLaid s l
IsLaid-sorted s [] sorted p inside = ground (arith, inside s mem-cons_self)
IsLaid-sorted s (n ∷ l) sorted (Pairwise.cons h p) inside =
    let first = inside s mem-cons_self in
    let next = h n mem-cons_self in
    let le = sorted.0.0 in
    (
      ground (arith, first),
      ground (arith, le, next),
      IsLaid-sorted n l sorted.1 p (λ a m. inside a (mem-cons_of_mem s m)),
    )

coalesce_list-sorted :
    (l : List Span) (e : Errors)
    → IsSorted Before l
    → Pairwise (λ a b. apart a b ≡ true) l
    → ((a : Span) → Mem a l → in_space a ≡ true)
    → (image (coalesce_list false l e).0 ≡ image l)
      × IsSeparated (coalesce_list false l e).0
      × ((coalesce_list false l e).1 ≡ e)
coalesce_list-sorted [] e sorted p inside = (refl, tt, refl)
coalesce_list-sorted (s ∷ l) e sorted p inside =
    let j = coalesce_from-Joined l s e (IsLaid-sorted s l sorted p inside) in
    (j.same_image, j.separated, j.quiet)

-- Where no two of the sections' spans start at one address or overlap, and each ends inside the
-- 32-bit counter, coalescing without padding reports nothing, keeps every byte at its address (in
-- some order), and leaves a gap between any two spans it returns.
pub section_coalesce_all-image :
    (sections : List Section) (e : Errors)
    → all_apart (all_spans sections) ≡ true
    → every in_space (all_spans sections) ≡ true
    → Perm (image (section_coalesce_all false sections e).0) (image (all_spans sections))
      × IsSeparated (section_coalesce_all false sections e).0
      × ((section_coalesce_all false sections e).1 ≡ e)
unfolding section_coalesce_all section_coalesce
section_coalesce_all-image sections e ha hs =
    let l = all_spans sections in
    let perm : Perm (slist_sort span_le l) l = slist_sort-perm span_le l in
    let r =
      coalesce_list-sorted (slist_sort span_le l) e
        (slist_sort-IsSorted span_le Before span_le-yes span_le-no (λ a b c f g. omega arith) l)
        (Perm.pairwise (λ a b. Bool-set (apart a b) true) apart_sym (Perm.symm perm)
          (all_apart-Pairwise l ha))
        (λ a m. every-Mem in_space l hs a (Perm.subset perm a m)) in
    (rw r.0 (image-Perm perm), r.1, r.2)
