-- ===== src/Tests/Sorting.antt =====
-- Examples of sorted lists and of coalesced sections.
use mathlib.Core.List.{Perm}
use asm.Prelude.{ℕ, ◌≤◌, ◌≡◌, refl, false, List, [], ◌∷◌, arith, leb, leb→le}
use asm.Error.{no_errors}
use asm.Section.Emit.{image}
use asm.Slist.{slist_sort}
use asm.Slist.Sorted.{IsSorted, slist_sort-perm, slist_sort-IsSorted}
use asm.Coalesce.{all_spans, section_coalesce_all}
use asm.Coalesce.Join.{IsSeparated}
use asm.Coalesce.Order.{section_coalesce_all-image}
use asm.Tests.Fixtures.{code_section}

abbrev numbers : List ℕ
numbers = 3 ∷ 1 ∷ 2 ∷ []

slist_sort-perm_example : Perm (slist_sort leb numbers) numbers
slist_sort-perm_example = slist_sort-perm leb numbers

slist_sort-IsSorted_example : IsSorted (λ a b. a ≤ b) (slist_sort leb numbers)
slist_sort-IsSorted_example =
    slist_sort-IsSorted leb (λ a b. a ≤ b) leb→le (λ a b h. ground arith) (λ a b c h k. omega arith)
      numbers

section_coalesce_all-image_example :
    Perm
      (image (section_coalesce_all false (code_section ∷ []) no_errors).0)
      (image (all_spans (code_section ∷ [])))
    × IsSeparated (section_coalesce_all false (code_section ∷ []) no_errors).0
    × ((section_coalesce_all false (code_section ∷ []) no_errors).1 ≡ no_errors)
section_coalesce_all-image_example =
    section_coalesce_all-image (code_section ∷ []) no_errors refl refl
