-- ===== src/Tests/Cells.antt =====
-- Lists in memory.
use asm.Prelude.{ℕ, ◌*◌, ◌≡◌, refl, arith, [], ◌∷◌, ◌==◌, if◌then◌else◌}
use asm.Slist.Cells.{
  Memory, slist_reverse, slist_insert_before, slist_copy, slist_remove, slist_length,
}
use asm.Slist.Cells.Links.{Links}
use asm.Slist.Cells.Reverse.{Links-slist_reverse}
use asm.Slist.Cells.Insert.{Links-slist_insert_before}

-- Three cells, 5, 2 and 8, with the data 50, 20 and 80.
abbrev three : Memory
three = record {
  next = λ p. if p == 5 then 2 else (if p == 2 then 8 else 0);
  data_of = λ p. p * 10;
  unused = 9;
}

three-Links : Links three 5 (5 ∷ 2 ∷ 8 ∷ [])
three-Links = (
  refl,
  (
    λ e. absurd (omega (arith, e)),
    (refl, (λ e. absurd (omega (arith, e)), (refl, (λ e. absurd (omega (arith, e)), refl)))),
  ),
)

Links-slist_reverse_example :
    Links (slist_reverse 3 5 three).1 (slist_reverse 3 5 three).0 (8 ∷ 2 ∷ 5 ∷ [])
    × ((slist_reverse 3 5 three).1.data_of ≡ three.data_of)
Links-slist_reverse_example =
    Links-slist_reverse 3 three 5 (5 ∷ 2 ∷ 8 ∷ []) (omega arith) three-Links refl

Links-slist_insert_before_example :
    Links
      (slist_insert_before 3 5 2 70 three).1
      (slist_insert_before 3 5 2 70 three).0
      (5 ∷ 9 ∷ 2 ∷ 8 ∷ [])
    × ((p : ℕ)
        → (slist_insert_before 3 5 2 70 three).1.data_of p
          ≡ (if p == 9 then 70 else three.data_of p))
Links-slist_insert_before_example =
    Links-slist_insert_before 3 three 5 70 (5 ∷ []) (2 ∷ 8 ∷ []) (omega arith)
      (λ e. absurd (omega (arith, e))) refl refl three-Links

-- A removal, and a copy of what is left.
remove_test : (slist_remove 3 5 20 three).1.next 5 ≡ 8
unfolding slist_remove
remove_test = refl

copy_test : slist_length 9 (slist_copy 9 5 three).0 (slist_copy 9 5 three).1 ≡ 3
unfolding slist_length slist_copy
copy_test = refl
