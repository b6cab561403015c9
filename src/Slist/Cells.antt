-- ===== src/Slist/Cells.antt =====
-- dt101/slist.c: lists as cells that point to each other, and the functions that relink them.
-- A pointer is a number, and 0 is NULL; the memory gives each cell's fields, and the next cell that is
-- allocated. Loops run on fuel: the number of a list's cells is enough, and what is left undone where
-- the fuel runs out is as if the list ended there.
pub mod Links
pub mod Reverse
pub mod Link
pub mod Insert
use asm.Prelude.{ℕ, zero, suc, ◌+◌, Bool, ◌||◌, List, [], ◌∷◌, ◌==◌, if◌then◌else◌}

-- struct slist, of all cells
pub record Memory : Type 0 where
  pub next : ℕ → ℕ
  pub data_of : ℕ → ℕ
  pub unused : ℕ

-- p->next = q
abbrev pub set_next : ℕ → ℕ → Memory → Memory
set_next p q m = record m { next = λ x. if x == p then q else m.next x }

-- slist_new; the memory never runs out
unfoldable pub slist_new : ℕ → Memory → ℕ × Memory
slist_new item m = (
  m.unused,
  record {
    next = λ x. if x == m.unused then 0 else m.next x;
    data_of = λ x. if x == m.unused then item else m.data_of x;
    unused = m.unused + 1;
  },
)

-- The loop that finds the last cell, or the one whose next is `before`, and links the new cell there.
unfoldable pub link_before : ℕ → ℕ → ℕ → ℕ → Memory → Memory
link_before zero iter before ent m = m
link_before (suc fuel) iter before ent m =
    let rest = link_before fuel (m.next iter) before ent m in
    if iter == 0
    then m
    else (if m.next iter == 0 || m.next iter == before then set_next iter ent m else rest)

abbrev inserted : ℕ → ℕ → ℕ → ℕ × Memory → ℕ × Memory
unfolding link_before
inserted fuel list before (ent, m) =
    if list == 0
    then (ent, m)
    else (if before == list
        then (ent, set_next ent before m)
        else (list, link_before fuel list before ent (set_next ent before m)))

unfoldable pub slist_insert_before : ℕ → ℕ → ℕ → ℕ → Memory → ℕ × Memory
unfolding slist_new inserted
slist_insert_before fuel list before item m = inserted fuel list before (slist_new item m)

unfoldable pub slist_append : ℕ → ℕ → ℕ → Memory → ℕ × Memory
unfolding slist_insert_before
slist_append fuel list item m = slist_insert_before fuel list 0 item m

unfoldable pub slist_prepend : ℕ → ℕ → ℕ → Memory → ℕ × Memory
unfolding slist_insert_before
slist_prepend fuel list item m = slist_insert_before fuel list list item m

-- `*entp` is `list` itself, or the next cell of `prev`.
abbrev unlink : ℕ → ℕ → ℕ → Memory → ℕ × Memory
unlink list prev ent m = if prev == 0 then (m.next ent, m) else (list, set_next prev (m.next ent) m)

-- The loop that finds the data, and the removal of the cell; freeing it is not modelled.
unfoldable pub remove_from : ℕ → ℕ → ℕ → ℕ → ℕ → Memory → ℕ × Memory
remove_from zero list prev ent item m = (list, m)
remove_from (suc fuel) list prev ent item m =
    let rest = remove_from fuel list ent (m.next ent) item m in
    if ent == 0 then (list, m) else (if m.data_of ent == item then unlink list prev ent m else rest)

unfoldable pub slist_remove : ℕ → ℕ → ℕ → Memory → ℕ × Memory
unfolding remove_from
slist_remove fuel list item m = remove_from fuel list 0 list item m

-- the loop of slist_reverse
unfoldable pub reverse_from : ℕ → ℕ → ℕ → Memory → ℕ × Memory
reverse_from zero list prev m = (prev, m)
reverse_from (suc fuel) list prev m =
    let rest = reverse_from fuel (m.next list) list (set_next list prev m) in
    if list == 0 then (prev, m) else rest

unfoldable pub slist_reverse : ℕ → ℕ → Memory → ℕ × Memory
unfolding reverse_from
slist_reverse fuel list m = reverse_from fuel list 0 m

unfoldable pub slist_length : ℕ → ℕ → Memory → ℕ
slist_length zero list m = 0
slist_length (suc fuel) list m =
    let rest = slist_length fuel (m.next list) m in if list == 0 then 0 else suc rest

-- the loop of slist_concat
unfoldable pub link_last : ℕ → ℕ → ℕ → Memory → Memory
link_last zero l list2 m = m
link_last (suc fuel) l list2 m =
    let rest = link_last fuel (m.next l) list2 m in
    if m.next l == 0 then set_next l list2 m else rest

unfoldable pub slist_concat : ℕ → ℕ → ℕ → Memory → ℕ × Memory
unfolding link_last
slist_concat fuel list1 list2 m =
    if list2 == 0
    then (list1, m)
    else (if list1 == 0 then (list2, m) else (list1, link_last fuel list1 list2 m))

-- The cell with the data, or 0.
unfoldable pub slist_find : ℕ → ℕ → ℕ → Memory → ℕ
slist_find zero list item m = 0
slist_find (suc fuel) list item m =
    let rest = slist_find fuel (m.next list) item m in
    if list == 0 then 0 else (if m.data_of list == item then list else rest)

-- The loop of slist_copy: `last` is the last cell of the copy so far, or 0.
unfoldable pub copy_from : ℕ → ℕ → ℕ → ℕ → Memory → ℕ × Memory
unfolding slist_new
copy_from zero list copy last m = (copy, m)
copy_from (suc fuel) list copy last m =
    let (ent, n) = slist_new (m.data_of list) m in
    let rest =
      copy_from fuel (n.next list) (if last == 0 then ent else copy) ent
        (if last == 0 then n else set_next last ent n) in
    if list == 0 then (copy, m) else rest

unfoldable pub slist_copy : ℕ → ℕ → Memory → ℕ × Memory
unfolding copy_from
slist_copy fuel list m = copy_from fuel list 0 0 m

-- the loop of slist_copy_deep; `copy_func` has its user data
unfoldable pub map_data : ℕ → ℕ → (ℕ → ℕ) → Memory → Memory
map_data zero l copy_func m = m
map_data (suc fuel) l copy_func m =
    let rest =
      map_data fuel (m.next l) copy_func
        (record m { data_of = λ x. if x == l then copy_func (m.data_of l) else m.data_of x }) in
    if l == 0 then m else rest

unfoldable pub slist_copy_deep : ℕ → ℕ → (ℕ → ℕ) → Memory → ℕ × Memory
unfolding slist_copy map_data
slist_copy_deep fuel list copy_func m =
    let (copy, n) = slist_copy fuel list m in (copy, map_data fuel copy copy_func n)

-- slist_foreach, with a function that changes a state
unfoldable pub slist_foreach {ℓ} : {S : Type ℓ} → ℕ → ℕ → (ℕ → S → S) → Memory → S → S
slist_foreach zero ent iter_func m s = s
slist_foreach (suc fuel) ent iter_func m s =
    let rest = slist_foreach fuel (m.next ent) iter_func m (iter_func (m.data_of ent) s) in
    if ent == 0 then s else rest

-- `is_equal item` is `cmp_func(item, data) == 0`.
unfoldable pub slist_find_custom : ℕ → ℕ → (ℕ → Bool) → Memory → ℕ
slist_find_custom zero list is_equal m = 0
slist_find_custom (suc fuel) list is_equal m =
    let rest = slist_find_custom fuel (m.next list) is_equal m in
    if list == 0 then 0 else (if is_equal (m.data_of list) then list else rest)
