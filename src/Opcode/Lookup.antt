-- ===== src/Opcode/Lookup.antt =====
-- Every row of the tables is found by its name: no two names are equal up to the case of their letters.
use mathlib.Core.List.{Memᴰ}
use mathlib.Core.List.Memᴰ
use asm.Prelude.{
  ℕ, ◌≡◌, refl, sym, ap, ◌∙◌, Bool, true, false, ◌&&◌, not, some, List, [], ◌∷◌, all, all-weaken,
  arith, ◌==◌, and_left, and_right, if◌then◌else◌,
}
use asm.Text.{Bytes, bytes_eq, bytes_eq_iff, lower, strcasecmp_eq}
use asm.Register.{Isa, isa_6809, isa_6309}
use asm.Dict.{Dict, dict_str_equal_case, dict_lookup, dict_insert}
use asm.Dict.Laws.{lookup-dict_insert_same}
use asm.Opcode.{Opcode}
use asm.Opcode.Tables.{rows_of, insert_rows, opcode_init, opcode_by_name}

eq-swap : (x y : ℕ) → (x == y) ≡ (y == x)
eq-swap x y = ground arith

bytes_eq-swap : (a b : Bytes) → bytes_eq a b ≡ bytes_eq b a
bytes_eq-swap [] [] = refl
bytes_eq-swap [] (y ∷ ys) = refl
bytes_eq-swap (x ∷ xs) [] = refl
bytes_eq-swap (x ∷ xs) (y ∷ ys) = rw (bytes_eq-swap xs ys, eq-swap x y) refl

pub case_same : (j k i : Bytes) → strcasecmp_eq j k ≡ true → strcasecmp_eq j i ≡ strcasecmp_eq k i
case_same j k i h = ap (λ l. bytes_eq l (lower i)) ((bytes_eq_iff (lower j) (lower k)).0 h)

pub case_self : (k : Bytes) → strcasecmp_eq k k ≡ true
case_self k = (bytes_eq_iff (lower k) (lower k)).1 refl

-- no row of the list has the name
abbrev other_name : Bytes → Opcode → Bool
other_name name row = not (strcasecmp_eq row.op name)

abbrev distinct : List Opcode → Bool
distinct [] = true
distinct (row ∷ rows) = all (other_name row.op) rows && distinct rows

distinct-rows_of : (isa : Isa) → distinct (rows_of isa) ≡ true
distinct-rows_of isa_6809 = refl
distinct-rows_of isa_6309 = refl

-- Rows of other names that are inserted later do not change what is found.
insert_rows-other :
    (rows : List Opcode) (d : Dict Bytes Opcode) (name : Bytes)
    → all (other_name name) rows ≡ true
    → dict_lookup dict_str_equal_case (insert_rows rows d) name
      ≡ dict_lookup dict_str_equal_case d name
unfolding insert_rows
insert_rows-other [] d name h = refl
insert_rows-other (row ∷ rows) d name h =
    insert_rows-other rows (dict_insert dict_str_equal_case d row.op row) name
      (and_right (other_name name row) (all (other_name name) rows) h)
    ∙ lookup-dict_insert_same dict_str_equal_case case_same case_self d row.op name row
    ∙ not_same (strcasecmp_eq row.op name)
        (and_left (other_name name row) (all (other_name name) rows) h)
  where
    not_same :
        (b : Bool)
        → not b ≡ true
        → (if b then some row else dict_lookup dict_str_equal_case d name)
          ≡ dict_lookup dict_str_equal_case d name
    not_same true k = cc
    not_same false k = refl

-- The test of a name is one of any other spelling of it.
other_name-spelling :
    (rows : List Opcode) (j k : Bytes)
    → strcasecmp_eq j k ≡ true
    → all (other_name j) rows ≡ true
    → all (other_name k) rows ≡ true
other_name-spelling rows j k h =
    all-weaken (other_name j) (other_name k) rows
      (λ row e. ap not (swap row.op k ∙ sym (case_same j k row.op h) ∙ swap j row.op) ∙ e)
  where
    swap : (a b : Bytes) → strcasecmp_eq a b ≡ strcasecmp_eq b a
    swap a b = bytes_eq-swap (lower a) (lower b)

insert_rows-found :
    (rows : List Opcode) (d : Dict Bytes Opcode) (row : Opcode) (name : Bytes)
    → distinct rows ≡ true
    → Memᴰ row rows
    → strcasecmp_eq row.op name ≡ true
    → dict_lookup dict_str_equal_case (insert_rows rows d) name ≡ some row
unfolding insert_rows
insert_rows-found [] d row name h m e = absurd (Memᴰ.not-nil m)
insert_rows-found (r ∷ rows) d row name h (Memᴰ.head p) e =
    insert_rows-other rows (dict_insert dict_str_equal_case d r.op r) name (
      other_name-spelling rows r.op name k
        (and_left (all (other_name r.op) rows) (distinct rows) h))
    ∙ lookup-dict_insert_same dict_str_equal_case case_same case_self d r.op name r
    ∙ rw (k) (ap some (sym p))
  where
    k : strcasecmp_eq r.op name ≡ true
    k = ap (λ x. strcasecmp_eq x.op name) (sym p) ∙ e
insert_rows-found (r ∷ rows) d row name h (Memᴰ.tail m) e =
    insert_rows-found rows (dict_insert dict_str_equal_case d r.op r) row name
      (and_right (all (other_name r.op) rows) (distinct rows) h) m e

-- Every row of an instruction set's tables is found in its dictionary by its name, in whatever case the
-- letters of the name are written: no row hides another.
pub opcode_by_name-opcode_init :
    (isa : Isa) (row : Opcode) (name : Bytes)
    → Memᴰ row (rows_of isa)
    → strcasecmp_eq row.op name ≡ true
    → opcode_by_name (opcode_init isa) name ≡ some row
unfolding opcode_by_name opcode_init
opcode_by_name-opcode_init isa row name =
    insert_rows-found (rows_of isa) [] row name (distinct-rows_of isa)
