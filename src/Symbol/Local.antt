-- ===== src/Symbol/Local.antt =====
-- src/symbol.c: local labels, a list for each number, in the order of their lines. The list is one of
-- gnulib's; its operations are the fields of `GlList`.
pub mod Search
pub mod Nearest
use asm.Prelude.{
  ℕ, ◌+◌, ◌%◌, String, Bool, true, false, not, Option, none, some, List, [], ◌∷◌, ltb, leb, ◌==◌,
  if◌then◌else◌,
}
use asm.Prelude.Int.{ℤ, pos, negsuc, eqb_ℤ}
use asm.Error.{Errors, error, inconsistent}
use asm.Node.{Node, undef, node_equal}
use asm.Dict.{Dict, dict_lookup, dict_insert}
use asm.Eval.Expression.{Result}

-- struct symbol_local
pub record SymbolLocal : Type 0 where
  pub line_number : ℕ
  pub node : Node

-- The operations of a sorted list. A search calls the comparison on some elements, which are what
-- `compared` gives, in their order; a node of the list is its position.
pub record GlList : Type 0 where
  pub compared : (SymbolLocal → ℤ) → List SymbolLocal → List SymbolLocal
  pub search : (SymbolLocal → SymbolLocal → Bool) → List SymbolLocal → SymbolLocal → Option ℕ
  pub node_value : List SymbolLocal → ℕ → SymbolLocal
  pub remove_node : List SymbolLocal → ℕ → List SymbolLocal
  pub sortedlist_add :
      (SymbolLocal → SymbolLocal → ℤ) → List SymbolLocal → SymbolLocal → List SymbolLocal

-- struct dict of local labels; dict_direct_equal compares the numbers
abbrev pub LocalLabels : Type 0
LocalLabels = Dict ℤ (List SymbolLocal)

unfoldable pub symbol_local_table_new : LocalLabels
symbol_local_table_new = []

unfoldable pub sym_local_equals : SymbolLocal → SymbolLocal → Bool
sym_local_equals syma symb = syma.line_number == symb.line_number

unfoldable pub sym_local_compar : SymbolLocal → SymbolLocal → ℤ
sym_local_compar syma symb =
    if ltb syma.line_number symb.line_number
    then negsuc 0
    else (if ltb symb.line_number syma.line_number then pos 1 else pos 0)

-- `if (!sym_found || …) sym_found = syma`
abbrev pub keep :
    (SymbolLocal → SymbolLocal → Bool) → SymbolLocal → Option SymbolLocal → Option SymbolLocal
keep better syma none = some syma
keep better syma (some found) = if better syma found then some syma else some found

abbrev pub later : SymbolLocal → SymbolLocal → Bool
later a b = ltb b.line_number a.line_number

abbrev pub earlier : SymbolLocal → SymbolLocal → Bool
earlier a b = ltb a.line_number b.line_number

-- The comparisons that note what they have found: their result, and `sym_found` after them.
unfoldable pub sym_local_compar_backref :
    SymbolLocal → SymbolLocal → Option SymbolLocal → ℤ × Option SymbolLocal
sym_local_compar_backref syma symb sym_found =
    if ltb symb.line_number syma.line_number then (pos 1, sym_found) else (
      if ltb syma.line_number symb.line_number then negsuc 0 else pos 0,
      keep later syma sym_found,
    )

unfoldable pub sym_local_compar_fwdref :
    SymbolLocal → SymbolLocal → Option SymbolLocal → ℤ × Option SymbolLocal
sym_local_compar_fwdref syma symb sym_found =
    if leb syma.line_number symb.line_number then (negsuc 0, sym_found) else (
      if ltb ((symb.line_number + 1) % 4294967296) syma.line_number then pos 1 else pos 0,
      keep earlier syma sym_found,
    )

-- the struct `find`, of which only the line number is set
abbrev pub find : ℕ → SymbolLocal
find line_number = record { line_number = line_number; node = undef }

abbrev pub Compar : Type 0
Compar = SymbolLocal → SymbolLocal → Option SymbolLocal → ℤ × Option SymbolLocal

-- `sym_found` after the comparisons of a search
unfoldable pub found_after :
    Compar → SymbolLocal → List SymbolLocal → Option SymbolLocal → Option SymbolLocal
unfolding sym_local_compar_backref sym_local_compar_fwdref
found_after compar symb [] sym_found = sym_found
found_after compar symb (syma ∷ l) sym_found =
    found_after compar symb l (compar syma symb sym_found).1

module _ (gl : GlList) where
  unfoldable pub gl_sortedlist_search : Compar → SymbolLocal → List SymbolLocal → Option SymbolLocal
  unfolding found_after
  gl_sortedlist_search compar symb l =
      found_after compar symb (gl.compared (λ syma. (compar syma symb none).0) l) none

  abbrev found_node : String → Option SymbolLocal → Errors → Result
  found_node message none e = (undef, error inconsistent message e)
  found_node message (some sym_found) e = (sym_found.node, e)

  abbrev nearest : Compar → ℕ → Option (List SymbolLocal) → Option SymbolLocal
  nearest compar line_number none = none
  nearest compar line_number (some sym_list) =
      gl_sortedlist_search compar (find line_number) sym_list

  unfoldable pub symbol_local_backref : LocalLabels → ℤ → ℕ → Errors → Result
  unfolding gl_sortedlist_search
  symbol_local_backref table key line_number e =
      found_node "backref '%ld' not defined"
        (nearest sym_local_compar_backref line_number (dict_lookup eqb_ℤ table key)) e

  unfoldable pub symbol_local_fwdref : LocalLabels → ℤ → ℕ → Errors → Result
  unfolding gl_sortedlist_search
  symbol_local_fwdref table key line_number e =
      found_node "fwdref '%ld' not defined"
        (nearest sym_local_compar_fwdref line_number (dict_lookup eqb_ℤ table key)) e

  -- the list under a number, the new one of symbol_local_set included
  abbrev local_list : Option (List SymbolLocal) → List SymbolLocal
  local_list none = []
  local_list (some sym_list) = sym_list

  -- the node of the same line, which is searched for in a list that was there only
  abbrev old_node : ℕ → Option (List SymbolLocal) → Option ℕ
  old_node line_number none = none
  old_node line_number (some sym_list) = gl.search sym_local_equals sym_list (find line_number)

  abbrev without : Option ℕ → List SymbolLocal → List SymbolLocal
  without none sym_list = sym_list
  without (some old_lnode) sym_list = gl.remove_node sym_list old_lnode

  abbrev compare_old : (ℕ → ℕ → Bool) → Node → Option ℕ → List SymbolLocal → Errors → Errors
  compare_old float_eq newn none sym_list e = e
  compare_old float_eq newn (some old_lnode) sym_list e =
      if node_equal float_eq (gl.node_value sym_list old_lnode).node newn
      then e
      else error inconsistent "value of local label '%ld' unstable" e

  abbrev set_local :
      (ℕ → ℕ → Bool)
      → LocalLabels
      → ℤ
      → ℕ
      → Option (List SymbolLocal)
      → Result
      → LocalLabels × Errors
  set_local float_eq table key line_number o (newn, e) = (
    dict_insert eqb_ℤ table key (
        gl.sortedlist_add sym_local_compar (without (old_node line_number o) (local_list o))
          (record { line_number = line_number; node = newn })),
    compare_old float_eq newn (old_node line_number o) (local_list o) e,
  )

  -- The list is changed in place; here the changed one is stored in the table again.
  unfoldable pub symbol_local_set :
      (ℕ → ℕ → Bool)
      → (Node → Errors → Result)
      → LocalLabels
      → ℤ
      → ℕ
      → Node
      → Errors
      → LocalLabels × Errors
  unfolding sym_local_equals sym_local_compar
  symbol_local_set float_eq eval table key line_number value e =
      set_local float_eq table key line_number (dict_lookup eqb_ℤ table key) (eval value e)
