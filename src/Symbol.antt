-- ===== src/Symbol.antt =====
-- src/symbol.c: the table of symbols, with the pass in which each was set. A table that is not there
-- yet is empty. A key is the bytes of the name. The value is evaluated by `eval`, which reads the rest
-- of the program, and `float_eq` compares two doubles. Local labels are in Symbol.Local.
pub mod Table
pub mod Definitions
pub mod Passes
pub mod Local
use asm.Prelude.{
  ℕ, Bool, true, false, not, ◌&&◌, Option, none, some, List, [], ◌∷◌, ◌==◌, if◌then◌else◌,
}
use asm.Prelude.Int.{pos}
use asm.Text.{Bytes}
use asm.Error.{Errors, error, inconsistent, syntax}
use asm.Node.{Node, undef, node, int, attr_none, node_equal}
use asm.Dict.{Dict, dict_str_equal, dict_lookup, dict_insert, dict_foreach}
use asm.Eval.Expression.{Result, is_undef}

-- struct symbol
pub record Symbol : Type 0 where
  pub pass : ℕ
  pub node : Node

abbrev pub Symbols : Type 0
Symbols = Dict Bytes Symbol

-- What symbol_force_set leaves: the table, its result, and the reports.
pub record Stored : Type 0 where
  pub symbols : Symbols
  pub is_inconsistent : Bool
  pub errors : Errors

-- `olds && olds->pass == pass`
abbrev pub set_in_pass : ℕ → Option Symbol → Bool
set_in_pass pass none = false
set_in_pass pass (some olds) = olds.pass == pass

-- `olds && !node_equal(olds->node, n)`
abbrev pub changes : (ℕ → ℕ → Bool) → Node → Option Symbol → Bool
changes float_eq n none = false
changes float_eq n (some olds) = not (node_equal float_eq olds.node n)

module _ (float_eq : ℕ → ℕ → Bool) (eval : Node → Errors → Result) where
  abbrev store : Symbols → Bytes → ℕ → Result → Stored
  store symbols key pass (n, e) = record {
    symbols = dict_insert dict_str_equal symbols key (record { pass = pass; node = n });
    is_inconsistent = changes float_eq n (dict_lookup dict_str_equal symbols key);
    errors = e;
  }

  abbrev refuse : Symbols → Errors → Stored
  refuse symbols e = record {
    symbols = symbols;
    is_inconsistent = false;
    errors = error syntax "symbol '%s' redefined" e;
  }

  unfoldable pub symbol_force_set : Bytes → Node → Bool → ℕ → Symbols → Errors → Stored
  symbol_force_set key value changeable pass symbols e =
      if not changeable && set_in_pass pass (dict_lookup dict_str_equal symbols key)
      then refuse symbols e
      else store symbols key pass (eval value e)

  abbrev unstable : Bool → Stored → Symbols × Errors
  unstable changeable s = (
    s.symbols,
    if s.is_inconsistent && not changeable
        then error inconsistent "value of '%s' unstable" s.errors
        else s.errors,
  )

  unfoldable pub symbol_set : Bytes → Node → Bool → ℕ → Symbols → Errors → Symbols × Errors
  unfolding symbol_force_set
  symbol_set key value changeable pass symbols e =
      unstable changeable (symbol_force_set key value changeable pass symbols e)

abbrev node_of : Option Symbol → Node
node_of none = undef
node_of (some s) = s.node

unfoldable pub symbol_try_get : Symbols → Bytes → Node
symbol_try_get symbols key = node_of (dict_lookup dict_str_equal symbols key)

abbrev get_by : Bool → Node → Errors → Result
get_by symbol_ignore_undefined n e =
    if is_undef n
    then (if symbol_ignore_undefined
        then (node (int (pos 0)) attr_none, e)
        else (n, error inconsistent "symbol '%s' not defined" e))
    else (n, e)

unfoldable pub symbol_get : Bool → Symbols → Bytes → Errors → Result
unfolding symbol_try_get
symbol_get symbol_ignore_undefined symbols key e =
    get_by symbol_ignore_undefined (symbol_try_get symbols key) e

unfoldable pub symbol_get_list : Symbols → List Bytes
symbol_get_list symbols = dict_foreach symbols (λ key s l. key ∷ l) []
