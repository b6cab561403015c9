-- ===== src/Symbol/Table.antt =====
-- What the table holds after a symbol is set.
use asm.Prelude.{
  ℕ, ◌≡◌, refl, Bool, true, false, not, ◌&&◌, Option, none, some, if◌then◌else◌, Bool-cases, inl,
  inr, arith,
}
use asm.Text.{Bytes, bytes_eq, bytes_eq_iff}
use asm.Error.{Errors, error, syntax}
use asm.Node.{Node, undef}
use asm.Dict.{dict_str_equal, dict_lookup, dict_insert}
use asm.Dict.Laws.{lookup-dict_insert}
use asm.Eval.Expression.{Result}
use asm.Symbol.{Symbol, Symbols, set_in_pass, symbol_force_set, symbol_set, symbol_try_get}

abbrev value_of : Option Symbol → Node
value_of none = undef
value_of (some s) = s.node

try_get-if :
    (p q : Bool) (n : Node) (pass : ℕ) (o : Option Symbol)
    → value_of (if p then some (record { pass = pass; node = n }) else o)
      ≡ (if p && true then n else value_of o)
try_get-if true q n pass o = refl
try_get-if false q n pass o = refl

try_get-refused : (p : Bool) (n o : Node) → o ≡ (if p && false then n else o)
try_get-refused true n o = refl
try_get-refused false n o = refl

set_here : (pass : ℕ) (n : Node) → set_in_pass pass (some (record { pass = pass; node = n })) ≡ true
set_here pass n = ground arith

pub lookup-key :
    (d : Symbols) (key i : Bytes) (s : Symbol)
    → dict_lookup dict_str_equal (dict_insert dict_str_equal d key s) i
      ≡ (if bytes_eq key i then some s else dict_lookup dict_str_equal d i)
lookup-key d key i s = lookup-dict_insert dict_str_equal bytes_eq_iff d key i s

module _ (float_eq : ℕ → ℕ → Bool) (eval : Node → Errors → Result) where
  -- Setting a symbol makes the evaluated value that of its name and leaves every other name alone,
  -- unless the symbol is not changeable and was set in the same pass before: then all keep theirs.
  pub symbol_try_get-symbol_set :
      (key i : Bytes) (value : Node) (changeable : Bool) (pass : ℕ) (symbols : Symbols) (e : Errors)
      → symbol_try_get (symbol_set float_eq eval key value changeable pass symbols e).0 i ≡ (
          if bytes_eq key i
            && not (not changeable && set_in_pass pass (dict_lookup dict_str_equal symbols key))
          then (eval value e).0
          else symbol_try_get symbols i)
  unfolding symbol_set symbol_force_set symbol_try_get
  symbol_try_get-symbol_set key i value changeable pass symbols e =
      elim (Bool-cases
        (not changeable && set_in_pass pass (dict_lookup dict_str_equal symbols key))) [
          | inl t ↦
              rw t (try_get-refused (bytes_eq key i) (eval value e).0 (symbol_try_get symbols i))
          | inr f ↦
              rw (f, lookup-key symbols key i (record { pass = pass; node = (eval value e).0 }))
                (try_get-if (bytes_eq key i) true (eval value e).0 pass
                  (dict_lookup dict_str_equal symbols i))
        ]

  -- Where a symbol that is not changeable is set twice in a pass, the second is reported as a syntax
  -- error and the table stays as the first left it.
  pub symbol_set-twice :
      (key : Bytes) (v w : Node) (pass : ℕ) (symbols : Symbols) (e later : Errors)
      → symbol_set float_eq eval key w false pass
          (symbol_set float_eq eval key v false pass symbols e).0
          later
        ≡ (
          (symbol_set float_eq eval key v false pass symbols e).0,
          error syntax "symbol '%s' redefined" later,
        )
  unfolding symbol_set symbol_force_set
  symbol_set-twice key v w pass symbols e later =
      elim (Bool-cases (set_in_pass pass (dict_lookup dict_str_equal symbols key))) [
        | inl t ↦ rw (t, t) refl
        | inr f ↦
            rw
              (
                f,
                lookup-key symbols key key (record { pass = pass; node = (eval v e).0 }),
                (bytes_eq_iff key key).1 refl,
                set_here pass (eval v e).0,
              )
              refl
      ]
