-- ===== src/Interp.antt =====
-- src/interp.c: the stack of the arguments of the macros that are being expanded.
pub mod Stack
use asm.Prelude.{
  ℕ, zero, suc, ◌-◌, Option, none, some, List, [], ◌∷◌, if◌then◌else◌, ◌||◌, length, get_or,
}
use asm.Prelude.Int.{ℤ, pos, negsuc, ltb_ℤ}
use asm.Error.{Errors, error, fatal, syntax}
use asm.Node.{Node, undef, NodeType, type_undef, type_array, node_type_of, node_array_of}
use asm.Eval.Expression.{Result}

-- `interp_stack` and the reports
abbrev pub State : Type 0
State = List Node × Errors

abbrev push_by : NodeType → Node → List Node → Errors → State
push_by type_undef n interp_stack e = (n ∷ interp_stack, e)
push_by type_array n interp_stack e = (n ∷ interp_stack, e)
push_by _ n interp_stack e =
    (interp_stack, error fatal "internal: pushing non-array onto interp stack" e)

unfoldable pub interp_push : Node → List Node → Errors → State
interp_push n interp_stack e = push_by (node_type_of n) n interp_stack e

-- `slist_remove` of the data of the first element removes that element.
unfoldable pub interp_pop : List Node → Errors → State
interp_pop [] e = ([], error fatal "internal: popping off empty interp stack" e)
interp_pop (n ∷ interp_stack) e = (interp_stack, e)

-- `index - 1`, where it is not negative
abbrev before : ℤ → ℕ
before (pos i) = i - 1
before (negsuc i) = 0

-- The test is made on two ints.
abbrev pub get_arg : List Node → ℤ → Errors → Result
get_arg args index e =
    if ltb_ℤ index (pos 1) || ltb_ℤ (pos (length args)) index
    then (undef, error syntax "invalid positional variable: %d" e)
    else (get_or args (before index) undef, e)

unfoldable pub interp_get : List Node → ℤ → Errors → Result
interp_get [] index e = (undef, error syntax "no positional variables on stack" e)
interp_get (args ∷ interp_stack) index e = get_arg (node_array_of args) index e
