-- ===== src/Interp/Stack.antt =====
-- The positional variables of a macro are its arguments, and its end restores those of the caller.
use asm.Prelude.{ℕ, suc, ◌≡◌, refl, true, List, ltb, length, get_or, arith}
use asm.Prelude.Int.{pos}
use asm.Error.{Errors}
use asm.Node.{Node, undef, node, Nodes, array, Attr, to_list}
use asm.Interp.{interp_push, interp_pop, interp_get}

-- After the arguments of a macro are pushed, its positional variable with a number from 1 up to that of
-- the arguments is the argument of that number, and after the pop the stack is as it was; nothing is
-- reported.
pub interp_get-interp_push :
    (l : Nodes) (attr : Attr) (interp_stack : List Node) (e later : Errors) (i : ℕ)
    → ltb i (length (to_list l)) ≡ true
    → (interp_get (interp_push (node (array l) attr) interp_stack e).0 (pos (suc i)) later
        ≡ (get_or (to_list l) i undef, later))
      × (interp_pop
            (interp_push (node (array l) attr) interp_stack e).0
            (interp_push (node (array l) attr) interp_stack e).1
          ≡ (interp_stack, e))
unfolding interp_push interp_get interp_pop
interp_get-interp_push l attr interp_stack e later i h = (ground arith, refl)
