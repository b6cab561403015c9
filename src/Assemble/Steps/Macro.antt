-- ===== src/Assemble/Steps/Macro.antt =====
-- The steps of macros and included files.
use mathlib.Core.Option.{some-injective}
use asm.Prelude.{
  ℕ, zero, suc, ◌≡◌, refl, sym, ap, ◌∙◌, true, Bool-cases, inl, inr, and_left, and_right, Option,
  none, some, List, [], ◌∷◌, ◌==◌, all,
}
use asm.Text.{Bytes, bytes_eq}
use asm.Error.{Errors}
use asm.Node.{
  Node, undef, node, string, array, node_array_of, Attr, empty, int, float, reg, pc, backref,
  fwdref, interp, id, text, oper, node_array_push, node_set_attr, to_list,
}
use asm.Eval.Expression.{Env, Result, eval_elements, eval_node}
use asm.Assemble.World.{Outside, World, Prog, ProgLine, eval_in, name_of, env_of}
use asm.Assemble.Macro.{
  prog_by_name, prog_macro_by_name, pseudo_macro, define_by, define_named, pseudo_endm, end_named,
  end_by, keep_line, add_by, end_program, close_macro,
}
use asm.Assemble.Steps.{
  Steps, stay, both, to_asm, to_context, new_macro, new_line, are_args, is_line, is_prog,
}
use asm.Assemble.Steps.Label.{if-Steps}

-- What is looked up is one of the programs.
pub is_prog-prog_by_name :
    (name : Bytes) (l : List Prog) (f : Prog)
    → all is_prog l ≡ true
    → prog_by_name name l ≡ some f
    → is_prog f ≡ true
unfolding prog_by_name
is_prog-prog_by_name name [] f h e = cc
is_prog-prog_by_name name (g ∷ l) f h e = elim (Bool-cases (bytes_eq name g.name)) [
  | inl t ↦
      ap is_prog (sym (some-injective g f (rw t at e))) ∙ and_left (is_prog g) (all is_prog l) h
  | inr n ↦
      is_prog-prog_by_name name l f (and_right (is_prog g) (all is_prog l) h)
        (rw (n, prog_by_name) at e)
]

are_args-push : (n v : Node) → are_args n ≡ true → are_args (node_array_push n v) ≡ true
unfolding node_array_push
are_args-push undef v h = refl
are_args-push (node (array l) attr) v h = refl
are_args-push (node empty attr) v h = h
are_args-push (node (int k) attr) v h = h
are_args-push (node (float k) attr) v h = h
are_args-push (node (reg r) attr) v h = h
are_args-push (node (string t) attr) v h = h
are_args-push (node pc attr) v h = h
are_args-push (node (backref k) attr) v h = h
are_args-push (node (fwdref k) attr) v h = h
are_args-push (node (interp t) attr) v h = h
are_args-push (node (id l) attr) v h = h
are_args-push (node (text l) attr) v h = h
are_args-push (node (oper op l) attr) v h = h

are_args-eval_elements :
    (env : Env) (eval : Node → Errors → Result) (l : List Node) (new : Node) (e : Errors)
    → are_args new ≡ true
    → are_args (eval_elements env eval l new e).0 ≡ true
unfolding eval_elements
are_args-eval_elements env eval [] new e h = h
are_args-eval_elements env eval (arg ∷ args) new e h =
    are_args-eval_elements env eval args (node_array_push new (eval arg e).0) (eval arg e).1
      (are_args-push new (eval arg e).0 h)

are_args-set_attr :
    (n : Node) (attr : Attr) → are_args n ≡ true → are_args (node_set_attr n attr) ≡ true
are_args-set_attr undef attr h = h
are_args-set_attr (node (array l) a) attr h = h
are_args-set_attr (node empty a) attr h = h
are_args-set_attr (node (int k) a) attr h = h
are_args-set_attr (node (float k) a) attr h = h
are_args-set_attr (node (reg r) a) attr h = h
are_args-set_attr (node (string t) a) attr h = h
are_args-set_attr (node pc a) attr h = h
are_args-set_attr (node (backref k) a) attr h = h
are_args-set_attr (node (fwdref k) a) attr h = h
are_args-set_attr (node (interp t) a) attr h = h
are_args-set_attr (node (id l) a) attr h = h
are_args-set_attr (node (text l) a) attr h = h
are_args-set_attr (node (oper op l) a) attr h = h

-- The arguments of a line are evaluated to an array, or to none.
are_args-eval_node :
    (env : Env) (fuel : ℕ) (n : Node) (e : Errors)
    → are_args n ≡ true
    → are_args (eval_node env fuel n e).0 ≡ true
unfolding eval_node
are_args-eval_node env zero n e h = refl
are_args-eval_node env (suc fuel) undef e h = refl
are_args-eval_node env (suc fuel) (node (array l) attr) e h =
    are_args-set_attr (eval_elements env (eval_node env fuel) (to_list l) undef e).0 attr
      (are_args-eval_elements env (eval_node env fuel) (to_list l) undef e refl)
are_args-eval_node env (suc fuel) (node empty attr) e h = cc
are_args-eval_node env (suc fuel) (node (int k) attr) e h = cc
are_args-eval_node env (suc fuel) (node (float k) attr) e h = cc
are_args-eval_node env (suc fuel) (node (reg r) attr) e h = cc
are_args-eval_node env (suc fuel) (node (string t) attr) e h = cc
are_args-eval_node env (suc fuel) (node pc attr) e h = cc
are_args-eval_node env (suc fuel) (node (backref k) attr) e h = cc
are_args-eval_node env (suc fuel) (node (fwdref k) attr) e h = cc
are_args-eval_node env (suc fuel) (node (interp t) attr) e h = cc
are_args-eval_node env (suc fuel) (node (id l) attr) e h = cc
are_args-eval_node env (suc fuel) (node (text l) attr) e h = cc
are_args-eval_node env (suc fuel) (node (oper op l) attr) e h = cc

pub are_args-eval_in :
    (o : Outside) (l : ProgLine) (w : World)
    → is_line l ≡ true
    → are_args (eval_in o l.args w).0 ≡ true
are_args-eval_in o l w h = are_args-eval_node (env_of o w) o.eval_fuel l.args w.asm.errors h

module _ {o : Outside} where
  define_by-Steps : (f : Option Prog) (name : Bytes) (w : World) → Steps o w (define_by f name w)
  define_by-Steps (some macro) name w = if-Steps (macro.pass == w.asm_pass) (to_asm _) stay
  define_by-Steps none name w = both (new_macro name) (to_context (some name))

  define_named-Steps : (name : Option Bytes) (w : World) → Steps o w (define_named name w)
  define_named-Steps none w = to_asm _
  define_named-Steps (some name) w = define_by-Steps (prog_macro_by_name name w) name w

  pub pseudo_macro-Steps : (label : Node) (w : World) → Steps o w (pseudo_macro label w)
  unfolding pseudo_macro
  pseudo_macro-Steps label w = define_named-Steps (name_of label) w

  end_named-Steps : (n : Node) (w : World) → Steps o w (end_named n w)
  end_named-Steps undef w = to_asm _
  end_named-Steps (node (string t) attr) w = to_context none
  end_named-Steps (node (array l) attr) w = to_asm _
  end_named-Steps (node empty attr) w = to_asm _
  end_named-Steps (node (int k) attr) w = to_asm _
  end_named-Steps (node (float k) attr) w = to_asm _
  end_named-Steps (node (reg r) attr) w = to_asm _
  end_named-Steps (node pc attr) w = to_asm _
  end_named-Steps (node (backref k) attr) w = to_asm _
  end_named-Steps (node (fwdref k) attr) w = to_asm _
  end_named-Steps (node (interp t) attr) w = to_asm _
  end_named-Steps (node (id l) attr) w = to_asm _
  end_named-Steps (node (text l) attr) w = to_asm _
  end_named-Steps (node (oper op l) attr) w = to_asm _

  end_by-Steps : (l : List Node) (w : World) → Steps o w (end_by l w)
  end_by-Steps [] w = to_context none
  end_by-Steps (n ∷ []) w = end_named-Steps n w
  end_by-Steps (n ∷ m ∷ l) w = to_asm _

  pub pseudo_endm-Steps : (args : Node) (w : World) → Steps o w (pseudo_endm args w)
  unfolding pseudo_endm
  pseudo_endm-Steps args w = end_by-Steps (node_array_of args) w

  add_by-Steps :
      (name : Option Bytes) (l : ProgLine) (w : World)
      → is_line l ≡ true
      → Steps o w (add_by name l w)
  add_by-Steps none l w h = stay
  add_by-Steps (some name) l w h = new_line name l h

  pub keep_line-Steps : (l : ProgLine) (w : World) → is_line l ≡ true → Steps o w (keep_line l w)
  unfolding keep_line
  keep_line-Steps l w h = add_by-Steps w.defining_macro_ctx l w h

  close_macro-Steps : (name : Option Bytes) (w : World) → Steps o w (close_macro name w)
  close_macro-Steps none w = stay
  close_macro-Steps (some name) w = both (to_context none) (to_asm _)

  pub end_program-Steps : (w : World) → Steps o w (end_program w)
  end_program-Steps w = close_macro-Steps w.defining_macro_ctx w
