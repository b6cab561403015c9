-- ===== src/Assemble/Steps/Conds.antt =====
-- The steps of the lines of conditions.
use asm.Prelude.{Bool, true, false, not, Option, none, some, String, List, [], ◌∷◌, if◌then◌else◌}
use asm.Prelude.Int.{pos, eqb_ℤ}
use asm.Node.{Node, node_array_of}
use asm.Pseudo.{have_int_required}
use asm.Assemble.World.{Outside, World, ProgLine, eval_in}
use asm.Assemble.Cond.{
  Conds, CondState, excluded, needs_test, Directive, dir_if, dir_elsif, cond_step,
}
use asm.Assemble.Program.{
  Left, told, ignoring, step_checked, step_with, step_args, test_step, if_line, elsif_line,
  unmatched, close_conds,
}
use asm.Assemble.Steps.{Steps, stay, both, to_asm, to_ignoring}
use asm.Assemble.Steps.Label.{eval_in-Steps}
use asm.Assemble.Steps.Macro.{end_program-Steps}

module _ {o : Outside} where
  pub told-Steps : (w : World) (r : Conds × Option String) → Steps o w (told w r).1
  told-Steps w (c, none) = stay
  told-Steps w (c, some message) = to_asm _

  step_checked-Steps :
      (dir : Bool → Directive) (c : Conds) (l : List Node) (w : World)
      → Steps o w (step_checked o dir c l w).1
  step_checked-Steps dir c l w =
      let (value, a) = have_int_required o.machine.to_int l (pos 0) w.asm in
      both (to_asm a)
        (told-Steps (record w { asm = a }) (cond_step (dir (not (eqb_ℤ value (pos 0)))) c))

  step_with-Steps :
      (dir : Bool → Directive) (c : Conds) (l : List Node) (w : World)
      → Steps o w (step_with o dir c l w).1
  step_with-Steps dir c [] w = to_asm _
  step_with-Steps dir c (n ∷ []) w = step_checked-Steps dir c (n ∷ []) w
  step_with-Steps dir c (n ∷ m ∷ l) w = to_asm _

  step_args-Steps :
      (dir : Bool → Directive) (c : Conds) (args : Node) (w : World)
      → Steps o w (step_args o dir c (args, w)).1
  step_args-Steps dir c args w =
      both (to_ignoring false) (step_with-Steps dir c (node_array_of args) _)

  test_step-Steps :
      (dir : Bool → Directive) (c : Conds) (l : ProgLine) (w : World)
      → Steps o w (test_step o dir c l w).1
  test_step-Steps dir c l w = both (to_ignoring true) (
      both (eval_in-Steps l.args (ignoring true w)) (
        step_args-Steps dir c (eval_in o l.args (ignoring true w)).0
          (eval_in o l.args (ignoring true w)).1))

  -- A choice between two lines.
  pub if-left :
      {w : World} (b : Bool) (p q : Left)
      → Steps o w p.1
      → Steps o w q.1
      → Steps o w (if b then p else q).1
  if-left true p q s t = s
  if-left false p q s t = t

  pub if_line-Steps : (c : Conds) (l : ProgLine) (w : World) → Steps o w (if_line o c l w).1
  if_line-Steps c l w =
      if-left (excluded c) _ _ (told-Steps w (cond_step (dir_if true) c))
        (test_step-Steps dir_if c l w)

  pub elsif_line-Steps : (c : Conds) (l : ProgLine) (w : World) → Steps o w (elsif_line o c l w).1
  elsif_line-Steps c l w =
      if-left (needs_test c) _ _ (test_step-Steps dir_elsif c l w)
        (told-Steps w (cond_step (dir_elsif false) c))

  unmatched-Steps : (l : List CondState) (w : World) → Steps o w (unmatched l w)
  unmatched-Steps [] w = stay
  unmatched-Steps (state ∷ l) w = to_asm _

  pub close_conds-Steps : (c : Conds) (w : World) → Steps o w (close_conds (c, w))
  close_conds-Steps c w =
      both (unmatched-Steps c.cond_list w) (end_program-Steps (unmatched c.cond_list w))
