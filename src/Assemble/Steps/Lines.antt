-- ===== src/Assemble/Steps/Lines.antt =====
-- The steps of a line and of a whole program.
use asm.Prelude.{
  ℕ, zero, suc, ◌-◌, ◌+◌, ◌≡◌, Bool, true, false, not, ◌&&◌, and_left, and_right, Option, none,
  some, List, [], ◌∷◌, all, ltb, ◌==◌, if◌then◌else◌,
}
use asm.Text.{Bytes}
use asm.Node.{Node}
use asm.Dict.{dict_str_equal_case, dict_lookup}
use asm.Eval.{eval_int}
use asm.Eval.Expression.{is_undef}
use asm.Eval.Operator.{node_new_int}
use asm.Assemble.World.{Outside, World, Prog, ProgLine, eval_in, eval_string_in, name_of}
use asm.Assemble.Cond.{Conds, no_conds, excluded, dir_else, dir_endif, cond_step}
use asm.Assemble.Instruction.{pseudo_data_dict}
use asm.Assemble.Line.{LabelOp, is_opcode}
use asm.Assemble.Program.{
  count_line, level, with_opcode, labelled, label_op, find_label_op, with_label, normal_line, no_op,
  conditional_line, kept_or_not, macro_line, endm_line, macro_start, macro_end, opcode_line,
  is_blank, assemble_line, assemble_lines, assemble_prog, Left,
}
use asm.Assemble.Steps.{Steps, stay, both, to_asm, to_level, are_args, is_line}
use asm.Assemble.Steps.Kept.{are_progs, are_progs-Steps}
use asm.Assemble.Steps.Label.{
  if-Steps, set_label-Steps, eval_in-Steps, eval_string_in-Steps, pseudo_export-Steps,
}
use asm.Assemble.Steps.Macro.{
  are_args-eval_in, pseudo_macro-Steps, pseudo_endm-Steps, keep_line-Steps,
}
use asm.Assemble.Steps.Line.{Parses, Recursion, data_op-Steps, run_label_op-Steps}
use asm.Assemble.Steps.Conds.{
  told-Steps, if-left, if_line-Steps, elsif_line-Steps, close_conds-Steps,
}

module _ (o : Outside) (parses : Parses o) (recurse : Prog → World → World)
    (inner : Recursion o recurse) where
  with_opcode-Steps :
      (opcode : Option Bytes) (written args : Node) (w : World)
      → are_args args ≡ true
      → are_progs w ≡ true
      → Steps o w (with_opcode o recurse opcode written args w)
  with_opcode-Steps none written args w h g = stay
  with_opcode-Steps (some opcode) written args w h g =
      data_op-Steps o parses recurse inner (dict_lookup dict_str_equal_case pseudo_data_dict opcode)
        opcode written args w h g

  labelled-Steps : (label : Node) (w : World) → Steps o w (labelled o recurse label w)
  labelled-Steps label w = set_label-Steps label (node_new_int w.asm.cur.pc) false w

  after_label-Steps :
      (opcode : Option Bytes) (label written args : Node) (w : World)
      → are_args args ≡ true
      → are_progs w ≡ true
      → Steps o w (with_opcode o recurse opcode written args (labelled o recurse label w))
  after_label-Steps opcode label written args w h g = both (labelled-Steps label w) (
      with_opcode-Steps opcode written args (labelled o recurse label w) h
        (are_progs-Steps (labelled-Steps label w) g))

  label_op-Steps :
      (op : Option LabelOp) (opcode : Option Bytes) (label written args : Node) (w : World)
      → are_args args ≡ true
      → are_progs w ≡ true
      → Steps o w (label_op o recurse op opcode label written args w)
  label_op-Steps (some op) (some opcode) label written args w h g =
      run_label_op-Steps o op label opcode args w
  label_op-Steps (some op) none label written args w h g =
      after_label-Steps none label written args w h g
  label_op-Steps none opcode label written args w h g =
      after_label-Steps opcode label written args w h g

  with_label-Steps :
      (opcode : Option Bytes) (l : ProgLine) (label : Node) (w : World)
      → is_line l ≡ true
      → are_progs w ≡ true
      → Steps o w (with_label o recurse opcode l (label, w))
  with_label-Steps opcode l label w h g =
      if-Steps (is_opcode "export" opcode) (pseudo_export-Steps l.args w) (
        both (eval_in-Steps l.args w) (
          label_op-Steps (find_label_op o recurse opcode) opcode label l.args (eval_in o l.args w).0
            (eval_in o l.args w).1 (are_args-eval_in o l w h) g))

  normal_line-Steps :
      (opcode : Option Bytes) (l : ProgLine) (w : World)
      → is_line l ≡ true
      → are_progs w ≡ true
      → Steps o w (normal_line o recurse opcode l w)
  normal_line-Steps opcode l w h g = by_value (is_undef (eval_int o.machine.to_int l.label))
    where
      by_value :
          (b : Bool)
          → Steps o w (
              with_label o recurse opcode l
                (if b then eval_string_in o l.label w else (eval_int o.machine.to_int l.label, w)))
      by_value true = both (eval_string_in-Steps l.label w) (
          with_label-Steps opcode l (eval_string_in o l.label w).0 (eval_string_in o l.label w).1 h
            g)
      by_value false = with_label-Steps opcode l (eval_int o.machine.to_int l.label) w h g

  conditional_line-Steps :
      (opcode : Option Bytes) (l : ProgLine) (c : Conds) (w : World)
      → is_line l ≡ true
      → are_progs w ≡ true
      → Steps o w (conditional_line o recurse opcode l c w).1
  conditional_line-Steps opcode l c w h g = if-left (no_op o recurse opcode) _ _ stay (
      if-left (is_opcode "if" opcode) _ _ (if_line-Steps c l w) (
        if-left (is_opcode "elsif" opcode) _ _ (elsif_line-Steps c l w) (
          if-left (is_opcode "else" opcode) _ _ (told-Steps w (cond_step dir_else c)) (
            if-left (is_opcode "endif" opcode) _ _ (told-Steps w (cond_step dir_endif c))
              (if-left (excluded c) _ _ stay (normal_line-Steps opcode l w h g))))))

  kept_or_not-Steps :
      (opcode : Option Bytes) (l : ProgLine) (c : Conds) (w : World)
      → is_line l ≡ true
      → are_progs w ≡ true
      → Steps o w (kept_or_not o recurse opcode l c w).1
  kept_or_not-Steps opcode l c w h g =
      if-left (ltb 0 w.defining_macro_level) _ _ (keep_line-Steps l w h)
        (conditional_line-Steps opcode l c w h g)

  macro_line-Steps : (l : ProgLine) (w : World) → Steps o w (macro_line o recurse l w)
  macro_line-Steps l w =
      let (label, v) = eval_string_in o l.label w in
      both (eval_string_in-Steps l.label w) (pseudo_macro-Steps label v)

  endm_line-Steps : (l : ProgLine) (w : World) → Steps o w (endm_line o recurse l w)
  endm_line-Steps l w =
      let (args, v) = eval_in o l.args w in both (eval_in-Steps l.args w) (pseudo_endm-Steps args v)

  macro_start-Steps :
      (opcode : Option Bytes) (l : ProgLine) (c : Conds) (w : World)
      → is_line l ≡ true
      → are_progs w ≡ true
      → Steps o w (macro_start o recurse opcode l c w).1
  macro_start-Steps opcode l c w h g =
      if-left (w.defining_macro_level == 1) _ _ (macro_line-Steps l w)
        (kept_or_not-Steps opcode l c w h g)

  macro_end-Steps :
      (opcode : Option Bytes) (l : ProgLine) (c : Conds) (w : World)
      → is_line l ≡ true
      → are_progs w ≡ true
      → Steps o w (macro_end o recurse opcode l c w).1
  macro_end-Steps opcode l c w h g = if-left (w.defining_macro_level == 0) _ _ (to_asm _) (
      if-left (w.defining_macro_level == 1) _ _ (both (to_level 0) (endm_line-Steps l (level 0 w)))
        (both (to_level (w.defining_macro_level - 1))
          (kept_or_not-Steps opcode l c (level (w.defining_macro_level - 1) w) h g)))

  opcode_line-Steps :
      (l : ProgLine) (c : Conds) (n : Node) (w : World)
      → is_line l ≡ true
      → are_progs w ≡ true
      → Steps o w (opcode_line o recurse l c (n, w)).1
  opcode_line-Steps l c n w h g =
      if-left (not (excluded c) && is_opcode "macro" (name_of n)) _ _
        (both (to_level (w.defining_macro_level + 1))
          (macro_start-Steps (name_of n) l c (level (w.defining_macro_level + 1) w) h g))
        (if-left (not (excluded c) && is_opcode "endm" (name_of n)) _ _
          (macro_end-Steps (name_of n) l c w h g) (kept_or_not-Steps (name_of n) l c w h g))

  assemble_line-Steps :
      (l : ProgLine) (c : Conds) (w : World)
      → is_line l ≡ true
      → are_progs w ≡ true
      → Steps o w (assemble_line o recurse l (c, w)).1
  unfolding assemble_line
  assemble_line-Steps l c w h g =
      let v = count_line w in
      both (to_asm v.asm) (
        if-left (is_blank o recurse l) _ _ stay (
          both (eval_string_in-Steps l.opcode v) (
            opcode_line-Steps l c (eval_string_in o l.opcode v).0 (eval_string_in o l.opcode v).1 h
              g)))

  assemble_lines-Steps :
      (lines : List ProgLine) (s : Left)
      → all is_line lines ≡ true
      → are_progs s.1 ≡ true
      → Steps o s.1 (assemble_lines o recurse lines s).1
  unfolding assemble_lines
  assemble_lines-Steps [] s h g = stay
  assemble_lines-Steps (l ∷ lines) s h g =
      let here = assemble_line-Steps l s.0 s.1 (and_left (is_line l) (all is_line lines) h) g in
      both here (
        assemble_lines-Steps lines (assemble_line o recurse l s)
          (and_right (is_line l) (all is_line lines) h) (are_progs-Steps here g))

-- The assembly of a program, at whatever depth, is a sequence of steps.
pub assemble_prog-Steps : (o : Outside) (depth : ℕ) → Parses o → Recursion o (assemble_prog o depth)
unfolding assemble_prog
assemble_prog-Steps o zero h prog w p g = to_asm _
assemble_prog-Steps o (suc depth) h prog w p g =
    let (c, v) = assemble_lines o (assemble_prog o depth) prog.lines (no_conds, w) in
    both
      (assemble_lines-Steps o h (assemble_prog o depth) (assemble_prog-Steps o depth h) prog.lines
        (no_conds, w) p g)
      (close_conds-Steps c v)
