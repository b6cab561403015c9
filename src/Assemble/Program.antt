-- ===== src/Assemble/Program.antt =====
-- src/assemble.c, assemble_prog: the lines of a program, with conditions and the definition of macros.
-- The depth that is left bounds the nesting of programs, so that nothing else is needed to stop it.
use asm.Prelude.{
  ℕ, ◌+◌, ◌-◌, ◌%◌, String, Bool, true, false, not, ◌&&◌, ◌||◌, Option, none, some, List, [], ◌∷◌,
  ◌==◌, if◌then◌else◌, ltb, zero, suc,
}
use asm.Prelude.Int.{ℤ, pos, eqb_ℤ}
use asm.Text.{Bytes}
use asm.Error.{syntax, fatal}
use asm.Node.{Node, node_array_of}
use asm.Section.{Asm}
use asm.Dict.{dict_str_equal_case, dict_lookup}
use asm.Eval.{eval_int}
use asm.Eval.Operator.{node_new_int}
use asm.Eval.Expression.{is_undef}
use asm.Pseudo.{have_int_required, wrong_number}
use asm.Assemble.World.{
  Outside, World, Prog, ProgLine, on_asm, tell, eval_in, eval_string_in, name_of,
}
use asm.Assemble.Cond.{
  CondState, Conds, no_conds, excluded, needs_test, Directive, dir_if, dir_elsif, dir_else,
  dir_endif, cond_step,
}
use asm.Assemble.Label.{set_label, pseudo_export}
use asm.Assemble.Instruction.{pseudo_data_dict}
use asm.Assemble.Macro.{pseudo_macro, pseudo_endm, keep_line, end_program}
use asm.Assemble.Line.{LabelOp, pseudo_label_dict, is_opcode, run_label_op, data_op}

-- What a line leaves: the open conditions and the state.
abbrev pub Left : Type 0
Left = Conds × World

abbrev pub told : World → Conds × Option String → Left
told w (c, none) = (c, w)
told w (c, some message) = (c, tell syntax message w)

-- the fields `line_number` of the section and `symbol_ignore_undefined`
abbrev pub count_line : World → World
count_line w =
    on_asm
      (λ a. record a {
        cur = record (a.cur) { line_number = (a.cur.line_number + 1) % 4294967296 };
      })
      w

abbrev pub ignoring : Bool → World → World
ignoring b w = record w { symbol_ignore_undefined = b }

abbrev pub level : ℕ → World → World
level n w = record w { defining_macro_level = n }

module _ (o : Outside) where
  -- The value of the expression of an IF or an ELSIF, or none where the number of arguments is wrong;
  -- undefined symbols count as 0.
  abbrev pub holds_by : ℤ × Asm → World → Bool × World
  holds_by (value, a) w = (not (eqb_ℤ value (pos 0)), record w { asm = a })

  abbrev pub step_checked : (Bool → Directive) → Conds → List Node → World → Left
  step_checked dir c l w =
      let (holds, v) = holds_by (have_int_required o.machine.to_int l (pos 0) w.asm) w in
      told v (cond_step (dir holds) c)

  -- verify_num_args with 1 and 1
  abbrev pub step_with : (Bool → Directive) → Conds → List Node → World → Left
  step_with dir c (n ∷ []) w = step_checked dir c (n ∷ []) w
  step_with dir c l w = (c, on_asm (wrong_number 1 (some 1)) w)

  abbrev pub step_args : (Bool → Directive) → Conds → Node × World → Left
  step_args dir c (args, w) = step_with dir c (node_array_of args) (ignoring false w)

  abbrev pub test_step : (Bool → Directive) → Conds → ProgLine → World → Left
  test_step dir c l w = step_args dir c (eval_in o l.args (ignoring true w))

  -- IF, ELSIF, ELSE and ENDIF; none for another line.
  abbrev pub if_line : Conds → ProgLine → World → Left
  if_line c l w = if excluded c then told w (cond_step (dir_if true) c) else test_step dir_if c l w

  abbrev pub elsif_line : Conds → ProgLine → World → Left
  elsif_line c l w =
      if needs_test c then test_step dir_elsif c l w else told w (cond_step (dir_elsif false) c)

  -- The value of a label: a number for a local one, or a name.
  abbrev pub label_or_name : Node → World → Node × World
  label_or_name label w =
      let n = eval_int o.machine.to_int label in
      if is_undef n then eval_string_in o label w else (n, w)

  module _ (recurse : Prog → World → World) where
    -- What follows the label, which has the program counter for its value.
    abbrev pub with_opcode : Option Bytes → Node → Node → World → World
    with_opcode none written args w = w
    with_opcode (some opcode) written args w =
        data_op o recurse (dict_lookup dict_str_equal_case pseudo_data_dict opcode) opcode written
          args w

    abbrev pub labelled : Node → World → World
    labelled label w = set_label o label (node_new_int w.asm.cur.pc) false w

    abbrev pub label_op : Option LabelOp → Option Bytes → Node → Node → Node → World → World
    label_op (some op) (some opcode) label written args w = run_label_op o op label opcode args w
    label_op _ opcode label written args w = with_opcode opcode written args (labelled label w)

    abbrev pub find_label_op : Option Bytes → Option LabelOp
    find_label_op none = none
    find_label_op (some opcode) = dict_lookup dict_str_equal_case pseudo_label_dict opcode

    -- "Normal processing"
    abbrev pub with_label : Option Bytes → ProgLine → Node × World → World
    with_label opcode l (label, w) =
        if is_opcode "export" opcode
        then pseudo_export o l.args w
        else (let (args, v) = eval_in o l.args w in
            label_op (find_label_op opcode) opcode label l.args args v)

    abbrev pub normal_line : Option Bytes → ProgLine → World → World
    normal_line opcode l w = with_label opcode l (label_or_name l.label w)

    abbrev pub no_op : Option Bytes → Bool
    no_op opcode = is_opcode "opt" opcode || is_opcode "sttl" opcode || is_opcode "ttl" opcode

    -- A line outside of definitions.
    abbrev pub conditional_line : Option Bytes → ProgLine → Conds → World → Left
    conditional_line opcode l c w =
        if no_op opcode
        then (c, w)
        else (if is_opcode "if" opcode
            then if_line c l w
            else (if is_opcode "elsif" opcode
                then elsif_line c l w
                else (if is_opcode "else" opcode
                    then told w (cond_step dir_else c)
                    else (if is_opcode "endif" opcode
                        then told w (cond_step dir_endif c)
                        else (if excluded c then (c, w) else (c, normal_line opcode l w))))))

    -- The lines of a macro's definition are kept.
    abbrev pub kept_or_not : Option Bytes → ProgLine → Conds → World → Left
    kept_or_not opcode l c w =
        if ltb 0 w.defining_macro_level then (c, keep_line l w) else conditional_line opcode l c w

    abbrev pub macro_line : ProgLine → World → World
    macro_line l w = let (label, v) = eval_string_in o l.label w in pseudo_macro label v

    abbrev pub endm_line : ProgLine → World → World
    endm_line l w = let (args, v) = eval_in o l.args w in pseudo_endm args v

    abbrev pub macro_start : Option Bytes → ProgLine → Conds → World → Left
    macro_start opcode l c w =
        if w.defining_macro_level == 1 then (c, macro_line l w) else kept_or_not opcode l c w

    abbrev pub macro_end : Option Bytes → ProgLine → Conds → World → Left
    macro_end opcode l c w =
        if w.defining_macro_level == 0
        then (c, tell syntax "ENDM without beginning MACRO" w)
        else (if w.defining_macro_level == 1
            then (c, endm_line l (level 0 w))
            else kept_or_not opcode l c (level (w.defining_macro_level - 1) w))

    abbrev pub opcode_line : ProgLine → Conds → Node × World → Left
    opcode_line l c (n, w) =
        let opcode = name_of n in
        if not (excluded c) && is_opcode "macro" opcode
        then macro_start opcode l c (level (w.defining_macro_level + 1) w)
        else (if not (excluded c) && is_opcode "endm" opcode
            then macro_end opcode l c w
            else kept_or_not opcode l c w)

    abbrev pub is_blank : ProgLine → Bool
    is_blank l = is_undef l.opcode && (is_undef l.label && is_undef l.args)

    unfoldable pub assemble_line : ProgLine → Left → Left
    assemble_line l (c, w) =
        let v = count_line w in
        if is_blank l then (c, v) else opcode_line l c (eval_string_in o l.opcode v)

    -- the loop over the lines
    unfoldable pub assemble_lines : List ProgLine → Left → Left
    unfolding assemble_line
    assemble_lines [] s = s
    assemble_lines (l ∷ lines) s = assemble_lines lines (assemble_line l s)

-- The end of a program, where conditions may be open.
abbrev pub unmatched : List CondState → World → World
unmatched [] w = w
unmatched (state ∷ l) w = tell syntax "IF not matched with ENDIF" w

abbrev pub close_conds : Left → World
close_conds (c, w) = end_program (unmatched c.cond_list w)

-- assemble_prog, with the depth that is left: max_program_depth less prog_depth
unfoldable pub assemble_prog : Outside → ℕ → Prog → World → World
unfolding assemble_lines
assemble_prog o zero prog w = tell fatal "maximum program depth exceeded" w
assemble_prog o (suc depth) prog w =
    close_conds (assemble_lines o (assemble_prog o depth) prog.lines (no_conds, w))
