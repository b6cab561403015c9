-- ===== src/Assemble/Steps/Line.antt =====
-- The steps of included files, of the expansion of macros, and of an opcode, where a program that is
-- assembled inside of another one takes steps.
use asm.Prelude.{◌≡◌, refl, Bool, true, and_left, and_right, Option, none, some, List, [], ◌∷◌, all}
use asm.Text.{Bytes}
use asm.Error.{Errors}
use asm.Node.{
  Node, undef, node, string, array, node_array_of, empty, int, float, reg, pc, backref, fwdref,
  interp, id, text, oper,
}
use asm.Interp.{interp_push}
use asm.Dict.{dict_str_equal_case, dict_lookup}
use asm.Opcode.{Opcode}
use asm.Assemble.World.{Outside, World, Prog, ProgLine}
use asm.Assemble.Instruction.{DataOp}
use asm.Assemble.Macro.{prog_by_name, prog_macro_by_name, prog_new_file, file_by, parsed, new_file}
use asm.Assemble.Line.{
  LabelOp, op_equ, op_set, op_org, op_section, op_section_name, OtherOp, op_put, op_setdp,
  op_include, op_end, op_nop, pseudo_dict, run_label_op, run_other_op, pushed, expand_macro,
  include_file, include_named, pseudo_include, macro_or_unknown, instruction_or_macro, other_op,
  data_op,
}
use asm.Assemble.Steps.{to_file, Steps, stay, both, to_asm, expansion, are_args, is_line, is_prog}
use asm.Assemble.Steps.Kept.{are_progs, are_progs-Steps}
use asm.Assemble.Steps.Label.{
  checked-Steps, go_back-Steps, pseudo_equ-Steps, pseudo_set-Steps, pseudo_org-Steps,
  pseudo_section-Steps, pseudo_section_name-Steps, pseudo_end-Steps,
}
use asm.Assemble.Steps.Macro.{is_prog-prog_by_name}

-- The lines that the parser returns have arguments or none.
abbrev pub Parses : Outside → Type 0
Parses o =
    (name : Bytes) (e : Errors) (lines : List ProgLine)
    → (o.grammar_parse_file name e).0 ≡ some lines
    → all is_line lines ≡ true

-- A program with lines of that form takes steps.
abbrev pub Recursion : Outside → (Prog → World → World) → Type 0
Recursion o recurse =
    (p : Prog) (w : World) → is_prog p ≡ true → are_progs w ≡ true → Steps o w (recurse p w)

abbrev good_file : Option Prog → Bool
good_file none = true
good_file (some f) = is_prog f

parsed-Steps :
    (o : Outside) (name : Bytes) (r : Option (List ProgLine)) (e : Errors) (w : World)
    → ((lines : List ProgLine) → r ≡ some lines → all is_line lines ≡ true)
    → Steps o w (parsed o name (r, e) w).1 × (good_file (parsed o name (r, e) w).0 ≡ true)
parsed-Steps o name none e w h = (to_asm _, refl)
parsed-Steps o name (some lines) e w h =
    (both (to_file (new_file name lines) (h lines refl)) (to_asm _), h lines refl)

file_by-Steps :
    (o : Outside) (f : Option Prog) (name : Bytes) (w : World)
    → Parses o
    → ((p : Prog) → f ≡ some p → is_prog p ≡ true)
    → Steps o w (file_by o f name w).1 × (good_file (file_by o f name w).0 ≡ true)
file_by-Steps o (some file) name w h k = (stay, k file refl)
file_by-Steps o none name w h k =
    parsed-Steps o name (o.grammar_parse_file name w.asm.errors).0
      (o.grammar_parse_file name w.asm.errors).1 w (h name w.asm.errors)

pub prog_new_file-Steps :
    (o : Outside) (name : Bytes) (w : World)
    → Parses o
    → are_progs w ≡ true
    → Steps o w (prog_new_file o name w).1 × (good_file (prog_new_file o name w).0 ≡ true)
unfolding prog_new_file
prog_new_file-Steps o name w h g = file_by-Steps o (prog_by_name name w.files) name w h (λ p.
    is_prog-prog_by_name name w.files p (and_right (all is_prog w.macros) (all is_prog w.files) g))

module _ (o : Outside) (parses : Parses o) (recurse : Prog → World → World)
    (inner : Recursion o recurse) where
  include_file-Steps :
      (section : Bytes) (f : Option Prog) (w : World)
      → good_file f ≡ true
      → are_progs w ≡ true
      → Steps o w (include_file o recurse section (f, w))
  include_file-Steps section none w h g = stay
  include_file-Steps section (some file) w h g =
      both (inner file w h g) (go_back-Steps section (recurse file w))

  include_string-Steps :
      (name : Bytes) (w : World)
      → are_progs w ≡ true
      → Steps o w (include_file o recurse w.current (prog_new_file o name w))
  include_string-Steps name w g =
      let (read, good) = prog_new_file-Steps o name w parses g in
      both read (
        include_file-Steps w.current (prog_new_file o name w).0 (prog_new_file o name w).1 good
          (are_progs-Steps read g))

  include_named-Steps :
      (l : List Node) (w : World) → are_progs w ≡ true → Steps o w (include_named o recurse l w)
  include_named-Steps [] w g = to_asm _
  include_named-Steps (undef ∷ l) w g = to_asm _
  include_named-Steps (node (string name) attr ∷ l) w g = include_string-Steps name w g
  include_named-Steps (node empty attr ∷ l) w g = to_asm _
  include_named-Steps (node (int k) attr ∷ l) w g = to_asm _
  include_named-Steps (node (float k) attr ∷ l) w g = to_asm _
  include_named-Steps (node (reg r) attr ∷ l) w g = to_asm _
  include_named-Steps (node pc attr ∷ l) w g = to_asm _
  include_named-Steps (node (backref k) attr ∷ l) w g = to_asm _
  include_named-Steps (node (fwdref k) attr ∷ l) w g = to_asm _
  include_named-Steps (node (interp t) attr ∷ l) w g = to_asm _
  include_named-Steps (node (id m) attr ∷ l) w g = to_asm _
  include_named-Steps (node (text m) attr ∷ l) w g = to_asm _
  include_named-Steps (node (oper op m) attr ∷ l) w g = to_asm _
  include_named-Steps (node (array m) attr ∷ l) w g = to_asm _

  -- The stack while a macro is expanded has its arguments on top.
  expand_macro-Steps :
      (macro : Prog) (args : Node) (w : World)
      → is_prog macro ≡ true
      → are_args args ≡ true
      → are_progs w ≡ true
      → Steps o w (expand_macro o recurse macro args w)
  unfolding expand_macro interp_push
  expand_macro-Steps macro undef w k h g =
      let inside = pushed o recurse w (interp_push undef w.interp_stack w.asm.errors) in
      both
        (expansion {w = w} {u = recurse macro inside} undef h
          (both (to_asm _) (inner macro inside k g)))
        (to_asm _)
  expand_macro-Steps macro (node (array l) attr) w k h g =
      let inside =
        pushed o recurse w (interp_push (node (array l) attr) w.interp_stack w.asm.errors) in
      both
        (expansion {w = w} {u = recurse macro inside} (node (array l) attr) h
          (both (to_asm _) (inner macro inside k g)))
        (to_asm _)
  expand_macro-Steps macro (node empty attr) w k h g = cc
  expand_macro-Steps macro (node (int v) attr) w k h g = cc
  expand_macro-Steps macro (node (float v) attr) w k h g = cc
  expand_macro-Steps macro (node (reg r) attr) w k h g = cc
  expand_macro-Steps macro (node pc attr) w k h g = cc
  expand_macro-Steps macro (node (backref v) attr) w k h g = cc
  expand_macro-Steps macro (node (fwdref v) attr) w k h g = cc
  expand_macro-Steps macro (node (interp t) attr) w k h g = cc
  expand_macro-Steps macro (node (id m) attr) w k h g = cc
  expand_macro-Steps macro (node (text m) attr) w k h g = cc
  expand_macro-Steps macro (node (oper op m) attr) w k h g = cc
  expand_macro-Steps macro (node (string t) attr) w k h g = cc

  pub run_other_op-Steps :
      (op : OtherOp) (args : Node) (w : World)
      → are_progs w ≡ true
      → Steps o w (run_other_op o recurse op args w)
  unfolding run_other_op pseudo_include
  run_other_op-Steps op_put args w g = to_asm _
  run_other_op-Steps op_setdp args w g = to_asm _
  run_other_op-Steps op_include args w g =
      checked-Steps 1 none (include_named o recurse) args w
        (include_named-Steps (node_array_of args) w g)
  run_other_op-Steps op_end args w g = pseudo_end-Steps args w
  run_other_op-Steps op_nop args w g = stay

  macro_or_unknown-Steps :
      (f : Option Prog) (args : Node) (w : World)
      → ((p : Prog) → f ≡ some p → is_prog p ≡ true)
      → are_args args ≡ true
      → are_progs w ≡ true
      → Steps o w (macro_or_unknown o recurse f args w)
  macro_or_unknown-Steps none args w k h g = to_asm _
  macro_or_unknown-Steps (some macro) args w k h g =
      expand_macro-Steps macro args w (k macro refl) h g

  instruction_or_macro-Steps :
      (op : Option Opcode) (opcode : Bytes) (written args : Node) (w : World)
      → are_args args ≡ true
      → are_progs w ≡ true
      → Steps o w (instruction_or_macro o recurse op opcode written args w)
  unfolding prog_macro_by_name
  instruction_or_macro-Steps (some op) opcode written args w h g = to_asm _
  instruction_or_macro-Steps none opcode written args w h g =
      macro_or_unknown-Steps (prog_by_name opcode w.macros) args w
        (λ p.
          is_prog-prog_by_name opcode w.macros p
            (and_left (all is_prog w.macros) (all is_prog w.files) g))
        h g

  other_op-Steps :
      (op : Option OtherOp) (opcode : Bytes) (written args : Node) (w : World)
      → are_args args ≡ true
      → are_progs w ≡ true
      → Steps o w (other_op o recurse op opcode written args w)
  other_op-Steps (some op) opcode written args w h g = run_other_op-Steps op args w g
  other_op-Steps none opcode written args w h g =
      instruction_or_macro-Steps (dict_lookup dict_str_equal_case o.opcodes opcode) opcode written
        args w h g

  pub data_op-Steps :
      (op : Option DataOp) (opcode : Bytes) (written args : Node) (w : World)
      → are_args args ≡ true
      → are_progs w ≡ true
      → Steps o w (data_op o recurse op opcode written args w)
  data_op-Steps (some op) opcode written args w h g = to_asm _
  data_op-Steps none opcode written args w h g =
      other_op-Steps (dict_lookup dict_str_equal_case pseudo_dict opcode) opcode written args w h g

pub run_label_op-Steps :
    (o : Outside) (op : LabelOp) (label : Node) (opcode : Bytes) (args : Node) (w : World)
    → Steps o w (run_label_op o op label opcode args w)
unfolding run_label_op
run_label_op-Steps o op_equ label opcode args w = pseudo_equ-Steps label args w
run_label_op-Steps o op_set label opcode args w = pseudo_set-Steps label args w
run_label_op-Steps o op_org label opcode args w = pseudo_org-Steps label args w
run_label_op-Steps o op_section label opcode args w = pseudo_section-Steps label args w
run_label_op-Steps o op_section_name label opcode args w = pseudo_section_name-Steps label opcode w
