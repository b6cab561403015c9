-- ===== src/Assemble/Steps/Label.antt =====
-- The steps of labels and of the pseudo-operations that set symbols or change the section.
use asm.Prelude.{
  ℕ, refl, inl, inr, Bool, true, false, not, ◌==◌, Option, none, some, List, [], ◌∷◌, if◌then◌else◌,
  length,
}
use asm.Prelude.Int.{ℤ, int64}
use asm.Text.{Bytes}
use asm.Error.{Errors}
use asm.Node.{
  Node, undef, node, empty, int, float, reg, string, pc, backref, fwdref, interp, id, text, oper,
  array, node_array_of,
}
use asm.Section.{Asm}
use asm.Section.Sections.{Sections, section_set}
use asm.Eval.Operator.{node_new_int}
use asm.Pseudo.{within, wrong_number, have_int_required}
use asm.Assemble.World.{
  Outside, World, with_errors, checked, go_on_in, enter_section, present_sections, go_back, eval_in,
  eval_string_in, name_of,
}
use asm.Assemble.Label.{
  set_label, set_first, org_to, move_to, enter_labelled, section_named, section_of, export_named,
  set_exec, exec_name, pseudo_equ, pseudo_set, pseudo_org, pseudo_section, pseudo_section_name,
  pseudo_export, export_all, prog_export, pseudo_end,
}
use asm.Assemble.Steps.{Steps, stay, both, to_asm, to_symbols, to_locals, to_section, to_exports}

module _ {o : Outside} where
  pub errors-Steps : (e : Errors) (w : World) → Steps o w (with_errors e w)
  errors-Steps e w = to_asm (record (w.asm) { errors = e })

  pub eval_in-Steps : (n : Node) (w : World) → Steps o w (eval_in o n w).1
  eval_in-Steps n w = errors-Steps _ w

  pub eval_string_in-Steps : (n : Node) (w : World) → Steps o w (eval_string_in o n w).1
  eval_string_in-Steps n w = errors-Steps _ w

  pub if-Steps :
      {w u v : World} (b : Bool) → Steps o w u → Steps o w v → Steps o w (if b then u else v)
  if-Steps true s t = s
  if-Steps false s t = t

  pub checked-Steps :
      (min : ℕ) (max : Option ℕ) (rest : List Node → World → World) (args : Node) (w : World)
      → Steps o w (rest (node_array_of args) w)
      → Steps o w (checked min max rest args w)
  checked-Steps min max rest args w s =
      if-Steps (within min max (length (node_array_of args))) s
        (to_asm (wrong_number min max w.asm))

  go_on_in-Steps : (name : Bytes) (st : Sections) (w : World) → Steps o w (go_on_in name st w)
  go_on_in-Steps name st w = both (to_section name st.sections) (to_asm _)

  pub enter_section-Steps : (name : Bytes) (w : World) → Steps o w (enter_section name w)
  unfolding enter_section
  enter_section-Steps name w =
      go_on_in-Steps name (section_set w.asm.setdp name w.asm_pass (present_sections w)) w

  pub go_back-Steps : (name : Bytes) (w : World) → Steps o w (go_back name w)
  unfolding go_back
  go_back-Steps name w = go_on_in-Steps name (record (present_sections w) { current = some name }) w

  pub set_label-Steps :
      (label value : Node) (changeable : Bool) (w : World)
      → Steps o w (set_label o label value changeable w)
  unfolding set_label
  set_label-Steps undef value changeable w = stay
  set_label-Steps (node (int key) attr) value changeable w =
      both (to_locals key value w.asm.errors) (to_asm _)
  set_label-Steps (node (string s) attr) value changeable w =
      both (to_symbols s value changeable w.asm_pass w.asm.errors (inl refl)) (to_asm _)
  set_label-Steps (node empty attr) value changeable w = to_asm _
  set_label-Steps (node (float v) attr) value changeable w = to_asm _
  set_label-Steps (node (reg r) attr) value changeable w = to_asm _
  set_label-Steps (node pc attr) value changeable w = to_asm _
  set_label-Steps (node (backref v) attr) value changeable w = to_asm _
  set_label-Steps (node (fwdref v) attr) value changeable w = to_asm _
  set_label-Steps (node (interp s) attr) value changeable w = to_asm _
  set_label-Steps (node (id l) attr) value changeable w = to_asm _
  set_label-Steps (node (text l) attr) value changeable w = to_asm _
  set_label-Steps (node (oper op l) attr) value changeable w = to_asm _
  set_label-Steps (node (array l) attr) value changeable w = to_asm _

  set_first-Steps :
      (label : Node) (changeable : Bool) (l : List Node) (w : World)
      → Steps o w (set_first o label changeable l w)
  set_first-Steps label changeable [] w = stay
  set_first-Steps label changeable (arg ∷ args) w = set_label-Steps label arg changeable w

  pub pseudo_equ-Steps : (label args : Node) (w : World) → Steps o w (pseudo_equ o label args w)
  unfolding pseudo_equ
  pseudo_equ-Steps label args w =
      checked-Steps 1 (some 1) (set_first o label false) args w
        (set_first-Steps label false (node_array_of args) w)

  pub pseudo_set-Steps : (label args : Node) (w : World) → Steps o w (pseudo_set o label args w)
  unfolding pseudo_set
  pseudo_set-Steps label args w =
      checked-Steps 1 (some 1) (set_first o label true) args w
        (set_first-Steps label true (node_array_of args) w)

  org_to-Steps :
      (label : Node) (w : World) (value : ℤ) (a : Asm) → Steps o w (org_to o label w (value, a))
  org_to-Steps label w value a =
      both (to_asm (move_to (int64 value) a))
        (set_label-Steps label (node_new_int (int64 value)) false _)

  pub pseudo_org-Steps : (label args : Node) (w : World) → Steps o w (pseudo_org o label args w)
  unfolding pseudo_org
  pseudo_org-Steps label args w =
      let r = have_int_required o.machine.to_int (node_array_of args) w.asm.cur.pc w.asm in
      checked-Steps 1 (some 1)
        (λ l v. org_to o label v (have_int_required o.machine.to_int l v.asm.cur.pc v.asm)) args w
        (org_to-Steps label w r.0 r.1)

  enter_labelled-Steps :
      (label : Node) (name : Bytes) (w : World) → Steps o w (enter_labelled o label name w)
  enter_labelled-Steps label name w = both (enter_section-Steps name w) (
      set_label-Steps label (node_new_int (enter_section name w).asm.cur.pc) false
        (enter_section name w))

  section_named-Steps :
      (label : Node) (name : Option Bytes) (w : World) → Steps o w (section_named o label name w)
  section_named-Steps label none w = to_asm _
  section_named-Steps label (some name) w = enter_labelled-Steps label name w

  section_of-Steps : (label : Node) (l : List Node) (w : World) → Steps o w (section_of o label l w)
  section_of-Steps label [] w = stay
  section_of-Steps label (undef ∷ args) w = stay
  section_of-Steps label (node c attr ∷ args) w = both (eval_string_in-Steps (node c attr) w) (
      section_named-Steps label (name_of (eval_string_in o (node c attr) w).0)
        (eval_string_in o (node c attr) w).1)

  pub pseudo_section-Steps :
      (label args : Node) (w : World) → Steps o w (pseudo_section o label args w)
  unfolding pseudo_section
  pseudo_section-Steps label args w =
      checked-Steps 1 (some 1) (section_of o label) args w
        (section_of-Steps label (node_array_of args) w)

  pub pseudo_section_name-Steps :
      (label : Node) (opcode : Bytes) (w : World) → Steps o w (pseudo_section_name o label opcode w)
  unfolding pseudo_section_name
  pseudo_section_name-Steps label opcode w = enter_labelled-Steps label opcode w

  export_named-Steps : (name : Option Bytes) (w : World) → Steps o w (export_named o name w)
  unfolding prog_export
  export_named-Steps none w = stay
  export_named-Steps (some name) w = to_exports _

  export_all-Steps : (l : List Node) (w : World) → Steps o w (export_all o l w)
  unfolding export_all
  export_all-Steps [] w = stay
  export_all-Steps (n ∷ args) w =
      let (name, v) = eval_string_in o n w in
      both (eval_string_in-Steps n w) (
        both (export_named-Steps (name_of name) v)
          (export_all-Steps args (export_named o (name_of name) v)))

  pub pseudo_export-Steps : (args : Node) (w : World) → Steps o w (pseudo_export o args w)
  unfolding pseudo_export
  pseudo_export-Steps args w =
      checked-Steps 1 none (export_all o) args w (export_all-Steps (node_array_of args) w)

  set_exec-Steps : (l : List Node) (w : World) → Steps o w (set_exec o l w)
  set_exec-Steps [] w = stay
  set_exec-Steps (arg ∷ args) w =
      both (to_symbols exec_name arg (not (w.asm_pass == 0)) 0 w.asm.errors (inr refl)) (to_asm _)

  pub pseudo_end-Steps : (args : Node) (w : World) → Steps o w (pseudo_end o args w)
  unfolding pseudo_end
  pseudo_end-Steps args w =
      checked-Steps 0 (some 1) (set_exec o) args w (set_exec-Steps (node_array_of args) w)
