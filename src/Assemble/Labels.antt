-- ===== src/Assemble/Labels.antt =====
-- A label on a line of its own.
use asm.Prelude.{
  ℕ, suc, ◌≡◌, refl, ap, ◌∙◌, Bool, true, false, not, ◌&&◌, none, List, if◌then◌else◌, ◌==◌,
}
use asm.Prelude.Int.{ℤ}
use asm.Text.{Bytes, bytes_eq}
use asm.Node.{Node, undef, node, string, id, nil, cons, array, Attr}
use asm.Dict.{dict_str_equal, dict_lookup}
use asm.Eval.{eval_int}
use asm.Eval.Operator.{node_new_int}
use asm.Eval.Expression.{eval_string, eval_texts, eval_node}
use asm.Symbol.{set_in_pass, symbol_set, symbol_force_set, symbol_try_get}
use asm.Symbol.Table.{symbol_try_get-symbol_set}
use asm.Assemble.World.{Outside, World, Prog, ProgLine, evaluate}
use asm.Assemble.Cond.{CondState}
use asm.Assemble.Label.{set_label, pseudo_end, exec_name}
use asm.Assemble.Program.{count_line, assemble_line}

-- The label of a line without an opcode is a name.
abbrev pub label_line : Bytes → Attr → Attr → ProgLine
label_line name attr inner = record {
  label = node (id (cons (node (string name) inner) nil)) attr;
  opcode = undef;
  args = undef;
}

label_line_at :
    (o : Outside) (recurse : Prog → World → World) (name : Bytes) (attr inner : Attr)
    (l : List CondState) (w : World) (fuel : ℕ)
    → assemble_line
        (record o { eval_fuel = suc fuel })
        recurse
        (label_line name attr inner)
        (record { cond_list = l; cond_excluded = none }, record w { defining_macro_level = 0 })
      ≡ (
        record { cond_list = l; cond_excluded = none },
        set_label
            (record o { eval_fuel = suc fuel })
            (node (string name) attr)
            (node_new_int w.asm.cur.pc)
            false
            (count_line (record w { defining_macro_level = 0 })),
      )
unfolding assemble_line eval_string eval_int eval_texts eval_node
label_line_at o recurse name attr inner l w fuel = refl

set_label_table :
    (o : Outside) (name i : Bytes) (attr : Attr) (v : ℤ) (w : World) (fuel : ℕ)
    → symbol_try_get
        (set_label
          (record o { eval_fuel = suc fuel })
          (node (string name) attr)
          (node_new_int v)
          false
          w).symbols
        i
      ≡ (if bytes_eq name i
            && not (set_in_pass w.asm_pass (dict_lookup dict_str_equal w.symbols name))
          then node_new_int v
          else symbol_try_get w.symbols i)
unfolding set_label eval_node
set_label_table o name i attr v w fuel =
    symbol_try_get-symbol_set o.machine.equal (evaluate (record o { eval_fuel = suc fuel }) w) name
      i (node_new_int v) false w.asm_pass w.symbols w.asm.errors

-- Outside of a macro's definition and of excluded lines, a line that holds only a label gives its name
-- the value of the program counter and changes no other symbol; a name that was set in the same pass
-- before keeps its value.
pub symbol_try_get-assemble_line :
    (o : Outside) (recurse : Prog → World → World) (name i : Bytes) (attr inner : Attr)
    (l : List CondState) (w : World) (fuel : ℕ)
    → o.eval_fuel ≡ suc fuel
    → w.defining_macro_level ≡ 0
    → symbol_try_get
        (assemble_line o recurse
          (label_line name attr inner)
          (record { cond_list = l; cond_excluded = none }, w)).1.symbols
        i
      ≡ (if bytes_eq name i
            && not (set_in_pass w.asm_pass (dict_lookup dict_str_equal w.symbols name))
          then node_new_int w.asm.cur.pc
          else symbol_try_get w.symbols i)
symbol_try_get-assemble_line o recurse name i attr inner l w fuel h k =
    ap
      (λ n.
        symbol_try_get
          (assemble_line (record o { eval_fuel = n }) recurse (label_line name attr inner)
            (record { cond_list = l; cond_excluded = none }, w)).1.symbols
          i)
      h
    ∙ ap
        (λ m.
          symbol_try_get
            (assemble_line (record o { eval_fuel = suc fuel }) recurse (label_line name attr inner)
              (
                record { cond_list = l; cond_excluded = none },
                record w { defining_macro_level = m },
              )).1.symbols
            i)
        k
    ∙ ap (λ r. symbol_try_get r.1.symbols i) (label_line_at o recurse name attr inner l w fuel)
    ∙ set_label_table o name i attr w.asm.cur.pc
        (count_line (record w { defining_macro_level = 0 })) fuel

-- the part of a test that a changeable symbol passes
no_report {ℓ} : {A : Type ℓ} (p : Bool) (x y : A) → (if p && false then x else y) ≡ y
no_report true x y = refl
no_report false x y = refl

-- From the second pass on, END sets the address of execution to its argument's value and reports no
-- more than the evaluation of the argument does: neither a second END nor a value that differs from
-- that of the pass before is reported.
pub pseudo_end-later :
    (o : Outside) (arg : Node) (attr : Attr) (w : World)
    → (w.asm_pass == 0) ≡ false
    → (symbol_try_get (pseudo_end o (node (array (cons arg nil)) attr) w).symbols exec_name
        ≡ (evaluate o w arg w.asm.errors).0)
      × ((pseudo_end o (node (array (cons arg nil)) attr) w).asm.errors
          ≡ (evaluate o w arg w.asm.errors).1)
unfolding pseudo_end symbol_set symbol_force_set
pseudo_end-later o arg attr w h = (
  rw h (
      symbol_try_get-symbol_set o.machine.equal (evaluate o w) exec_name exec_name arg true 0
        w.symbols w.asm.errors),
  rw h (no_report _ _ _),
)
