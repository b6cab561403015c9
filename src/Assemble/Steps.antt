-- ===== src/Assemble/Steps.antt =====
-- src/assemble.c: what the assembly of lines may do to the state, as a relation between two states: the
-- single changes, one after the other, and the expansion of a macro between a push and a pop.
pub mod Kept
pub mod Label
pub mod Macro
pub mod Line
pub mod Conds
pub mod Lines
pub mod Passes
pub mod Programs
use asm.Prelude.{ℕ, ◌≡◌, ◌⊎◌, Bool, true, false, ◌&&◌, Option, List, [], ◌∷◌, all}
use asm.Text.{Bytes}
use asm.Prelude.Int.{ℤ}
use asm.Error.{Errors}
use asm.Node.{Node, undef, node, array}
use asm.Section.{Asm, Section}
use asm.Dict.{Dict, dict_str_equal, dict_insert}
use asm.Symbol.{symbol_set}
use asm.Symbol.Local.{symbol_local_set}
use asm.Interp.{interp_pop}
use asm.Assemble.World.{Outside, World, Prog, ProgLine, evaluate, local_labels, eval_in}
use asm.Assemble.Macro.{add_line}

-- The arguments of a line: none, or an array.
abbrev pub are_args : Node → Bool
are_args undef = true
are_args (node (array l) attr) = true
are_args _ = false

abbrev pub is_line : ProgLine → Bool
is_line l = are_args l.args

abbrev pub is_prog : Prog → Bool
is_prog p = all is_line p.lines

-- The state with other macros, files, or another stack of arguments.
abbrev pub with_macros : List Prog → World → World
with_macros macros w = record w { macros = macros }

abbrev pub with_files : List Prog → World → World
with_files files w = record w { files = files }

abbrev pub with_stack : List Node → World → World
with_stack interp_stack w = record w { interp_stack = interp_stack }

-- The evaluated arguments of a line.
abbrev pub evaluated : Outside → ProgLine → World → Node
evaluated o l w = (eval_in o l.args w).0

pub data Steps (o : Outside) : World → World → Type 0 where
  stay : {w : World} → Steps o w w
  both : {w u v : World} → Steps o w u → Steps o u v → Steps o w v
  to_asm : {w : World} (a : Asm) → Steps o w (record w { asm = a })
  to_symbols :
      {w : World} (key : Bytes) (value : Node) (changeable : Bool) (pass : ℕ) (e : Errors)
      → (pass ≡ w.asm_pass) ⊎ (pass ≡ 0)
      → Steps o w (record w {
        symbols =
            (symbol_set o.machine.equal (evaluate o w) key value changeable pass w.symbols e).0;
      })
  to_locals :
      {w : World} (key : ℤ) (value : Node) (e : Errors)
      → Steps o w (record w {
        locals =
            dict_insert dict_str_equal w.locals w.current
              (symbol_local_set o.gl o.machine.equal
                (evaluate o w)
                (local_labels w)
                key
                w.asm.cur.line_number
                value
                e).0;
      })
  to_section :
      {w : World} (current : Bytes) (sections : Dict Bytes Section)
      → Steps o w (record w { current = current; sections = sections })
  to_exports : {w : World} (exports : Dict Bytes Bytes) → Steps o w (record w { exports = exports })
  to_ignoring : {w : World} (b : Bool) → Steps o w (record w { symbol_ignore_undefined = b })
  to_level : {w : World} (n : ℕ) → Steps o w (record w { defining_macro_level = n })
  to_context : {w : World} (c : Option Bytes) → Steps o w (record w { defining_macro_ctx = c })
  new_macro :
      {w : World} (name : Bytes)
      → Steps o w (with_macros (record { name = name; pass = w.asm_pass; lines = [] } ∷ w.macros) w)
  new_line :
      {w : World} (name : Bytes) (l : ProgLine)
      → is_line l ≡ true
      → Steps o w (with_macros (add_line name l w.macros) w)
  to_file :
      {w : World} (file : Prog) → is_prog file ≡ true → Steps o w (with_files (file ∷ w.files) w)
  expansion :
      {w u : World} (args : Node)
      → are_args args ≡ true
      → Steps o (with_stack (args ∷ w.interp_stack) w) u
      → Steps o w (with_stack (interp_pop u.interp_stack u.asm.errors).0 u)
