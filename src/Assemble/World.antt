-- ===== src/Assemble/World.antt =====
-- The state of an assembly: the current section and its counters, and what the lines of a program
-- change besides. The entry of the current section in the table of sections is the one of the time at
-- which it was entered; its present state is `asm.cur`.
use asm.Prelude.{ℕ, String, Bool, Option, none, some, List, if◌then◌else◌, length}
use asm.Prelude.Int.{ℤ}
use asm.Text.{Bytes}
use asm.Error.{Errors, ErrorType}
use asm.Node.{Node, node, string, node_array_of}
use asm.Section.{Section, Asm}
use asm.Section.Sections.{Sections, section_set, cur_section, or_new}
use asm.Dict.{Dict, dict_str_equal, dict_lookup, dict_insert}
use asm.Opcode.{Opcode}
use asm.Eval.Number.{Machine}
use asm.Eval.Operator.{Tokens}
use asm.Eval.Expression.{Env, Result, eval_node, eval_string}
use asm.Symbol.{Symbols, symbol_get}
use asm.Symbol.Local.{
  GlList, LocalLabels, symbol_local_table_new, symbol_local_backref, symbol_local_fwdref,
}
use asm.Interp.{interp_get}
use asm.Instr.{complain}
use asm.Instr.Pair.{Local}
use asm.Pseudo.{wrong_number, within}

-- struct prog_line, without its text
pub record ProgLine : Type 0 where
  pub label : Node
  pub opcode : Node
  pub args : Node

-- struct prog
pub record Prog : Type 0 where
  pub name : Bytes
  pub pass : ℕ
  pub lines : List ProgLine

-- What is given from outside: the machine's arithmetic, gnulib's lists, the parser of files, the file
-- system, the tables of opcodes and the options. `eval_fuel` bounds the nesting of expressions.
pub record Outside : Type 0 where
  pub machine : Machine
  pub tokens : Tokens
  pub shared : Node → Bool
  pub float_to_int32 : ℕ → ℤ
  pub gl : GlList
  pub grammar_parse_file : Bytes → Errors → Option (List ProgLine) × Errors
  pub read_file : Bytes → Option Bytes
  pub opcodes : Dict Bytes Opcode
  pub junk0 : Local
  pub junk1 : Local
  pub eval_fuel : ℕ

pub record World : Type 0 where
  pub asm : Asm
  pub current : Bytes
  pub sections : Dict Bytes Section
  pub locals : Dict Bytes LocalLabels
  pub symbols : Symbols
  pub interp_stack : List Node
  pub macros : List Prog
  pub files : List Prog
  pub exports : Dict Bytes Bytes
  pub asm_pass : ℕ
  pub symbol_ignore_undefined : Bool
  pub defining_macro_level : ℕ
  pub defining_macro_ctx : Option Bytes

-- A change of the current section or the reports only.
abbrev pub on_asm : (Asm → Asm) → World → World
on_asm f w = record w { asm = f w.asm }

abbrev pub with_errors : Errors → World → World
with_errors e w = on_asm (λ a. record a { errors = e }) w

-- error(type, fmt)
abbrev pub tell : ErrorType → String → World → World
tell type message w = on_asm (complain type message) w

-- `verify_num_args`, where the rest changes the whole state
abbrev pub checked : ℕ → Option ℕ → (List Node → World → World) → Node → World → World
checked min max rest args w =
    if within min max (length (node_array_of args))
    then rest (node_array_of args) w
    else on_asm (wrong_number min max) w

abbrev labels_of : Option LocalLabels → LocalLabels
labels_of none = symbol_local_table_new
labels_of (some table) = table

-- cur_section->local_labels
abbrev pub local_labels : World → LocalLabels
local_labels w = labels_of (dict_lookup dict_str_equal w.locals w.current)

-- section_set, on the table with the present state of the current section
abbrev pub present_sections : World → Sections
present_sections w = record {
  sections = dict_insert dict_str_equal w.sections w.current w.asm.cur;
  current = some w.current;
}

abbrev pub go_on_in : Bytes → Sections → World → World
go_on_in name st w = record w {
  sections = st.sections;
  current = name;
  asm = record (w.asm) { cur = or_new w.asm.setdp (cur_section st) };
}

unfoldable pub enter_section : Bytes → World → World
unfolding section_set cur_section
enter_section name w =
    go_on_in name (section_set w.asm.setdp name w.asm_pass (present_sections w)) w

-- cur_section = old_section
unfoldable pub go_back : Bytes → World → World
unfolding cur_section
go_back name w = go_on_in name (record (present_sections w) { current = some name }) w

module _ (o : Outside) where
  -- what an expression on the current line may read
  abbrev pub env_of : World → Env
  env_of w = record {
    machine = o.machine;
    tokens = o.tokens;
    isa = w.asm.isa;
    section_pc = w.asm.cur.pc;
    symbol_get = λ key e. symbol_get w.symbol_ignore_undefined w.symbols key e;
    interp_get = λ index e. interp_get w.interp_stack index e;
    local_backref = λ key e. symbol_local_backref o.gl (local_labels w) key w.asm.cur.line_number e;
    local_fwdref = λ key e. symbol_local_fwdref o.gl (local_labels w) key w.asm.cur.line_number e;
    shared = o.shared;
  }

  abbrev pub evaluate : World → Node → Errors → Result
  evaluate w n e = eval_node (env_of w) o.eval_fuel n e

  abbrev after : World → Result → Node × World
  after w (n, e) = (n, with_errors e w)

  abbrev pub eval_in : Node → World → Node × World
  eval_in n w = after w (evaluate w n w.asm.errors)

  abbrev pub eval_string_in : Node → World → Node × World
  eval_string_in n w = after w (eval_string (env_of w) (evaluate w) n w.asm.errors)

-- the name in a node that eval_string returned
abbrev pub name_of : Node → Option Bytes
name_of (node (string s) attr) = some s
name_of _ = none
