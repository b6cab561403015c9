-- ===== src/Assemble/Macro.antt =====
-- src/program.c and src/assemble.c: the programs, which are files and macros, and the definition of
-- macros. The context of the macro that is being defined is its name.
use asm.Prelude.{ℕ, Option, none, some, List, [], ◌∷◌, ◌++◌, ◌==◌, if◌then◌else◌}
use asm.Text.{Bytes, bytes_eq}
use asm.Error.{Errors, syntax}
use asm.Node.{Node, node, string, node_array_of}
use asm.Assemble.World.{Outside, World, Prog, ProgLine, tell, with_errors, name_of}

-- The loop of prog_macro_by_name, and the one over the files.
unfoldable pub prog_by_name : Bytes → List Prog → Option Prog
prog_by_name name [] = none
prog_by_name name (f ∷ l) =
    let rest = prog_by_name name l in if bytes_eq name f.name then some f else rest

unfoldable pub prog_macro_by_name : Bytes → World → Option Prog
unfolding prog_by_name
prog_macro_by_name name w = prog_by_name name w.macros

-- prog_new, of a macro that is set to a pass
abbrev pub new_macro : Bytes → ℕ → Prog
new_macro name pass = record { name = name; pass = pass; lines = [] }

abbrev pub define_by : Option Prog → Bytes → World → World
define_by (some macro) name w =
    if macro.pass == w.asm_pass then tell syntax "macro '%s' redefined" w else w
define_by none name w = record w {
  macros = new_macro name w.asm_pass ∷ w.macros;
  defining_macro_ctx = some name;
}

abbrev pub define_named : Option Bytes → World → World
define_named none w = tell syntax "missing or invalid macro name" w
define_named (some name) w = define_by (prog_macro_by_name name w) name w

unfoldable pub pseudo_macro : Node → World → World
unfolding prog_macro_by_name
pseudo_macro label w = define_named (name_of label) w

-- With a context, it is freed; its macro is on top of the stack of contexts.
abbrev pub end_definition : World → World
end_definition w = record w { defining_macro_ctx = none }

abbrev pub end_named : Node → World → World
end_named (node (string s) attr) w = end_definition w
end_named n w = tell syntax "invalid argument to ENDM" w

abbrev pub end_by : List Node → World → World
end_by [] w = end_definition w
end_by (n ∷ []) w = end_named n w
end_by (n ∷ m ∷ l) w = tell syntax "invalid number of arguments to ENDM" w

unfoldable pub pseudo_endm : Node → World → World
pseudo_endm args w = end_by (node_array_of args) w

-- prog_ctx_add_line, on the macro of that name
unfoldable pub add_line : Bytes → ProgLine → List Prog → List Prog
add_line name l [] = []
add_line name l (f ∷ macros) =
    let rest = add_line name l macros in
    if bytes_eq name f.name then record f { lines = f.lines ++ l ∷ [] } ∷ macros else f ∷ rest

abbrev pub add_by : Option Bytes → ProgLine → World → World
add_by none l w = w
add_by (some name) l w = record w { macros = add_line name l w.macros }

-- A line inside of a definition; where the macro was defined before, it is dropped.
unfoldable pub keep_line : ProgLine → World → World
unfolding add_line
keep_line l w = add_by w.defining_macro_ctx l w

-- The pass of a file is not read.
abbrev pub new_file : Bytes → List ProgLine → Prog
new_file name lines = record { name = name; pass = 0; lines = lines }

module _ (o : Outside) where
  abbrev pub parsed : Bytes → Option (List ProgLine) × Errors → World → Option Prog × World
  parsed name (none, e) w = (none, with_errors e w)
  parsed name (some lines, e) w = (
    some (new_file name lines),
    with_errors e (record w { files = new_file name lines ∷ w.files }),
  )

  abbrev pub file_by : Option Prog → Bytes → World → Option Prog × World
  file_by (some file) name w = (some file, w)
  file_by none name w = parsed name (o.grammar_parse_file name w.asm.errors) w

  unfoldable pub prog_new_file : Bytes → World → Option Prog × World
  unfolding prog_by_name
  prog_new_file name w = file_by (prog_by_name name w.files) name w

-- prog_ctx_free at the end of a program: a macro whose definition the program leaves open is reported.
-- In the source its context is freed and still pointed to; here there is none after that.
abbrev pub close_macro : Option Bytes → World → World
close_macro none w = w
close_macro (some name) w = tell syntax "unfinished macro" (record w { defining_macro_ctx = none })

abbrev pub end_program : World → World
end_program w = close_macro w.defining_macro_ctx w
