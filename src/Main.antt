-- ===== src/Main.antt =====
-- src/asm6809.c: `main` after the options, from the reading of the files to the exit status.
-- What a file with a name may be written to, and the text of the listing, are parameters, and so is the
-- integer field of a value that is no integer.
pub mod Exit
pub mod Exec
use asm.Prelude.{
  ℕ, Bool, true, false, Option, none, some, List, [], ◌∷◌, ◌++◌, leb, ◌%◌, if◌then◌else◌,
}
use asm.Prelude.Int.{ℤ, pos, uint16}
use asm.Text.{Bytes}
use asm.Error.{Errors, ErrorType, Report, error, fatal, inconsistent, syntax, rank}
use asm.Error.Print.{error_print_list}
use asm.Node.{Node, undef, node, int}
use asm.Node.Print.{Printer}
use asm.Section.{Section}
use asm.Dict.{dict_get_values}
use asm.Coalesce.{section_coalesce_all}
use asm.Eval.Expression.{Result, is_undef}
use asm.Eval.Operator.{node_new_int}
use asm.Symbol.{Stored, symbol_get, symbol_force_set, symbol_try_get}
use asm.Output.{output_binary, output_dragondos, output_coco}
use asm.Output.Hex.{output_motorola_srec, output_intel_hex}
use asm.Options.{
  Numerals, Options, OutputFormat, binary, dragondos, coco, motorola_srec, intel_hex,
  simple_parse_int,
}
use asm.Assemble.World.{Outside, World, Prog, with_errors, tell, evaluate, present_sections}
use asm.Assemble.Label.{exec_name}
use asm.Assemble.Macro.{prog_new_file}
use asm.Assemble.Passes.{all_passes}
use asm.Assemble.Export.{prog_print_exports, prog_print_symbols}

-- What `main` uses besides the assembly.
pub record Surroundings : Type 0 where
  pub numerals : Numerals
  pub printer : Printer
  pub location : Report → Bytes
  pub can_open : Bytes → Bool
  pub listing_text : World → Bytes
  pub junk : ℤ

-- What a run leaves: its status, the files with their bytes, and the printed messages.
pub record Run : Type 0 where
  pub success : Bool
  pub files : List (Bytes × Bytes)
  pub printed : Bytes

-- The files that are written so far, and the state.
abbrev pub Progress : Type 0
Progress = List (Bytes × Bytes) × World

-- error_level >= type
abbrev pub reaches : ErrorType → World → Bool
reaches type w = leb (rank type) (rank w.asm.errors.level)

module _ (o : Outside) where
  abbrev add_file : Option Prog → List Prog → List Prog
  add_file none files = files
  add_file (some f) files = f ∷ files

  -- The loop that reads each file; one that cannot be read is reported, and no pass is made then.
  unfoldable pub read_files : List Bytes → World → List Prog × World
  unfolding prog_new_file
  read_files [] w = ([], w)
  read_files (name ∷ names) w =
      let (f, v) = prog_new_file o name w in
      let (files, u) = read_files names v in (add_file f files, u)

module _ (s : Surroundings) (o : Outside) where
  -- The value of the option --exec, by its own number or that of a symbol.
  abbrev as_int : Node → ℤ
  as_int (node (int v) attr) = v
  as_int _ = s.junk

  abbrev exec_symbol : Result → World → Node × World
  exec_symbol (undef, e) w =
      (node_new_int (pos 0), tell fatal "exec symbol '%s' not defined" (with_errors e w))
  exec_symbol (n, e) w = (node_new_int (pos (uint16 (as_int n))), with_errors e w)

  abbrev exec_by : Node → Bytes → World → Node × World
  exec_by undef text w =
      exec_symbol (symbol_get w.symbol_ignore_undefined w.symbols text w.asm.errors) w
  exec_by n text w = (n, w)

  unfoldable pub exec_value : Bytes → World → Node × World
  unfolding simple_parse_int symbol_get
  exec_value text w = exec_by (simple_parse_int s.numerals text) text w

  abbrev stored_in : World → Stored → World
  stored_in w r = with_errors r.errors (record w { symbols = r.symbols })

  abbrev force_exec : ℕ → Node × World → World
  unfolding symbol_force_set
  force_exec max_passes (n, w) = stored_in w (
      symbol_force_set o.machine.equal (evaluate o w) exec_name n false max_passes w.symbols
        w.asm.errors)

  unfoldable pub set_exec_option : ℕ → Option Bytes → World → World
  unfolding exec_value force_exec
  set_exec_option max_passes none w = w
  set_exec_option max_passes (some text) w = force_exec max_passes (exec_value text w)

  abbrev exec_node : World → Node
  unfolding symbol_try_get
  exec_node w = symbol_try_get w.symbols exec_name

  abbrev all_sections : World → List Section
  unfolding dict_get_values
  all_sections w = dict_get_values (present_sections w).sections

  -- Are the spans padded into one?
  abbrev pads : OutputFormat → Bool
  pads binary = true
  pads dragondos = true
  pads _ = false

  -- the bytes of the output file
  unfoldable pub output_bytes : OutputFormat → World → Bytes
  unfolding exec_node all_sections
  output_bytes binary w = output_binary (all_sections w) w.asm.errors
  output_bytes dragondos w = output_dragondos s.junk (exec_node w) (all_sections w) w.asm.errors
  output_bytes coco w = output_coco s.junk (exec_node w) (all_sections w) w.asm.errors
  output_bytes motorola_srec w =
      output_motorola_srec s.junk (exec_node w) (all_sections w) w.asm.errors
  output_bytes intel_hex w = output_intel_hex s.junk (exec_node w) (all_sections w) w.asm.errors

  abbrev after_output : OutputFormat → World → World
  unfolding all_sections section_coalesce_all
  after_output format w =
      with_errors (section_coalesce_all (pads format) (all_sections w) w.asm.errors).1 w

  -- An output file that cannot be opened is not reported.
  unfoldable pub write_output : OutputFormat → Option Bytes → Progress → Progress
  unfolding output_bytes after_output
  write_output format none p = p
  write_output format (some name) (files, w) =
      if s.can_open name
      then (files ++ (name, output_bytes format w) ∷ [], after_output format w)
      else (files, w)

  -- Any other file, whose text the state gives.
  unfoldable pub write_file : Option Bytes → (World → Bytes × World) → Progress → Progress
  write_file none text p = p
  write_file (some name) text (files, w) =
      if s.can_open name
      then (files ++ (name, (text w).0) ∷ [], (text w).1)
      else (files, tell fatal "%s: %s" w)

  -- error_print_list, and the exit status
  abbrev pub end_run : ℤ → Bool → Bytes → Progress → Run
  unfolding error_print_list
  end_run verbosity success printed (files, w) = record {
    success = success;
    files = files;
    printed = printed ++ (error_print_list s.location verbosity w.asm.errors).0;
  }

  abbrev finish : ℤ → Bytes → Progress → Run
  finish verbosity printed (files, w) =
      if reaches syntax w
      then end_run verbosity false printed (files, w)
      else end_run verbosity true printed (files, w)

  abbrev listing_of : World → Bytes × World
  listing_of w = (s.listing_text w, w)

  abbrev with_exec : ℕ → Option Bytes → Progress → Progress
  unfolding set_exec_option
  with_exec max_passes text (files, w) = (files, set_exec_option max_passes text w)

  -- The files in their order.
  unfoldable pub write_files : Options → World → Progress
  unfolding write_output write_file with_exec prog_print_exports prog_print_symbols
  write_files p w =
      let listed = write_file p.listing_filename listing_of ([], w) in
      let ready = with_exec p.max_passes p.exec_option listed in
      let output = write_output p.output_format p.output_filename ready in
      let exported = write_file p.exports_filename (prog_print_exports s.printer o) output in
      write_file p.symbol_filename (prog_print_symbols s.printer o) exported

  -- After the passes: the warnings are printed, and the reports begin anew.
  unfoldable pub consistent : Options → World → Run
  unfolding error_print_list write_files
  consistent p w =
      let (warnings, none_left) = error_print_list s.location p.verbosity w.asm.errors in
      finish p.verbosity warnings (write_files p (with_errors none_left w))

  unfoldable pub after_passes : Options → World → Run
  unfolding consistent
  after_passes p w =
      if reaches inconsistent w then end_run p.verbosity false [] ([], w) else consistent p w

  unfoldable pub with_files : Options → List Prog × World → Run
  unfolding all_passes after_passes
  with_files p (files, w) =
      if reaches syntax w
      then end_run p.verbosity false [] ([], w)
      else after_passes p (all_passes o p.max_program_depth files p.max_passes 0 w)

  -- `main` after the options and the check that there are names of files.
  unfoldable pub run_main : Options → List Bytes → World → Run
  unfolding read_files with_files
  run_main p names w = with_files p (read_files o names w)
