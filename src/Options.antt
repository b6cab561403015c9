-- ===== src/Options.antt =====
-- src/asm6809.c: the options, and the symbols that they define. What getopt_long returns is the list of
-- the options that were given, a short or a long one alike; strtol is a parameter.
pub mod Define
pub mod Passes
use asm.Prelude.{
  ℕ, Bool, true, false, not, ◌&&◌, ◌||◌, Option, none, some, List, [], ◌∷◌, leb, ◌==◌,
  if◌then◌else◌,
}
use asm.Prelude.Int.{ℤ, pos, negsuc, ltb_ℤ, pos_part}
use asm.Text.{Bytes}
use asm.Register.{Isa, isa_6809}
use asm.Error.{Errors, error, fatal}
use asm.Node.{Node, undef}
use asm.Eval.Expression.{Result}
use asm.Eval.Operator.{node_new_int}
use asm.Symbol.{Symbols, symbol_set}

-- the numbers OUTPUT_BINARY to OUTPUT_INTEL_HEX
pub data OutputFormat : Type 0 where
  binary dragondos coco motorola_srec intel_hex : OutputFormat

-- the static variables
pub record Options : Type 0 where
  pub max_passes : ℕ
  pub output_format : OutputFormat
  pub exec_option : Option Bytes
  pub output_filename : Option Bytes
  pub exports_filename : Option Bytes
  pub symbol_filename : Option Bytes
  pub listing_filename : Option Bytes
  pub isa : Isa
  pub max_program_depth : ℕ
  pub setdp : ℤ
  pub verbosity : ℤ

abbrev pub default_options : Options
default_options = record {
  max_passes = 12;
  output_format = binary;
  exec_option = none;
  output_filename = none;
  exports_filename = none;
  symbol_filename = none;
  listing_filename = none;
  isa = isa_6809;
  max_program_depth = 8;
  setdp = negsuc 0;
  verbosity = pos 0;
}

-- `strtol s base` is strtol(s, NULL, base). `strtol_any` is strtol(s, NULL, 0), and whether `errno` is not
-- 0 after it.
pub record Numerals : Type 0 where
  pub strtol : Bytes → ℕ → ℤ
  pub strtol_any : Bytes → ℤ × Bool

-- An option with its argument. The argument of --setdp is not read: the option has a flag.
pub data Given : Type 0 where
  opt_format : OutputFormat → Given
  opt_exec opt_define opt_max_passes opt_output opt_listing opt_exports opt_symbols : Bytes → Given
  opt_isa : Isa → Given
  opt_setdp : Bytes → Given
  opt_quiet opt_verbose opt_help opt_version opt_unknown : Given

module _ (c : Numerals) where
  abbrev is_digit : ℕ → Bool
  is_digit char = leb b'0' char && leb char b'9'

  -- behind a leading 0
  abbrev after_zero : Bytes → Bytes → Node
  after_zero str [] = node_new_int (c.strtol str 10)
  after_zero str (char ∷ rest) =
      if char == b'x'
      then node_new_int (c.strtol rest 16)
      else (if char == b'b' then node_new_int (c.strtol rest 2) else node_new_int (c.strtol str 10))

  unfoldable pub simple_parse_int : Bytes → Node
  simple_parse_int [] = undef
  simple_parse_int (char ∷ rest) =
      if char == b'$'
      then node_new_int (c.strtol rest 16)
      else (if char == b'@'
          then node_new_int (c.strtol rest 8)
          else (if char == b'%'
              then node_new_int (c.strtol rest 2)
              else (if char == b'0'
                  then after_zero (char ∷ rest) rest
                  else (if is_digit char
                      then node_new_int (c.strtol (char ∷ rest) 10)
                      else undef))))

module _ (c : Numerals) where
  unfoldable pub defined_value : Option Bytes → Node
  unfolding simple_parse_int
  defined_value none = node_new_int (pos 1)
  defined_value (some text) = simple_parse_int c text

-- strchr(key, '='): what stands before it, and what stands behind it, if there is one
unfoldable pub split_assignment : Bytes → Bytes × Option Bytes
split_assignment [] = ([], none)
split_assignment (char ∷ str) =
    let rest = split_assignment str in
    if char == b'=' then ([], some str) else (char ∷ rest.0, rest.1)

-- `eval` is eval_node before any line is assembled.
module _ (c : Numerals) (float_eq : ℕ → ℕ → Bool) (eval : Node → Errors → Result) where
  abbrev define_by : Bytes × Option Bytes → Symbols × Errors → Symbols × Errors
  unfolding defined_value symbol_set
  define_by (key, value) (symbols, e) =
      symbol_set float_eq eval key (defined_value c value) false 0 symbols e

  unfoldable pub define_symbol : Bytes → Symbols × Errors → Symbols × Errors
  unfolding define_by split_assignment
  define_symbol str s = define_by (split_assignment str) s

-- What the options leave: they were all read, or the program ends with success or not.
pub data Read : Type 0 where
  going_on : Options → Symbols × Errors → Read
  exiting : Bool → Symbols × Errors → Read

abbrev refuse_passes : Symbols × Errors → Read
refuse_passes (symbols, e) = exiting false (symbols, error fatal "invalid value for max-passes" e)

abbrev passes_by : ℤ × Bool → Options → Symbols × Errors → Read
passes_by (v, errno) o s =
    if errno || (ltb_ℤ v (pos 2) || ltb_ℤ (pos 255) v)
    then refuse_passes s
    else going_on (record o { max_passes = pos_part v }) s

module _ (c : Numerals) (float_eq : ℕ → ℕ → Bool) (eval : Node → Errors → Result) where
  -- the switch
  unfoldable pub read_option : Given → Options → Symbols × Errors → Read
  unfolding define_symbol
  read_option (opt_format format) o s = going_on (record o { output_format = format }) s
  read_option (opt_exec arg) o s = going_on (record o { exec_option = some arg }) s
  read_option (opt_define arg) o s = going_on o (define_symbol c float_eq eval arg s)
  read_option (opt_max_passes arg) o s = passes_by (c.strtol_any arg) o s
  read_option (opt_output arg) o s = going_on (record o { output_filename = some arg }) s
  read_option (opt_listing arg) o s = going_on (record o { listing_filename = some arg }) s
  read_option (opt_exports arg) o s = going_on (record o { exports_filename = some arg }) s
  read_option (opt_symbols arg) o s = going_on (record o { symbol_filename = some arg }) s
  read_option (opt_isa isa) o s = going_on (record o { isa = isa }) s
  read_option (opt_setdp arg) o s = going_on (record o { setdp = pos 0 }) s
  read_option opt_quiet o s = going_on (record o { verbosity = negsuc 0 }) s
  read_option opt_verbose o s = going_on (record o { verbosity = pos 1 }) s
  read_option opt_help o s = exiting true s
  read_option opt_version o s = exiting true s
  read_option opt_unknown o s = exiting false s

  -- the loop over the options
  unfoldable pub read_options : List Given → Read → Read
  unfolding read_option
  read_options [] r = r
  read_options (g ∷ given) (exiting success s) = exiting success s
  read_options (g ∷ given) (going_on o s) = read_options given (read_option g o s)
