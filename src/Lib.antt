-- ===== src/Lib.antt =====
-- asm6809, a cross assembler for the Motorola 6809 and Hitachi 6309: a model of its core in C, from
-- the encoders of instructions to the bytes that are placed in memory, with theorems on both.
--
-- The parts. A line of the source is parsed into a label, an opcode and an array of argument nodes.
-- src/assemble.c goes over the lines of a program, file or macro: it keeps the conditions that are
-- open, records macros, evaluates the nodes with src/eval.c and hands the opcode to a pseudo-operation
-- of its own or to an encoder of src/instr.c, which emit bytes into the current section of
-- src/section.c. A section is a list of spans of consecutive bytes. An evaluation reads the symbols
-- and local labels of src/symbol.c and the arguments of the macro in src/interp.c. Reports go to
-- src/error.c, whose level decides in the loop of src/asm6809.c on another pass. After the last pass
-- the spans of all sections are sorted, joined and written by src/output.c. Around this, main in
-- src/asm6809.c reads the options and the files, and writes the other files that the options name.
--
-- Which file models what:
--   Prelude   numbers, tests and the lemmas that the others share; Text, C strings
--   Error     src/error.c, error.h: verror, error, error_clear_all, the decision on another pass;
--             Error.Print error_print_list
--   Register  src/register.c: the names and tables of registers
--   Node      src/node.c, node.h: argument nodes, their attributes and arrays; Node.New the
--             constructor functions, Node.Print node_print
--   Slist     dt101/slist.c: slist_merge, slist_sort; Slist.Cells the functions that relink cells
--   Dict      dt101/dict.c: dictionaries, as lists of their entries
--   Section   src/section.c: the spans, section_emit and its variants, section_skip;
--             Section.Sections the table of sections, section_set and section_finish_pass
--   Coalesce  src/section.c: span_cmp, section_coalesce, section_coalesce_all
--   Opcode    src/opcode.h: a row of the opcode tables; Opcode.Mc6809 and Opcode.Hd6309 the rows of
--             src/opcode.c, Opcode.Tables opcode_init and opcode_by_name
--   Eval      src/eval.c: the casts; Eval.Number and Eval.Operator the operators on 64-bit integers,
--             doubles and strings, Eval.Expression eval_node and eval_string
--   Symbol    src/symbol.c: the table of symbols; Symbol.Local the local labels
--   Interp    src/interp.c: the stack of positional variables
--   Instr     src/instr.c, by encoder: Immediate (instr_inherent, instr_immediate), Rel, Indexed,
--             Address (instr_address, instr_imm8_mem), Stack, Pair (instr_pair, instr_tfm,
--             instr_reg_mem)
--   Pseudo    src/assemble.c: the pseudo-operations on data (Data, with Vdg for the character codes)
--             and on memory and addresses (Address)
--   Assemble  src/assemble.c: World is the state of an assembly; Cond the conditions, Label the labels
--             and the pseudo-operations on symbols and sections, Instruction the choice of the encoder,
--             Macro the macros and files (with src/program.c), Line the dispatch of an opcode,
--             Program assemble_prog, Passes the loop of main in src/asm6809.c, Export the printing of
--             exports and symbols (src/program.c); Steps and its children are the changes that the
--             assembly of a program consists of, as a relation between states, and its invariants;
--             Dispatch is about the rows of the opcode tables
--   Output    src/output.c: the five formats; Output.Hex the two of records in hexadecimal
--   Listing   src/listing.c: the lines of a listing and their columns
--   Options   src/asm6809.c: the options, simple_parse_int, define_symbol
--   Main      src/asm6809.c: main after the options
--   Tests     concrete inputs on which the theorems apply, programs assembled, and a run of main
--
-- How state corresponds. The globals that an encoder reads and writes (the current section, the
-- span sequence, the error level and list, the options) are one record, Section.Asm, passed from
-- call to call; a call of section_emit_uint8 is a function from Asm to Asm. The state of an assembly,
-- Assemble.World.World, holds it together with the tables. The current section is a pointer into the
-- table of sections in the source; in World its present state stands in Asm and is written to the
-- table where another section is entered, where an included file ends and at the end of a pass. The
-- pointer cond_excluded is the number of conditions from the one it points to on. An early return is
-- the end of a function by clauses. The type int has 32 bits and wraps (int32), an int64_t wraps at 64,
-- an unsigned is reduced modulo 2 ^ 32, an argument of type uint8_t modulo 256. A NULL node is `undef`.
--
-- Bounds and fuel. The loops of to_rel16 run on fuel computed from their argument: a round takes
-- 65536 off, so the quotient and one round more are enough. The merge sort runs on fuel the length
-- of its list, which each half reduces. A span is printed in chunks on fuel the number of its
-- bytes, since a chunk has at least one; a number of 32 bits is printed in eight rounds, since it
-- has at most eight digits, and one of 64 bits in twenty. The loops over the cells of a list run on
-- fuel, and the number of cells is enough. eval_node runs on fuel, one unit for each
-- level of nesting; what is enough for a value is its height. assemble_prog recurs on the depth that
-- max_program_depth leaves, as in the source, and the loop over the passes on the number of passes
-- that are left. Everything else is structural recursion.
--
-- Parameters. The arithmetic of doubles and what C leaves undefined (Eval.Number.Machine), the numbers
-- that the parser gives to operators of two characters (Eval.Operator.Tokens), the sorted lists of
-- gnulib (Symbol.Local.GlList), the parser of files, the contents of binary files and the dictionary of
-- opcodes (Assemble.World.Outside; its rows are those of Opcode.Tables where a theorem speaks of them),
-- the text of a double and of a register that is not there (Node.Print.Printer), strtol
-- (Options.Numerals), and which files can be opened, the text of a listing and where a message came
-- from (Main.Surroundings). Of the parser the theorems on whole programs suppose that the arguments of
-- a line are an array or none. Of a search in a sorted list the theorems suppose that it compares elements
-- of the list only, and that it compares the element before which the comparison is negative on all
-- and after which it is positive on all.
--
-- Not modelled. Reference counts and allocation, and with them that the node of a symbol or of an
-- argument may be shared with the result of an evaluation, which may change its attribute in place;
-- the lexer and the grammar, the calls that the assembly of lines makes to the listing, but for those of
-- lines that emit (Listing.instruction_line and data_line), getopt_long, and the help and version texts.
-- A message is its format string. Where the source reads a local variable that was never assigned, its
-- value is an argument of the model (Instr.Pair). After a program that leaves the definition of a macro
-- open the source keeps a pointer to a context that was freed; the model has none there. The copy of
-- gnulib and the hash table below the dictionary are other projects'.
pub mod Prelude
pub mod Text
pub mod Error
pub mod Register
pub mod Node
pub mod Section
pub mod Slist
pub mod Dict
pub mod Symbol
pub mod Interp
pub mod Coalesce
pub mod Opcode
pub mod Eval
pub mod Output
pub mod Pseudo
pub mod Instr
pub mod Listing
pub mod Options
pub mod Assemble
pub mod Main
mod Tests
