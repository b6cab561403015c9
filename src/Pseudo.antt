-- ===== src/Pseudo.antt =====
-- src/assemble.c: the pseudo-operations that embed data, reserve memory or move the address counters.
-- Those on labels, symbols and sections are in Assemble; their calls of the
-- listing are not modelled. `float_to_int`
-- and `float_to_int32` convert a double, given by its bit pattern. A `long` has 64 bits.
pub mod Address
pub mod Layout
pub mod Data
pub mod Vdg
use asm.Prelude.{
  ℕ, String, Bool, true, false, ◌&&◌, Option, none, some, List, [], ◌∷◌, ltb, leb, ◌==◌, length,
  if◌then◌else◌,
}
use asm.Prelude.Int.{ℤ, pos}
use asm.Error.{syntax}
use asm.Node.{Node, undef, node, empty, int, float, node_array_of}
use asm.Section.{Asm}
use asm.Instr.{complain}

-- The messages for a wrong number of arguments.
abbrev pub wrong_number : ℕ → Option ℕ → Asm → Asm
wrong_number min none a = complain syntax "'%s' requires at least %d argument%s" a
wrong_number min (some max) a =
    if min == max
    then complain syntax "'%s' requires exactly %d argument%s" a
    else complain syntax "'%s' requires between %d and %d arguments" a

abbrev pub within : ℕ → Option ℕ → ℕ → Bool
within min none nargs = leb min nargs
within min (some max) nargs = leb min nargs && leb nargs max

-- Where the number of arguments is allowed, the rest of the pseudo-operation is run on them; a bound
-- of none stands for a negative one.
abbrev pub verify_num_args : ℕ → Option ℕ → (List Node → Asm → Asm) → Node → Asm → Asm
verify_num_args min max rest args a =
    if within min max (length (node_array_of args))
    then rest (node_array_of args) a
    else wrong_number min max a

-- What a call that may report hands to the code behind it.
abbrev pub With : Type 0
With = ℤ × Asm

module _ (float_to_int : ℕ → ℤ) where
  abbrev pub int_of_node : ℤ → Node → Asm → With
  int_of_node default undef a = (default, a)
  int_of_node default (node empty attr) a = (pos 0, a)
  int_of_node default (node (int v) attr) a = (v, a)
  int_of_node default (node (float v) attr) a = (float_to_int v, a)
  int_of_node default _ a =
      (default, complain syntax "argument %d of '%s' invalid: expected integer value" a)

  -- The argument list from the index on.
  abbrev pub have_int_optional : List Node → ℤ → Asm → With
  have_int_optional [] default a = (default, a)
  have_int_optional (n ∷ args) default a = int_of_node default n a

  abbrev pub have_int_required : List Node → ℤ → Asm → With
  have_int_required [] default a =
      (default, complain syntax "required argument %d of '%s' missing" a)
  have_int_required (n ∷ args) default a = int_of_node default n a
