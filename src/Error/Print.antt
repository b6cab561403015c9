-- ===== src/Error/Print.antt =====
-- src/error.c, error_print_list: the messages that are printed at the end. Where a message came from,
-- the name of the program and the line, is a parameter: that text ends in a space, or is empty.
pub mod Shown
use asm.Prelude.{ℕ, String, List, [], ◌∷◌, ◌++◌, leb, if◌then◌else◌}
use asm.Prelude.Int.{ℤ, pos, ◌-ℤ◌, leb_ℤ}
use asm.Text.{Bytes, bytes}
use asm.Error.{
  ErrorType, none_reported, inefficient, illegal, inconsistent, syntax, rank, Report, Errors,
  no_errors,
}

-- the least number of a type that is printed
unfoldable pub min_error : ℤ → ErrorType → ℤ
min_error verbosity level =
    if leb (rank inconsistent) (rank level)
    then pos (rank level)
    else pos (rank illegal) -ℤ verbosity

abbrev tag : ErrorType → Bytes
tag none_reported = []
tag inefficient = bytes "warning: "
tag illegal = bytes "warning: "
tag syntax = bytes "syntax error: "
tag _ = bytes "error: "

module _ (location : Report → Bytes) where
  unfoldable pub print_error : Report → Bytes
  print_error r = tag r.type ++ location r ++ bytes r.message ++ 0x0a ∷ []

  -- the loop over the list
  unfoldable pub print_from : ℤ → List Report → Bytes
  unfolding print_error
  print_from least [] = []
  print_from least (r ∷ list) =
      let rest = print_from least list in
      if leb_ℤ least (pos (rank r.type)) then print_error r ++ rest else rest

  unfoldable pub error_print_list : ℤ → Errors → Bytes × Errors
  unfolding min_error print_from
  error_print_list verbosity e = (print_from (min_error verbosity e.level) e.list, no_errors)
