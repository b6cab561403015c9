-- ===== src/Error.antt =====
-- src/error.c and src/error.h: the highest level of a pass, and the list of its messages.
-- The file name and the line number of a message come from the stack of programs, which is not
-- modelled; a message is its format string.
pub mod Level
pub mod Print
use asm.Prelude.{
  ℕ, String, Bool, Option, none, some, List, [], ◌∷◌, ◌++◌, ◌&&◌, ltb, ◌==◌, if◌then◌else◌,
}

-- enum error_type, in its order
pub data ErrorType : Type 0 where
  none_reported inefficient illegal inconsistent out_of_range syntax data_error fatal : ErrorType

-- the number of an enumerator
abbrev pub rank : ErrorType → ℕ
rank none_reported = 0
rank inefficient = 1
rank illegal = 2
rank inconsistent = 3
rank out_of_range = 4
rank syntax = 5
rank data_error = 6
rank fatal = 7

-- struct error
pub record Report : Type 0 where
  pub type : ErrorType
  pub message : String

-- `error_level` and `error_list`
pub record Errors : Type 0 where
  pub level : ErrorType
  pub list : List Report

abbrev pub no_errors : Errors
no_errors = record { level = none_reported; list = [] }

-- the first `if` of `verror`
abbrev pub raise_level : ErrorType → ErrorType → ErrorType
raise_level type level = if ltb (rank level) (rank type) then type else level

-- the second `if`: an inconsistency outweighs a value that is out of range
abbrev pub prefer_inconsistent : ErrorType → ErrorType → ErrorType
prefer_inconsistent type level =
    if rank type == rank inconsistent && rank level == rank out_of_range
    then inconsistent
    else level

abbrev pub report : ErrorType → Option String → List Report → List Report
report type none list = list
report type (some fmt) list = list ++ record { type = type; message = fmt } ∷ []

unfoldable pub verror : ErrorType → Option String → Errors → Errors
verror type fmt e = record {
  level = prefer_inconsistent type (raise_level type e.level);
  list = report type fmt e.list;
}

unfoldable pub error : ErrorType → String → Errors → Errors
unfolding verror
error type fmt e = verror type (some fmt) e

unfoldable pub error_clear_all : Errors → Errors
error_clear_all e = no_errors

-- the loop of `main` makes another pass for this level only
unfoldable pub needs_pass : Errors → Bool
needs_pass e = rank e.level == rank inconsistent
