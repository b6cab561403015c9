-- ===== src/Error/Level.antt =====
-- How the level of a pass grows, and what decides another pass.
use asm.Prelude.{
  ℕ, ◌≤◌, ◌≡◌, String, Option, Bool, true, false, List, [], ◌∷◌, ◌&&◌, arith, ltb, ◌==◌,
}
use asm.Error.{
  ErrorType, none_reported, inefficient, illegal, inconsistent, out_of_range, syntax, data_error,
  fatal, rank, Errors, no_errors, verror, needs_pass,
}

-- The calls of `verror` in a pass, as a list of arguments.
abbrev pub Call : Type 0
Call = ErrorType × Option String

abbrev pub run : List Call → Errors → Errors
run [] e = e
run ((type, fmt) ∷ calls) e = run calls (verror type fmt e)

-- The last call that is of type inconsistent or out of range is of type inconsistent.
abbrev pub ends_inconsistent : List Call → Bool → Bool
ends_inconsistent [] found = found
ends_inconsistent ((inconsistent, fmt) ∷ calls) found = ends_inconsistent calls true
ends_inconsistent ((out_of_range, fmt) ∷ calls) found = ends_inconsistent calls false
ends_inconsistent ((_, fmt) ∷ calls) found = ends_inconsistent calls found

-- Every call has a type below the given rank.
abbrev pub all_below_rank : ℕ → List Call → Bool
all_below_rank n [] = true
all_below_rank n ((type, fmt) ∷ calls) = ltb (rank type) n && all_below_rank n calls

needs_pass-run_from :
    (calls : List Call) (e : Errors)
    → all_below_rank 5 calls ≡ true
    → rank e.level ≤ 4
    → needs_pass (run calls e) ≡ ends_inconsistent calls (rank e.level == 3)
unfolding needs_pass verror
needs_pass-run_from [] e h le = ground arith
needs_pass-run_from ((none_reported, fmt) ∷ calls) e h le =
    ground (arith, needs_pass-run_from calls (verror none_reported fmt e))
needs_pass-run_from ((inefficient, fmt) ∷ calls) e h le =
    ground (arith, needs_pass-run_from calls (verror inefficient fmt e))
needs_pass-run_from ((illegal, fmt) ∷ calls) e h le =
    ground (arith, needs_pass-run_from calls (verror illegal fmt e))
needs_pass-run_from ((inconsistent, fmt) ∷ calls) e h le =
    ground (arith, needs_pass-run_from calls (verror inconsistent fmt e))
needs_pass-run_from ((out_of_range, fmt) ∷ calls) e h le =
    ground (arith, needs_pass-run_from calls (verror out_of_range fmt e))
needs_pass-run_from ((syntax, fmt) ∷ calls) e h le = ground arith
needs_pass-run_from ((data_error, fmt) ∷ calls) e h le = ground arith
needs_pass-run_from ((fatal, fmt) ∷ calls) e h le = ground arith

-- Where no call of a pass is of type syntax or above, another pass is made exactly when, of the
-- calls of type inconsistent and out of range, the last is of type inconsistent: an inconsistency
-- that is followed by a value out of range does not cause another pass.
pub needs_pass-run :
    (calls : List Call)
    → all_below_rank 5 calls ≡ true
    → needs_pass (run calls no_errors) ≡ ends_inconsistent calls false
needs_pass-run calls h = needs_pass-run_from calls no_errors h (omega arith)

-- Once the level is syntax or above, whatever is reported after, no other pass is made.
pub needs_pass-fatal :
    (calls : List Call) (e : Errors)
    → 5 ≤ rank e.level
    → (needs_pass (run calls e) ≡ false) × (5 ≤ rank (run calls e).level)
unfolding needs_pass verror
needs_pass-fatal [] e h = ground arith
needs_pass-fatal ((type, fmt) ∷ calls) e h =
    ground (arith, needs_pass-fatal calls (verror type fmt e))
