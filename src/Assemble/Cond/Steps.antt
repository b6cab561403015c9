-- ===== src/Assemble/Cond/Steps.antt =====
-- What each line of a condition does, by the state in which it is met.
use asm.Prelude.{
  ℕ, suc, ◌≤◌, ◌≡◌, refl, ap, Bool, true, false, Option, none, some, List, [], ◌∷◌, ◌==◌,
  if◌then◌else◌, length, arith,
}
use asm.Assemble.Cond.{
  CondState, cond_state_if, cond_state_if_done, cond_state_else, Conds, Directive, dir_if,
  dir_elsif, dir_else, dir_endif, cond_step, cond_if, cond_elsif, cond_else, cond_endif,
}
use asm.Assemble.Cond.Nesting.{Line, directive, plain, add_message, prepend, run_lines}

-- the lines of conditions, by the state in which they are met
abbrev pub conds_of : List CondState → Option ℕ → Conds
conds_of l k = record { cond_list = l; cond_excluded = k }

same_nat : (n : ℕ) → (n == n) ≡ true
same_nat n = ground arith

inner : (k n : ℕ) → k ≤ n → (k == suc n) ≡ false
inner k n h = ground arith

pub if_skipped :
    (holds : Bool) (l : List CondState) (k : ℕ)
    → cond_step (dir_if holds) (conds_of l (some k))
      ≡ (conds_of (cond_state_if_done ∷ l) (some k), none)
unfolding cond_step cond_if
if_skipped holds l k = refl

pub elsif_skipped :
    (holds : Bool) (l : List CondState) (k : ℕ)
    → k ≤ length l
    → cond_step (dir_elsif holds) (conds_of (cond_state_if_done ∷ l) (some k))
      ≡ (conds_of (cond_state_if_done ∷ l) (some k), none)
unfolding cond_step cond_elsif
elsif_skipped holds l k h = rw (inner k (length l) h) refl

pub else_skipped :
    (l : List CondState) (k : ℕ)
    → k ≤ length l
    → cond_step dir_else (conds_of (cond_state_if_done ∷ l) (some k))
      ≡ (conds_of (cond_state_if_done ∷ l) (some k), none)
unfolding cond_step cond_else
else_skipped l k h = rw (inner k (length l) h) refl

pub endif_skipped :
    (state : CondState) (l : List CondState) (k : ℕ)
    → k ≤ length l
    → cond_step dir_endif (conds_of (state ∷ l) (some k)) ≡ (conds_of l (some k), none)
unfolding cond_step cond_endif
endif_skipped state l k h = rw (inner k (length l) h) refl

pub if_false :
    (l : List CondState)
    → cond_step (dir_if false) (conds_of l none)
      ≡ (conds_of (cond_state_if ∷ l) (some (suc (length l))), none)
unfolding cond_step cond_if
if_false l = refl

pub if_true :
    (l : List CondState)
    → cond_step (dir_if true) (conds_of l none) ≡ (conds_of (cond_state_if_done ∷ l) none, none)
unfolding cond_step cond_if
if_true l = refl

pub else_taken :
    (l : List CondState)
    → cond_step dir_else (conds_of (cond_state_if_done ∷ l) none)
      ≡ (conds_of (cond_state_else ∷ l) (some (suc (length l))), none)
unfolding cond_step cond_else
else_taken l = refl

pub endif_active :
    (state : CondState) (l : List CondState)
    → cond_step dir_endif (conds_of (state ∷ l) none) ≡ (conds_of l none, none)
unfolding cond_step cond_endif
endif_active state l = refl

pub elsif_taken :
    (holds : Bool) (l : List CondState)
    → cond_step (dir_elsif holds) (conds_of (cond_state_if_done ∷ l) none)
      ≡ (conds_of (cond_state_if_done ∷ l) (some (suc (length l))), none)
unfolding cond_step cond_elsif
elsif_taken holds l = refl

pub elsif_finished :
    (holds : Bool) (l : List CondState)
    → cond_step (dir_elsif holds) (conds_of (cond_state_if_done ∷ l) (some (suc (length l))))
      ≡ (conds_of (cond_state_if_done ∷ l) (some (suc (length l))), none)
unfolding cond_step cond_elsif
elsif_finished holds l = rw (same_nat (suc (length l))) refl

pub else_finished :
    (l : List CondState)
    → cond_step dir_else (conds_of (cond_state_if_done ∷ l) (some (suc (length l))))
      ≡ (conds_of (cond_state_if_done ∷ l) (some (suc (length l))), none)
unfolding cond_step cond_else
else_finished l = rw (same_nat (suc (length l))) refl

pub endif_top :
    (state : CondState) (l : List CondState)
    → cond_step dir_endif (conds_of (state ∷ l) (some (suc (length l)))) ≡ (conds_of l none, none)
unfolding cond_step cond_endif
endif_top state l = rw (same_nat (suc (length l))) refl

pub elsif_waiting :
    (holds : Bool) (l : List CondState)
    → cond_step (dir_elsif holds) (conds_of (cond_state_if ∷ l) (some (suc (length l)))) ≡ (
      (if holds
          then conds_of (cond_state_if_done ∷ l) none
          else conds_of (cond_state_if ∷ l) (some (suc (length l)))),
      none,
    )
unfolding cond_step cond_elsif
elsif_waiting true l = rw (same_nat (suc (length l))) refl
elsif_waiting false l = rw (same_nat (suc (length l))) refl

pub else_waiting :
    (l : List CondState)
    → cond_step dir_else (conds_of (cond_state_if ∷ l) (some (suc (length l))))
      ≡ (conds_of (cond_state_else ∷ l) none, none)
unfolding cond_step cond_else
else_waiting l = rw (same_nat (suc (length l))) refl

module _ {ℓ} {A : Type ℓ} where
  pub run-directive :
      (d : Directive) (ls : List (Line A)) (c after : Conds)
      → cond_step d c ≡ (after, none)
      → run_lines (directive d ∷ ls) c ≡ run_lines ls after
  unfolding run_lines
  run-directive d ls c after h = ap (λ p. add_message p.1 (run_lines ls p.0)) h

  pub run-plain :
      (a : A) (ls : List (Line A)) (l : List CondState)
      → run_lines (plain a ∷ ls) (conds_of l none)
        ≡ prepend (a ∷ []) (run_lines ls (conds_of l none))
  unfolding run_lines
  run-plain a ls l = refl

  pub run-skipped :
      (a : A) (ls : List (Line A)) (l : List CondState) (k : ℕ)
      → run_lines (plain a ∷ ls) (conds_of l (some k)) ≡ run_lines ls (conds_of l (some k))
  unfolding run_lines
  run-skipped a ls l k = refl
