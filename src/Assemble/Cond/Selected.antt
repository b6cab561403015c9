-- ===== src/Assemble/Cond/Selected.antt =====
-- The lines that a properly nested program assembles.
use asm.Prelude.{
  ℕ, suc, ◌≤◌, ◌≡◌, refl, sym, ap, ◌∙◌, true, false, none, some, List, [], ◌∷◌, ◌++◌, append_assoc,
  append-nil, length, arith,
}
use asm.Assemble.Cond.{
  CondState, cond_state_if, cond_state_if_done, cond_state_else, no_conds, dir_if, dir_elsif,
  dir_else, dir_endif,
}
use asm.Assemble.Cond.Nesting.{
  Line, directive, Ran, prepend, run_lines, Block, done, line, cond, Rest, endif, otherwise, elsif,
  flatten, flatten_rest, selected, selected_rest,
}
use asm.Assemble.Cond.Steps.{
  conds_of, if_skipped, elsif_skipped, else_skipped, endif_skipped, if_true, if_false, elsif_taken,
  else_taken, endif_active, elsif_finished, else_finished, endif_top, elsif_waiting, else_waiting,
  run-directive, run-plain, run-skipped,
}

module _ {ℓ} {A : Type ℓ} where
  -- Inside of lines that are excluded, nested conditions change nothing.
  mutual
    unfolding flatten

    skip_block :
        (b : Block A) (more : List (Line A)) (l : List CondState) (k : ℕ)
        → k ≤ length l
        → run_lines (flatten b more) (conds_of l (some k)) ≡ run_lines more (conds_of l (some k))
    skip_block done more l k h = refl
    skip_block (line a b) more l k h = run-skipped a (flatten b more) l k ∙ skip_block b more l k h
    skip_block (cond holds body rest b) more l k h =
        run-directive (dir_if holds) _ (conds_of l (some k)) _ (if_skipped holds l k)
        ∙ skip_block body (flatten_rest rest (flatten b more)) (cond_state_if_done ∷ l) k
            (omega (arith, h))
        ∙ skip_rest rest (flatten b more) l k h
        ∙ skip_block b more l k h

    skip_rest :
        (r : Rest A) (more : List (Line A)) (l : List CondState) (k : ℕ)
        → k ≤ length l
        → run_lines (flatten_rest r more) (conds_of (cond_state_if_done ∷ l) (some k))
          ≡ run_lines more (conds_of l (some k))
    skip_rest endif more l k h =
        run-directive dir_endif more _ _ (endif_skipped cond_state_if_done l k h)
    skip_rest (otherwise body) more l k h =
        run-directive dir_else _ _ _ (else_skipped l k h)
        ∙ skip_block body (directive dir_endif ∷ more) (cond_state_if_done ∷ l) k (omega (arith, h))
        ∙ run-directive dir_endif more _ _ (endif_skipped cond_state_if_done l k h)
    skip_rest (elsif holds body rest) more l k h =
        run-directive (dir_elsif holds) _ _ _ (elsif_skipped holds l k h)
        ∙ skip_block body (flatten_rest rest more) (cond_state_if_done ∷ l) k (omega (arith, h))
        ∙ skip_rest rest more l k h

  -- After the branch that was assembled, the others are excluded.
  finished_rest :
      (r : Rest A) (more : List (Line A)) (l : List CondState)
      → run_lines (flatten_rest r more) (conds_of (cond_state_if_done ∷ l) (some (suc (length l))))
        ≡ run_lines more (conds_of l none)
  unfolding flatten
  finished_rest endif more l = run-directive dir_endif more _ _ (endif_top cond_state_if_done l)
  finished_rest (otherwise body) more l =
      run-directive dir_else _ _ _ (else_finished l)
      ∙ skip_block body (directive dir_endif ∷ more) (cond_state_if_done ∷ l) (suc (length l))
          (omega arith)
      ∙ run-directive dir_endif more _ _ (endif_top cond_state_if_done l)
  finished_rest (elsif holds body rest) more l =
      run-directive (dir_elsif holds) _ _ _ (elsif_finished holds l)
      ∙ skip_block body (flatten_rest rest more) (cond_state_if_done ∷ l) (suc (length l))
          (omega arith)
      ∙ finished_rest rest more l

  taken_rest :
      (r : Rest A) (more : List (Line A)) (l : List CondState)
      → run_lines (flatten_rest r more) (conds_of (cond_state_if_done ∷ l) none)
        ≡ run_lines more (conds_of l none)
  unfolding flatten
  taken_rest endif more l = run-directive dir_endif more _ _ (endif_active cond_state_if_done l)
  taken_rest (otherwise body) more l =
      run-directive dir_else _ _ _ (else_taken l)
      ∙ skip_block body (directive dir_endif ∷ more) (cond_state_else ∷ l) (suc (length l))
          (omega arith)
      ∙ run-directive dir_endif more _ _ (endif_top cond_state_else l)
  taken_rest (elsif holds body rest) more l =
      run-directive (dir_elsif holds) _ _ _ (elsif_taken holds l)
      ∙ skip_block body (flatten_rest rest more) (cond_state_if_done ∷ l) (suc (length l))
          (omega arith)
      ∙ finished_rest rest more l

  prepend-prepend : (xs ys : List A) (r : Ran A) → prepend xs (prepend ys r) ≡ prepend (xs ++ ys) r
  prepend-prepend xs ys r =
      ap (λ zs. record r { assembled = zs }) (sym (append_assoc xs ys r.assembled))

  mutual
    unfolding flatten selected

    active_block :
        (b : Block A) (more : List (Line A)) (l : List CondState)
        → run_lines (flatten b more) (conds_of l none)
          ≡ prepend (selected b) (run_lines more (conds_of l none))
    active_block done more l = refl
    active_block (line a b) more l =
        run-plain a (flatten b more) l ∙ ap (prepend (a ∷ [])) (active_block b more l)
    active_block (cond true body rest b) more l =
        run-directive (dir_if true) _ _ _ (if_true l)
        ∙ active_block body (flatten_rest rest (flatten b more)) (cond_state_if_done ∷ l)
        ∙ ap (prepend (selected body)) (taken_rest rest (flatten b more) l ∙ active_block b more l)
        ∙ prepend-prepend (selected body) (selected b) (run_lines more (conds_of l none))
    active_block (cond false body rest b) more l =
        run-directive (dir_if false) _ _ _ (if_false l)
        ∙ skip_block body (flatten_rest rest (flatten b more)) (cond_state_if ∷ l) (suc (length l))
            (omega arith)
        ∙ waiting_rest rest (flatten b more) l
        ∙ ap (prepend (selected_rest rest)) (active_block b more l)
        ∙ prepend-prepend (selected_rest rest) (selected b) (run_lines more (conds_of l none))

    waiting_rest :
        (r : Rest A) (more : List (Line A)) (l : List CondState)
        → run_lines (flatten_rest r more) (conds_of (cond_state_if ∷ l) (some (suc (length l))))
          ≡ prepend (selected_rest r) (run_lines more (conds_of l none))
    waiting_rest endif more l = run-directive dir_endif more _ _ (endif_top cond_state_if l)
    waiting_rest (otherwise body) more l =
        run-directive dir_else _ _ _ (else_waiting l)
        ∙ active_block body (directive dir_endif ∷ more) (cond_state_else ∷ l)
        ∙ ap (prepend (selected body))
            (run-directive dir_endif more _ _ (endif_active cond_state_else l))
    waiting_rest (elsif true body rest) more l =
        run-directive (dir_elsif true) _ _ _ (elsif_waiting true l)
        ∙ active_block body (flatten_rest rest more) (cond_state_if_done ∷ l)
        ∙ ap (prepend (selected body)) (taken_rest rest more l)
    waiting_rest (elsif false body rest) more l =
        run-directive (dir_elsif false) _ _ _ (elsif_waiting false l)
        ∙ skip_block body (flatten_rest rest more) (cond_state_if ∷ l) (suc (length l))
            (omega arith)
        ∙ waiting_rest rest more l

  -- Of properly nested conditions, exactly the lines are assembled that stand in the first branch of
  -- each whose expression holds, or behind its ELSE; no condition is open at the end, and nothing is
  -- reported.
  pub run_lines-selected :
      (b : Block A)
      → run_lines (flatten b []) no_conds
        ≡ record { assembled = selected b; messages = []; conds = no_conds }
  unfolding run_lines
  run_lines-selected b =
      active_block b [] []
      ∙ ap (λ xs. record { assembled = xs; messages = []; conds = no_conds })
          (append-nil (selected b))
