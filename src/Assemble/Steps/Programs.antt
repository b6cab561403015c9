-- ===== src/Assemble/Steps/Programs.antt =====
-- src/assemble.c and src/asm6809.c: what programs and passes leave as it was, and the passes of symbols.
use asm.Prelude.{
  ℕ, zero, suc, ◌+◌, ◌≤◌, ◌≡◌, refl, arith, Bool, true, false, and_left, and_right, List, [], ◌∷◌,
  all, Option, none, some,
}
use asm.Error.{needs_pass, error_clear_all}
use asm.Text.{Bytes, bytes}
use asm.Dict.{dict_str_equal, dict_lookup}
use asm.Symbol.{Symbol, set_in_pass}
use asm.Assemble.World.{Outside, World, Prog, with_errors, enter_section}
use asm.Assemble.Program.{assemble_prog}
use asm.Assemble.Passes.{begin_pass, finish_pass, assemble_files, one_pass, all_passes}
use asm.Assemble.Steps.{Steps, stay, both, is_prog}
use asm.Assemble.Steps.Kept.{are_progs, are_progs-Steps, interp_stack-Steps, asm_pass-Steps}
use asm.Assemble.Steps.Label.{enter_section-Steps}
use asm.Assemble.Steps.Line.{Parses}
use asm.Assemble.Steps.Lines.{assemble_prog-Steps}
use asm.Assemble.Steps.Passes.{within, SetWithin-later, SetWithin, SetWithin-Steps}

-- A program leaves the stack of positional variables as it was, whatever macros it expands and however
-- they are nested, and whatever errors there are; and so it does the number of the pass. The lines that
-- the parser returns, and those of the programs, have an array of arguments or none.
pub interp_stack-assemble_prog :
    (o : Outside) (depth : ℕ) (prog : Prog) (w : World)
    → Parses o
    → is_prog prog ≡ true
    → are_progs w ≡ true
    → ((assemble_prog o depth prog w).interp_stack ≡ w.interp_stack)
      × ((assemble_prog o depth prog w).asm_pass ≡ w.asm_pass)
interp_stack-assemble_prog o depth prog w h p g =
    let s = assemble_prog-Steps o depth h prog w p g in (interp_stack-Steps s, asm_pass-Steps s)

assemble_files-Steps :
    (o : Outside) (depth : ℕ) (files : List Prog) (w : World)
    → Parses o
    → all is_prog files ≡ true
    → are_progs w ≡ true
    → Steps o w (assemble_files o depth files w)
unfolding assemble_files
assemble_files-Steps o depth [] w h p g = stay
assemble_files-Steps o depth (f ∷ files) w h p g =
    let here = assemble_prog-Steps o depth h f w (and_left (is_prog f) (all is_prog files) p) g in
    both here (
      assemble_files-Steps o depth files (assemble_prog o depth f w) h
        (and_right (is_prog f) (all is_prog files) p) (are_progs-Steps here g))

SetWithin-one_pass :
    (o : Outside) (depth : ℕ) (files : List Prog) (pass last : ℕ) (w : World)
    → Parses o
    → all is_prog files ≡ true
    → are_progs w ≡ true
    → pass ≤ last
    → SetWithin last w.symbols
    → (are_progs (one_pass o depth files pass w) ≡ true)
      × SetWithin last (one_pass o depth files pass w).symbols
unfolding one_pass finish_pass enter_section
SetWithin-one_pass o depth files pass last w h p g below k =
    let cleared = with_errors (error_clear_all w.asm.errors) (record w { asm_pass = pass }) in
    let s =
      both (enter_section-Steps {o = o} (bytes "CODE") cleared)
        (assemble_files-Steps o depth files (begin_pass pass w) h p g) in
    (are_progs-Steps s g, SetWithin-Steps last s below k)

SetWithin-all_passes :
    (o : Outside) (depth : ℕ) (files : List Prog) (passes pass last : ℕ) (w : World)
    → Parses o
    → all is_prog files ≡ true
    → are_progs w ≡ true
    → pass + passes ≤ suc last
    → SetWithin last w.symbols
    → SetWithin last (all_passes o depth files passes pass w).symbols
unfolding all_passes
SetWithin-all_passes o depth files zero pass last w h p g below k = k
SetWithin-all_passes o depth files (suc passes) pass last w h p g below k =
    let (progs, here) =
      SetWithin-one_pass o depth files pass last w h p g (omega (arith, below)) k in
    let v = one_pass o depth files pass w in
    again_or_not (needs_pass v.asm.errors) (all_passes o depth files passes (suc pass) v) v
      (SetWithin-all_passes o depth files passes (suc pass) last v h p progs (omega (arith, below))
        here)
      here
  where
    again_or_not :
        (b : Bool) (again v : World)
        → SetWithin last again.symbols
        → SetWithin last v.symbols
        → SetWithin last (elim b as (λ x. World) [ true ↦ again | false ↦ v ]).symbols
    again_or_not true again v a b = a
    again_or_not false again v a b = b

not_after : (last : ℕ) (s : Option Symbol) → within last s ≡ true → set_in_pass (suc last) s ≡ false
not_after last none h = refl
not_after last (some s) h = ground (arith, h)

-- After at most so many passes no symbol counts as set in a pass of that number, if none was set in a
-- pass beyond the first before them: END, which sets its symbol for the pass 0, does not break this.
pub set_in_pass-all_passes :
    (o : Outside) (depth : ℕ) (files : List Prog) (last : ℕ) (w : World)
    → Parses o
    → all is_prog files ≡ true
    → are_progs w ≡ true
    → SetWithin 0 w.symbols
    → (i : Bytes)
    → set_in_pass
        (suc last)
        (dict_lookup dict_str_equal (all_passes o depth files (suc last) 0 w).symbols i)
      ≡ false
set_in_pass-all_passes o depth files last w h p g k i = not_after last _ (
    SetWithin-all_passes o depth files (suc last) 0 last w h p g (omega arith)
      (SetWithin-later last w.symbols k) i)
