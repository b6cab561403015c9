-- ===== src/Assemble/Passes.antt =====
-- src/asm6809.c: the loop of `main` over the passes, from the files that were read.
use asm.Prelude.{
  ℕ, zero, suc, ◌+◌, ◌≡◌, refl, ap, ◌∙◌, arith, Bool-cases, inl, inr, true, false, List, [], ◌∷◌,
}
use asm.Text.{bytes}
use asm.Error.{Errors, error_clear_all, needs_pass}
use asm.Section.Sections.{Sections, section_finish_pass}
use asm.Assemble.World.{
  Outside, World, Prog, with_errors, enter_section, present_sections, go_on_in,
}
use asm.Assemble.Program.{assemble_prog}

abbrev pub finished : World → Sections × Errors → World
finished w (st, e) = with_errors e (go_on_in w.current st w)

-- section_finish_pass, with the present state of the current section
unfoldable pub finish_pass : World → World
unfolding section_finish_pass
finish_pass w = finished w (section_finish_pass (present_sections w) w.asm.errors)

abbrev pub begin_pass : ℕ → World → World
begin_pass pass w =
    enter_section (bytes "CODE")
      (with_errors (error_clear_all w.asm.errors) (record w { asm_pass = pass }))

unfoldable pub assemble_files : Outside → ℕ → List Prog → World → World
unfolding assemble_prog
assemble_files o max_program_depth [] w = w
assemble_files o max_program_depth (f ∷ files) w =
    assemble_files o max_program_depth files (assemble_prog o max_program_depth f w)

unfoldable pub one_pass : Outside → ℕ → List Prog → ℕ → World → World
unfolding error_clear_all enter_section finish_pass assemble_files
one_pass o max_program_depth files pass w =
    finish_pass (assemble_files o max_program_depth files (begin_pass pass w))

-- The passes that are left, from the given one on.
unfoldable pub all_passes : Outside → ℕ → List Prog → ℕ → ℕ → World → World
unfolding one_pass needs_pass
all_passes o max_program_depth files zero pass w = w
all_passes o max_program_depth files (suc passes) pass w =
    let v = one_pass o max_program_depth files pass w in
    elim (needs_pass v.asm.errors) [
      | true ↦ all_passes o max_program_depth files passes (suc pass) v
      | false ↦ v
    ]

suc_add : (m n : ℕ) → suc m + n ≡ suc (m + n)
suc_add m n = omega arith

-- Where the result of at least one pass allowed needs no other, the same result comes of any greater
-- number of passes allowed: the loop stops there, and its bound plays no part.
pub all_passes-more :
    (o : Outside) (max_program_depth : ℕ) (files : List Prog) (passes more pass : ℕ) (w : World)
    → needs_pass (all_passes o max_program_depth files (suc passes) pass w).asm.errors ≡ false
    → all_passes o max_program_depth files (suc (passes + more)) pass w
      ≡ all_passes o max_program_depth files (suc passes) pass w
unfolding all_passes
all_passes-more o depth files zero more pass w h =
    elim (Bool-cases (needs_pass (one_pass o depth files pass w).asm.errors)) [
      | inl t ↦
          let again : needs_pass (one_pass o depth files pass w).asm.errors ≡ false =
            rw (t, all_passes) at h in
          cc
      | inr f ↦ rw (f, all_passes) refl
    ]
all_passes-more o depth files (suc passes) more pass w h =
    elim (Bool-cases (needs_pass (one_pass o depth files pass w).asm.errors)) [
      | inl t ↦
          rw (t, all_passes)
            (ap (λ n. all_passes o depth files n (suc pass) (one_pass o depth files pass w))
                (suc_add passes more)
              ∙ all_passes-more o depth files passes more (suc pass) (one_pass o depth files pass w)
                  (rw (t, all_passes) at h))
      | inr f ↦ rw (f, all_passes) refl
    ]
