-- ===== src/Assemble/Steps/Kept.antt =====
-- What every step of an assembly leaves as it was, or as good.
use asm.Prelude.{
  ◌≡◌, ◌++◌, all-append, and_left, and_right, Bool-cases, inl, inr, refl, ◌∙◌, Bool, true, ◌&&◌,
  List, [], ◌∷◌, all,
}
use asm.Error.{Errors}
use asm.Node.{Node}
use asm.Text.{Bytes, bytes_eq}
use asm.Interp.{interp_pop}
use asm.Assemble.World.{Outside, World, Prog, ProgLine}
use asm.Assemble.Macro.{add_line}
use asm.Assemble.Steps.{
  Steps, stay, both, to_asm, to_symbols, to_locals, to_section, to_exports, to_ignoring, to_level,
  to_context, new_macro, new_line, to_file, expansion, is_line, is_prog,
}

pop-push :
    (l stack : List Node) (args : Node) (e : Errors) → l ≡ args ∷ stack → (interp_pop l e).0 ≡ stack
unfolding interp_pop
pop-push l stack args e h = rw h refl

pub interp_stack-Steps : {o : Outside} {w v : World} → Steps o w v → v.interp_stack ≡ w.interp_stack
interp_stack-Steps stay = refl
interp_stack-Steps (both s t) = interp_stack-Steps t ∙ interp_stack-Steps s
interp_stack-Steps (to_asm a) = refl
interp_stack-Steps (to_symbols key value changeable pass e h) = refl
interp_stack-Steps (to_locals key value e) = refl
interp_stack-Steps (to_section current sections) = refl
interp_stack-Steps (to_exports exports) = refl
interp_stack-Steps (to_ignoring b) = refl
interp_stack-Steps (to_level n) = refl
interp_stack-Steps (to_context c) = refl
interp_stack-Steps (new_macro name) = refl
interp_stack-Steps (new_line name l h) = refl
interp_stack-Steps (to_file file h) = refl
interp_stack-Steps (expansion {w} {u} args h s) =
    pop-push u.interp_stack w.interp_stack args u.asm.errors (interp_stack-Steps s)

pub asm_pass-Steps : {o : Outside} {w v : World} → Steps o w v → v.asm_pass ≡ w.asm_pass
asm_pass-Steps stay = refl
asm_pass-Steps (both s t) = asm_pass-Steps t ∙ asm_pass-Steps s
asm_pass-Steps (to_asm a) = refl
asm_pass-Steps (to_symbols key value changeable pass e h) = refl
asm_pass-Steps (to_locals key value e) = refl
asm_pass-Steps (to_section current sections) = refl
asm_pass-Steps (to_exports exports) = refl
asm_pass-Steps (to_ignoring b) = refl
asm_pass-Steps (to_level n) = refl
asm_pass-Steps (to_context c) = refl
asm_pass-Steps (new_macro name) = refl
asm_pass-Steps (new_line name l h) = refl
asm_pass-Steps (to_file file h) = refl
asm_pass-Steps (expansion args h s) = asm_pass-Steps s

-- Every line of every program has arguments or none.
abbrev pub are_progs : World → Bool
are_progs w = all is_prog w.macros && all is_prog w.files

line-append :
    (lines : List ProgLine) (l : ProgLine)
    → is_line l ≡ true
    → all is_line lines ≡ true
    → all is_line (lines ++ l ∷ []) ≡ true
line-append lines l h k = all-append is_line lines (l ∷ []) k (rw h refl)

are_progs-add_line :
    (name : Bytes) (l : ProgLine) (macros : List Prog)
    → is_line l ≡ true
    → all is_prog macros ≡ true
    → all is_prog (add_line name l macros) ≡ true
unfolding add_line
are_progs-add_line name l [] h k = refl
are_progs-add_line name l (f ∷ macros) h k = elim (Bool-cases (bytes_eq name f.name)) [
  | inl t ↦
      rw (t, line-append f.lines l h (and_left (is_prog f) (all is_prog macros) k))
        (and_right (is_prog f) (all is_prog macros) k)
  | inr e ↦
      rw (e, and_left (is_prog f) (all is_prog macros) k)
        (are_progs-add_line name l macros h (and_right (is_prog f) (all is_prog macros) k))
]

both_true : (p q : Bool) → p ≡ true → q ≡ true → p && q ≡ true
both_true p q h k = rw (h, k) refl

pub are_progs-Steps :
    {o : Outside} {w v : World} → Steps o w v → are_progs w ≡ true → are_progs v ≡ true
are_progs-Steps stay g = g
are_progs-Steps (both s t) g = are_progs-Steps t (are_progs-Steps s g)
are_progs-Steps (to_asm a) g = g
are_progs-Steps (to_symbols key value changeable pass e h) g = g
are_progs-Steps (to_locals key value e) g = g
are_progs-Steps (to_section current sections) g = g
are_progs-Steps (to_exports exports) g = g
are_progs-Steps (to_ignoring b) g = g
are_progs-Steps (to_level n) g = g
are_progs-Steps (to_context c) g = g
are_progs-Steps (new_macro name) g = g
are_progs-Steps (new_line {w} name l h) g =
    both_true _ _
      (are_progs-add_line name l w.macros h
        (and_left (all is_prog w.macros) (all is_prog w.files) g))
      (and_right (all is_prog w.macros) (all is_prog w.files) g)
are_progs-Steps (to_file {w} file h) g =
    both_true _ _ (and_left (all is_prog w.macros) (all is_prog w.files) g)
      (both_true _ _ h (and_right (all is_prog w.macros) (all is_prog w.files) g))
are_progs-Steps (expansion args h s) g = are_progs-Steps s g
