-- ===== src/Assemble/Captured.antt =====
-- The definition of a macro.
use asm.Prelude.{
  ℕ, suc, all, ◌≡◌, refl, sym, ap, ◌∙◌, Bool, true, false, not, ◌&&◌, Option, none, some, List, [],
  ◌∷◌, ◌++◌, append_assoc, append-nil, if◌then◌else◌, Bool-cases, inl, inr, and_left, and_right,
}
use asm.Text.{Bytes, bytes_eq}
use asm.Node.{Node, undef, node, string, id, cons, nil, Attr, attr_none}
use asm.Eval.Expression.{eval_string, eval_node, is_undef}
use asm.Assemble.World.{Outside, World, Prog, ProgLine, eval_string_in}
use asm.Assemble.Cond.{CondState, Conds}
use asm.Assemble.Line.{is_opcode}
use asm.Assemble.Macro.{prog_by_name, prog_macro_by_name, add_line, keep_line}
use asm.Assemble.Program.{Left, count_line, is_blank, opcode_line, assemble_line, assemble_lines}

-- A line as the parser gives it, whose opcode, if it has one, is a name without a positional variable.
pub record Body : Type 0 where
  pub label : Node
  pub opcode : Option Bytes
  pub attr : Attr
  pub args : Node

abbrev pub plain_opcode : Option Bytes → Attr → Node
plain_opcode none attr = undef
plain_opcode (some name) attr = node (id (cons (node (string name) attr_none) nil)) attr

abbrev pub line_of : Body → ProgLine
line_of b = record { label = b.label; opcode = plain_opcode b.opcode b.attr; args = b.args }

abbrev pub lines_of : List Body → List ProgLine
lines_of [] = []
lines_of (b ∷ bs) = line_of b ∷ lines_of bs

-- No line is blank, and none has the opcode MACRO or ENDM.
abbrev pub is_body : Body → Bool
is_body b =
    not (is_undef (plain_opcode b.opcode b.attr) && (is_undef b.label && is_undef b.args))
    && (not (is_opcode "macro" b.opcode) && not (is_opcode "endm" b.opcode))

-- in the definition of a macro of that name
abbrev defining : Bytes → World → World
defining name w = record w { defining_macro_level = 1; defining_macro_ctx = some name }

abbrev open_conds : List CondState → Conds
open_conds l = record { cond_list = l; cond_excluded = none }

choose_kept {ℓ} :
    {A : Type ℓ} (m e : Bool) (a b c : A)
    → not m && not e ≡ true
    → (if m then a else (if e then b else c)) ≡ c
choose_kept true e a b c h = cc
choose_kept false true a b c h = cc
choose_kept false false a b c h = refl

abbrev with_line : ProgLine → Option Prog → Option Prog
with_line p none = none
with_line p (some g) = some (record g { lines = g.lines ++ p ∷ [] })

-- what eval_string makes of the opcode
abbrev opcode_value : Option Bytes → Attr → Node
opcode_value none attr = undef
opcode_value (some name) attr = node (string name) attr

eval_string-plain_opcode :
    (o : Outside) (fuel : ℕ) (opcode : Option Bytes) (attr : Attr) (w : World)
    → o.eval_fuel ≡ suc fuel
    → eval_string_in o (plain_opcode opcode attr) w ≡ (opcode_value opcode attr, w)
unfolding eval_string eval_node
eval_string-plain_opcode o fuel none attr w h = refl
eval_string-plain_opcode o fuel (some name) attr w h = rw h refl

module _ (o : Outside) (recurse : Prog → World → World) (name : Bytes) (l : List CondState)
    {fuel : ℕ} (fuelled : o.eval_fuel ≡ suc fuel) where
  kept_opcode :
      (line : ProgLine) (opcode : Option Bytes) (attr : Attr) (w : World)
      → not (is_opcode "macro" opcode) && not (is_opcode "endm" opcode) ≡ true
      → opcode_line o recurse line (open_conds l) (opcode_value opcode attr, defining name w)
        ≡ (open_conds l, keep_line line (defining name w))
  kept_opcode line none attr w h = refl
  kept_opcode line (some opcode) attr w h =
      choose_kept (is_opcode "macro" (some opcode)) (is_opcode "endm" (some opcode)) _ _ _ h

  not_blank :
      (blank : Bool) (more : Bool) (a b : Left)
      → not blank && more ≡ true
      → (if blank then a else b) ≡ b
  not_blank true more a b h = cc
  not_blank false more a b h = refl

  kept :
      (b : Body) (w : World)
      → is_body b ≡ true
      → assemble_line o recurse (line_of b) (open_conds l, defining name w)
        ≡ (open_conds l, keep_line (line_of b) (count_line (defining name w)))
  unfolding assemble_line
  kept b w h =
      not_blank (is_blank o recurse (line_of b))
        (not (is_opcode "macro" b.opcode) && not (is_opcode "endm" b.opcode)) _ _ h
      ∙ ap (opcode_line o recurse (line_of b) (open_conds l))
          (eval_string-plain_opcode o fuel b.opcode b.attr (count_line (defining name w)) fuelled)
      ∙ kept_opcode (line_of b) b.opcode b.attr (count_line w)
          (and_right (not (is_blank o recurse (line_of b))) _ h)

  -- The lines of a definition go to the macros and nowhere else.
  abbrev all_kept : List Body → World → World
  all_kept [] w = w
  all_kept (b ∷ bs) w =
      all_kept bs
        (record w { macros = add_line name (line_of b) w.macros; asm = (count_line w).asm })

  assemble_lines-kept :
      (bs : List Body) (w : World)
      → all is_body bs ≡ true
      → assemble_lines o recurse (lines_of bs) (open_conds l, defining name w)
        ≡ (open_conds l, defining name (all_kept bs w))
  unfolding assemble_lines keep_line
  assemble_lines-kept [] w h = refl
  assemble_lines-kept (b ∷ bs) w h =
      ap (assemble_lines o recurse (lines_of bs))
        (kept b w (and_left (is_body b) (all is_body bs) h))
      ∙ assemble_lines-kept bs
          (record w { macros = add_line name (line_of b) w.macros; asm = (count_line w).asm })
          (and_right (is_body b) (all is_body bs) h)

  found-add_line :
      (m : Prog) (p : ProgLine) (macros : List Prog)
      → prog_by_name name macros ≡ some m
      → prog_by_name name (add_line name p macros) ≡ some (record m { lines = m.lines ++ p ∷ [] })
  unfolding prog_by_name add_line
  found-add_line m p [] h = cc
  found-add_line m p (f ∷ macros) h = elim (Bool-cases (bytes_eq name f.name)) [
    | inl t ↦
        let same : some f ≡ some m = rw t at h in rw (t, prog_by_name, t) (ap (with_line p) same)
    | inr n ↦ rw (n, prog_by_name, n, add_line) (found-add_line m p macros (rw n at h))
  ]

  found-all_kept :
      (bs : List Body) (m : Prog) (w : World)
      → prog_by_name name w.macros ≡ some m
      → prog_by_name name (all_kept bs w).macros
        ≡ some (record m { lines = m.lines ++ lines_of bs })
  found-all_kept [] m w h = h ∙ ap (λ xs. some (record m { lines = xs })) (sym (append-nil m.lines))
  found-all_kept (b ∷ bs) m w h =
      found-all_kept bs (record m { lines = m.lines ++ line_of b ∷ [] })
        (record w { macros = add_line name (line_of b) w.macros; asm = (count_line w).asm })
        (found-add_line m (line_of b) w.macros h)
      ∙ ap (λ xs. some (record m { lines = xs }))
          (append_assoc m.lines (line_of b ∷ []) (lines_of bs))

  quiet-all_kept : (bs : List Body) (w : World) → (all_kept bs w).asm.errors ≡ w.asm.errors
  quiet-all_kept [] w = refl
  quiet-all_kept (b ∷ bs) w =
      quiet-all_kept bs
        (record w { macros = add_line name (line_of b) w.macros; asm = (count_line w).asm })

  -- While a macro is being defined, lines as the parser gives them, none of them blank, that have no
  -- opcode or as their opcode a name without a positional variable, other than MACRO and ENDM, are
  -- added to its lines in their order, whatever their labels and arguments are; none of them is
  -- assembled, none opens a condition and nothing is reported. Evaluation has some fuel.
  pub prog_macro_by_name-assemble_lines :
      (bs : List Body) (m : Prog) (w : World)
      → all is_body bs ≡ true
      → prog_macro_by_name name w ≡ some m
      → (prog_macro_by_name name
            (assemble_lines o recurse (lines_of bs) (open_conds l, defining name w)).1
          ≡ some (record m { lines = m.lines ++ lines_of bs }))
        × ((assemble_lines o recurse (lines_of bs) (open_conds l, defining name w)).0
            ≡ open_conds l)
        × ((assemble_lines o recurse (lines_of bs) (open_conds l, defining name w)).1.asm.errors
            ≡ w.asm.errors)
  unfolding prog_macro_by_name
  prog_macro_by_name-assemble_lines bs m w h k =
      let run = assemble_lines-kept bs w h in
      (
        ap (λ s. prog_by_name name s.1.macros) run ∙ found-all_kept bs m w k,
        ap (λ s. s.0) run,
        ap (λ s. s.1.asm.errors) run ∙ quiet-all_kept bs w,
      )
