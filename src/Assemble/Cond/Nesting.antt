-- ===== src/Assemble/Cond/Nesting.antt =====
-- Properly nested conditions, as trees: the lines that are assembled are those of the branches whose
-- conditions hold first.
use asm.Prelude.{String, Bool, Option, none, some, List, [], ◌∷◌, ◌++◌, if◌then◌else◌}
use asm.Assemble.Cond.{
  Conds, excluded, Directive, dir_if, dir_elsif, dir_else, dir_endif, cond_step,
}

-- A line of a program: one of a condition, or another one.
pub data Line {ℓ} (A : Type ℓ) : Type ℓ where
  plain : A → Line A
  directive : Directive → Line A

pub record Ran {ℓ} (A : Type ℓ) : Type ℓ where
  pub assembled : List A
  pub messages : List String
  pub conds : Conds

abbrev pub add_message {ℓ} : {A : Type ℓ} → Option String → Ran A → Ran A
add_message none r = r
add_message (some m) r = record r { messages = m ∷ r.messages }

abbrev pub prepend {ℓ} : {A : Type ℓ} → List A → Ran A → Ran A
prepend xs r = record r { assembled = xs ++ r.assembled }

-- The lines that are assembled, and what is reported.
unfoldable pub run_lines {ℓ} : {A : Type ℓ} → List (Line A) → Conds → Ran A
unfolding cond_step
run_lines [] c = record { assembled = []; messages = []; conds = c }
run_lines (plain a ∷ ls) c = let r = run_lines ls c in if excluded c then r else prepend (a ∷ []) r
run_lines (directive d ∷ ls) c =
    let (after, message) = cond_step d c in add_message message (run_lines ls after)

-- Lines in a proper nesting: `cond` is an IF with the lines up to its ENDIF and those after it.
mutual
  pub data Block {ℓ} (A : Type ℓ) : Type ℓ where
    done : Block A
    line : A → Block A → Block A
    cond : Bool → Block A → Rest A → Block A → Block A

  pub data Rest {ℓ} (A : Type ℓ) : Type ℓ where
    endif : Rest A
    otherwise : Block A → Rest A
    elsif : Bool → Block A → Rest A → Rest A

unfoldable mutual
  pub flatten {ℓ} : {A : Type ℓ} → Block A → List (Line A) → List (Line A)
  flatten done more = more
  flatten (line a b) more = plain a ∷ flatten b more
  flatten (cond holds body rest b) more =
      directive (dir_if holds) ∷ flatten body (flatten_rest rest (flatten b more))

  pub flatten_rest {ℓ} : {A : Type ℓ} → Rest A → List (Line A) → List (Line A)
  flatten_rest endif more = directive dir_endif ∷ more
  flatten_rest (otherwise body) more =
      directive dir_else ∷ flatten body (directive dir_endif ∷ more)
  flatten_rest (elsif holds body rest) more =
      directive (dir_elsif holds) ∷ flatten body (flatten_rest rest more)

unfoldable mutual
  pub selected {ℓ} : {A : Type ℓ} → Block A → List A
  selected done = []
  selected (line a b) = a ∷ selected b
  selected (cond holds body rest b) =
      (if holds then selected body else selected_rest rest) ++ selected b

  pub selected_rest {ℓ} : {A : Type ℓ} → Rest A → List A
  selected_rest endif = []
  selected_rest (otherwise body) = selected body
  selected_rest (elsif holds body rest) = if holds then selected body else selected_rest rest
