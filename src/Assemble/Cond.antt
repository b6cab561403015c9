-- ===== src/Assemble/Cond.antt =====
-- src/assemble.c, assemble_prog: conditional assembly. `cond_excluded` points into the list; here it is
-- the number of elements from that one on, and none for NULL.
pub mod Nesting
pub mod Steps
pub mod Selected
use asm.Prelude.{
  ℕ, suc, String, Bool, true, false, not, ◌&&◌, Option, none, some, List, [], ◌∷◌, ◌==◌,
  if◌then◌else◌, length,
}

-- enum cond_state
pub data CondState : Type 0 where
  cond_state_if cond_state_if_done cond_state_else : CondState

pub record Conds : Type 0 where
  pub cond_list : List CondState
  pub cond_excluded : Option ℕ

abbrev pub no_conds : Conds
no_conds = record { cond_list = []; cond_excluded = none }

abbrev pub is_some {ℓ} : {A : Type ℓ} → Option A → Bool
is_some none = false
is_some (some a) = true

abbrev pub excluded : Conds → Bool
excluded c = is_some c.cond_excluded

-- `cond_excluded == cond_list`, of a list that has an element
abbrev pub points_to : Option ℕ → List CondState → Bool
points_to none l = false
points_to (some n) l = n == length l

-- The line of a condition, with the value of the expression of IF and ELSIF.
pub data Directive : Type 0 where
  dir_if dir_elsif : Bool → Directive
  dir_else dir_endif : Directive

abbrev pub push : CondState → Conds → Conds
push state c = record c { cond_list = state ∷ c.cond_list }

unfoldable pub cond_if : Bool → Conds → Conds
cond_if holds c =
    if not (excluded c) && not holds
    then record {
      cond_list = cond_state_if ∷ c.cond_list;
      cond_excluded = some (suc (length c.cond_list));
    }
    else push cond_state_if_done c

abbrev is_done : CondState → Bool
is_done cond_state_if_done = true
is_done _ = false

-- Is the expression of an ELSIF evaluated? It is where the list begins with the state and the list given.
abbrev tested : CondState → List CondState → Conds → Bool
tested state l c = points_to c.cond_excluded (state ∷ l) && not (is_done state)

abbrev after_else :
    Conds × Option String → CondState → Conds × Option String → Conds × Option String
after_else repeated cond_state_else other = repeated
after_else repeated _ other = other

abbrev elsif_top : Bool → CondState → List CondState → Conds → Conds
elsif_top holds state l c =
    if excluded c
    then (if tested state l c && holds
        then record { cond_list = cond_state_if_done ∷ l; cond_excluded = none }
        else c)
    else record c { cond_excluded = some (suc (length l)) }

abbrev elsif_by : Bool → List CondState → Conds → Conds × Option String
elsif_by holds [] c = (c, some "ELSIF without IF")
elsif_by holds (state ∷ l) c =
    after_else (c, some "repeated ELSE") state (elsif_top holds state l c, none)

unfoldable pub cond_elsif : Bool → Conds → Conds × Option String
cond_elsif holds c = elsif_by holds c.cond_list c

abbrev needs_by : List CondState → Conds → Bool
needs_by [] c = false
needs_by (cond_state_else ∷ l) c = false
needs_by (state ∷ l) c = excluded c && tested state l c

unfoldable pub needs_test : Conds → Bool
needs_test c = needs_by c.cond_list c

abbrev else_top : CondState → List CondState → Conds → Conds
else_top state l c =
    if points_to c.cond_excluded (state ∷ l)
    then (if is_done state
        then c
        else record { cond_list = cond_state_else ∷ l; cond_excluded = none })
    else (if excluded c
        then c
        else record { cond_list = cond_state_else ∷ l; cond_excluded = some (suc (length l)) })

abbrev else_by : List CondState → Conds → Conds × Option String
else_by [] c = (c, some "ELSE without IF")
else_by (state ∷ l) c = after_else (c, some "repeated ELSE") state (else_top state l c, none)

unfoldable pub cond_else : Conds → Conds × Option String
cond_else c = else_by c.cond_list c

abbrev endif_by : List CondState → Conds → Conds × Option String
endif_by [] c = (c, some "ENDIF without IF")
endif_by (state ∷ l) c = (
  record {
    cond_list = l;
    cond_excluded = if points_to c.cond_excluded (state ∷ l) then none else c.cond_excluded;
  },
  none,
)

unfoldable pub cond_endif : Conds → Conds × Option String
cond_endif c = endif_by c.cond_list c

unfoldable pub cond_step : Directive → Conds → Conds × Option String
unfolding cond_if cond_elsif cond_else cond_endif
cond_step (dir_if holds) c = (cond_if holds c, none)
cond_step (dir_elsif holds) c = cond_elsif holds c
cond_step dir_else c = cond_else c
cond_step dir_endif c = cond_endif c
