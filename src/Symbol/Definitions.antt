-- ===== src/Symbol/Definitions.antt =====
-- The definitions of a pass, one after the other.
use asm.Prelude.{
  ℕ, ◌≤◌, ◌≡◌, refl, sym, ap, ◌∙◌, Bool, true, false, not, ◌&&◌, Option, some, List, [], ◌∷◌,
  if◌then◌else◌, leb, Bool-cases, inl, inr, arith, and_left, and_right,
}
use asm.Text.{Bytes, bytes_eq, bytes_eq_iff}
use asm.Error.{Errors, error, inconsistent}
use asm.Node.{Node, node_equal}
use asm.Dict.{dict_str_equal, dict_lookup, dict_insert}
use asm.Eval.Expression.{Result, Env, eval_node}
use asm.Eval.Value.{is_value, height, eval_node-value}
use asm.Symbol.{Symbol, Symbols, set_in_pass, changes, symbol_force_set, symbol_set}
use asm.Symbol.Table.{lookup-key}

-- A name and the node that it is set to.
pub record Definition : Type 0 where
  pub key : Bytes
  pub value : Node

-- No definition has this name.
abbrev pub absent : Bytes → List Definition → Bool
absent key [] = true
absent key (d ∷ ds) = not (bytes_eq key d.key) && absent key ds

-- A test of the value of each definition and of the entry that the table has under its name.
abbrev pub all_entries : (Node → Option Symbol → Bool) → List Definition → Symbols → Bool
all_entries test [] t = true
all_entries test (d ∷ ds) t =
    test d.value (dict_lookup dict_str_equal t d.key) && all_entries test ds t

-- No definition has been made in this pass.
abbrev pub unset : ℕ → List Definition → Symbols → Bool
unset pass ds t = all_entries (λ n o. not (set_in_pass pass o)) ds t

pub and_join : (p q : Bool) → p ≡ true → q ≡ true → p && q ≡ true
and_join p q h k = rw (h, k) refl

pub false_of : (p : Bool) → not p ≡ true → p ≡ false
false_of true h = cc
false_of false h = refl

pub different : (x y : Bytes) → not (bytes_eq x y) ≡ true → bytes_eq y x ≡ false
different x y h = elim (Bool-cases (bytes_eq y x)) [
  | inl t ↦
      let same = (bytes_eq_iff x y).1 (sym ((bytes_eq_iff y x).0 t)) in
      let not_same = false_of (bytes_eq x y) h in cc
  | inr f ↦ f
]

pub le_of : (a b : ℕ) → leb a b ≡ true → a ≤ b
le_of a b h = ground arith

module _ (float_eq : ℕ → ℕ → Bool) (env : Env) (fuel : ℕ) where
  abbrev pub eval : Node → Errors → Result
  eval n e = eval_node env fuel n e

  -- The definitions have different names, and their values are evaluated and equal to themselves.
  abbrev pub well_defined : List Definition → Bool
  well_defined [] = true
  well_defined (d ∷ ds) =
      (is_value d.value && leb (height d.value) fuel)
      && (node_equal float_eq d.value d.value && (absent d.key ds && well_defined ds))

  -- The definitions of a pass, one after the other.
  unfoldable pub define_all : List Definition → ℕ → Symbols → Errors → Symbols × Errors
  unfolding symbol_set symbol_force_set
  define_all [] pass t e = (t, e)
  define_all (d ∷ ds) pass t e =
      let (after, reported) = symbol_set float_eq eval d.key d.value false pass t e in
      define_all ds pass after reported

  -- the entry of a definition that is made
  abbrev pub made : Definition → ℕ → Symbols → Symbols
  made d pass t = dict_insert dict_str_equal t d.key (record { pass = pass; node = d.value })

  -- The entry lets the definition through without a report.
  abbrev pub ready : ℕ → List Definition → Symbols → Bool
  ready pass ds t = all_entries (λ n o. not (set_in_pass pass o) && not (changes float_eq n o)) ds t

  pub entries-other :
      (test : Node → Option Symbol → Bool) (ds : List Definition) (t : Symbols) (key : Bytes)
      (s : Symbol)
      → absent key ds ≡ true
      → all_entries test ds (dict_insert dict_str_equal t key s) ≡ all_entries test ds t
  entries-other test [] t key s h = refl
  entries-other test (d ∷ ds) t key s h =
      let away =
        false_of (bytes_eq key d.key) (and_left (not (bytes_eq key d.key)) (absent key ds) h) in
      let rest =
        entries-other test ds t key s (and_right (not (bytes_eq key d.key)) (absent key ds) h) in
      rw (lookup-key t key d.key s, away, rest) refl

  pub quiet :
      (d : Definition) (e : Errors)
      → is_value d.value && leb (height d.value) fuel ≡ true
      → eval d.value e ≡ (d.value, e)
  quiet d e h =
      let low = and_right (is_value d.value) (leb (height d.value) fuel) h in
      eval_node-value env fuel d.value e (and_left (is_value d.value) (leb (height d.value) fuel) h)
        (le_of (height d.value) fuel low)

  -- An evaluated definition that was not made in this pass yet is made.
  pub set-made :
      (d : Definition) (pass : ℕ) (t : Symbols) (e : Errors)
      → is_value d.value && leb (height d.value) fuel ≡ true
      → set_in_pass pass (dict_lookup dict_str_equal t d.key) ≡ false
      → symbol_set float_eq eval d.key d.value false pass t e ≡ (
        made d pass t,
        if changes float_eq d.value (dict_lookup dict_str_equal t d.key) && true
            then error inconsistent "value of '%s' unstable" e
            else e,
      )
  unfolding symbol_set symbol_force_set
  set-made d pass t e v h = rw (h, quiet d e v) refl

  pub lookup-made :
      (d : Definition) (pass : ℕ) (t : Symbols) (i : Bytes)
      → dict_lookup dict_str_equal (made d pass t) i ≡ (
          if bytes_eq d.key i
          then some (record { pass = pass; node = d.value })
          else dict_lookup dict_str_equal t i)
  lookup-made d pass t i = lookup-key t d.key i (record { pass = pass; node = d.value })

  -- the parts of a well-defined list
  pub well_head :
      (d : Definition) (ds : List Definition)
      → well_defined (d ∷ ds) ≡ true
      → is_value d.value && leb (height d.value) fuel ≡ true
  well_head d ds h = and_left (is_value d.value && leb (height d.value) fuel) _ h

  pub well_same :
      (d : Definition) (ds : List Definition)
      → well_defined (d ∷ ds) ≡ true
      → node_equal float_eq d.value d.value ≡ true
  well_same d ds h =
      and_left (node_equal float_eq d.value d.value) _
        (and_right (is_value d.value && leb (height d.value) fuel) _ h)

  pub well_rest :
      (d : Definition) (ds : List Definition)
      → well_defined (d ∷ ds) ≡ true
      → absent d.key ds && well_defined ds ≡ true
  well_rest d ds h =
      and_right (node_equal float_eq d.value d.value) _
        (and_right (is_value d.value && leb (height d.value) fuel) _ h)

  -- the reports after a definition
  abbrev pub told : Definition → Symbols → Errors → Errors
  told d t e =
      if changes float_eq d.value (dict_lookup dict_str_equal t d.key) && true
      then error inconsistent "value of '%s' unstable" e
      else e

  pub define_all-made :
      (d : Definition) (ds : List Definition) (pass : ℕ) (t : Symbols) (e : Errors)
      → well_defined (d ∷ ds) ≡ true
      → not (set_in_pass pass (dict_lookup dict_str_equal t d.key)) ≡ true
      → define_all (d ∷ ds) pass t e ≡ define_all ds pass (made d pass t) (told d t e)
  unfolding define_all
  define_all-made d ds pass t e w u =
      ap (λ r. define_all ds pass r.0 r.1)
        (set-made d pass t e (well_head d ds w)
          (false_of (set_in_pass pass (dict_lookup dict_str_equal t d.key)) u))

  pub unset-made :
      (d : Definition) (ds : List Definition) (pass : ℕ) (t : Symbols)
      → well_defined (d ∷ ds) ≡ true
      → unset pass (d ∷ ds) t ≡ true
      → unset pass ds (made d pass t) ≡ true
  unset-made d ds pass t w u =
      entries-other (λ n o. not (set_in_pass pass o)) ds t d.key
        (record { pass = pass; node = d.value })
        (and_left (absent d.key ds) (well_defined ds) (well_rest d ds w))
      ∙ and_right (not (set_in_pass pass (dict_lookup dict_str_equal t d.key))) (unset pass ds t) u
