-- ===== src/Symbol/Passes.antt =====
-- Symbols over two passes: where no value changes, the second one reports nothing.
use asm.Prelude.{
  ℕ, ◌≡◌, refl, ap, ◌∙◌, Bool, true, false, not, ◌&&◌, some, List, [], ◌∷◌, if◌then◌else◌, ◌==◌,
  and_left, and_right,
}
use asm.Text.{Bytes, bytes_eq, bytes_eq_iff}
use asm.Error.{Errors, error, inconsistent}
use asm.Dict.{dict_str_equal, dict_lookup}
use asm.Eval.Expression.{Env}
use asm.Symbol.{Symbols, set_in_pass, changes}
-- A name and the node that it is set to.
use asm.Symbol.Definitions.{
  Definition, absent, unset, false_of, different, well_defined, define_all, made, ready,
  entries-other, lookup-made, well_same, well_rest, told, define_all-made, unset-made,
}

module _ (float_eq : ℕ → ℕ → Bool) (env : Env) (fuel : ℕ) where
  -- A name that no definition has keeps its entry.
  lookup-define_all :
      (ds : List Definition) (pass : ℕ) (t : Symbols) (e : Errors) (i : Bytes)
      → well_defined float_eq env fuel ds ≡ true
      → unset pass ds t ≡ true
      → absent i ds ≡ true
      → dict_lookup dict_str_equal (define_all float_eq env fuel ds pass t e).0 i
        ≡ dict_lookup dict_str_equal t i
  lookup-define_all [] pass t e i w u a = unfold define_all in refl
  lookup-define_all (d ∷ ds) pass t e i w u a =
      let here = and_left (not (set_in_pass pass (dict_lookup dict_str_equal t d.key))) _ u in
      let away = different i d.key (and_left (not (bytes_eq i d.key)) _ a) in
      ap (λ r. dict_lookup dict_str_equal r.0 i)
        (define_all-made float_eq env fuel d ds pass t e w here)
      ∙ lookup-define_all ds pass (made float_eq env fuel d pass t) (told float_eq env fuel d t e) i
          (and_right (absent d.key ds) (well_defined float_eq env fuel ds)
            (well_rest float_eq env fuel d ds w))
          (unset-made float_eq env fuel d ds pass t w u)
          (and_right (not (bytes_eq i d.key)) (absent i ds) a)
      ∙ lookup-made float_eq env fuel d pass t i
      ∙ ap
          (λ b.
            if b
            then some (record { pass = pass; node = d.value })
            else dict_lookup dict_str_equal t i)
          away

  -- After a pass, every definition is ready for another.
  ready-define_all :
      (ds : List Definition) (pass next : ℕ) (t : Symbols) (e : Errors)
      → (pass == next) ≡ false
      → well_defined float_eq env fuel ds ≡ true
      → unset pass ds t ≡ true
      → ready float_eq env fuel next ds (define_all float_eq env fuel ds pass t e).0 ≡ true
  ready-define_all [] pass next t e p w u = refl
  ready-define_all (d ∷ ds) pass next t e p w u =
      let here = and_left (not (set_in_pass pass (dict_lookup dict_str_equal t d.key))) _ u in
      let alone =
        and_left (absent d.key ds) (well_defined float_eq env fuel ds)
          (well_rest float_eq env fuel d ds w) in
      let rest =
        and_right (absent d.key ds) (well_defined float_eq env fuel ds)
          (well_rest float_eq env fuel d ds w) in
      let entry =
        lookup-define_all ds pass (made float_eq env fuel d pass t) (told float_eq env fuel d t e)
          d.key rest (unset-made float_eq env fuel d ds pass t w u) alone
        ∙ lookup-made float_eq env fuel d pass t d.key in
      ap (λ r. ready float_eq env fuel next (d ∷ ds) r.0)
        (define_all-made float_eq env fuel d ds pass t e w here)
      ∙ rw
          (
            entry,
            (bytes_eq_iff d.key d.key).1 refl,
            p,
            well_same float_eq env fuel d ds w,
            ready-define_all ds pass next (made float_eq env fuel d pass t)
                (told float_eq env fuel d t e) p rest
                (unset-made float_eq env fuel d ds pass t w u),
          )
          refl

  -- A definition that is ready is made without a report.
  quiet-define_all :
      (ds : List Definition) (pass : ℕ) (t : Symbols) (e : Errors)
      → well_defined float_eq env fuel ds ≡ true
      → ready float_eq env fuel pass ds t ≡ true
      → (define_all float_eq env fuel ds pass t e).1 ≡ e
  quiet-define_all [] pass t e w r = unfold define_all in refl
  quiet-define_all (d ∷ ds) pass t e w r =
      let o = dict_lookup dict_str_equal t d.key in
      let here = and_left (not (set_in_pass pass o) && not (changes float_eq d.value o)) _ r in
      let later =
        and_right (not (set_in_pass pass o) && not (changes float_eq d.value o))
          (ready float_eq env fuel pass ds t) r in
      let same =
        false_of (changes float_eq d.value o) (and_right (not (set_in_pass pass o)) _ here) in
      let alone =
        and_left (absent d.key ds) (well_defined float_eq env fuel ds)
          (well_rest float_eq env fuel d ds w) in
      ap (λ x. x.1)
        (define_all-made float_eq env fuel d ds pass t e w
          (and_left (not (set_in_pass pass o)) _ here))
      ∙ quiet-define_all ds pass (made float_eq env fuel d pass t) (told float_eq env fuel d t e)
          (and_right (absent d.key ds) (well_defined float_eq env fuel ds)
            (well_rest float_eq env fuel d ds w))
          (entries-other float_eq env fuel
              (λ n x. not (set_in_pass pass x) && not (changes float_eq n x)) ds t d.key
              (record { pass = pass; node = d.value }) alone
            ∙ later)
      ∙ ap (λ b. if b && true then error inconsistent "value of '%s' unstable" e else e) same

  -- Of definitions of different names, whose values are evaluated, nested no deeper than the fuel and
  -- equal to themselves under node_equal, let none be made in a pass before. Then a next pass, of
  -- another number, that makes the same definitions reports nothing: the symbols are at rest.
  pub define_all-again :
      (ds : List Definition) (pass next : ℕ) (t : Symbols) (e later : Errors)
      → (pass == next) ≡ false
      → well_defined float_eq env fuel ds ≡ true
      → unset pass ds t ≡ true
      → (define_all float_eq env fuel ds next (define_all float_eq env fuel ds pass t e).0 later).1
        ≡ later
  define_all-again ds pass next t e later p w u =
      quiet-define_all ds next (define_all float_eq env fuel ds pass t e).0 later w
        (ready-define_all ds pass next t e p w u)
