-- ===== src/Section/Consistent.antt =====
-- The sections at the end of a pass, and when they are entered.
use asm.Prelude.{
  ℕ, ◌≡◌, refl, sym, ap, ◌∙◌, Bool, true, false, ◌||◌, Option, none, some, List, [], ◌∷◌, ◌==◌,
  if◌then◌else◌, Bool-cases, inl, inr, arith,
}
use asm.Prelude.Int.{ℤ, eqb_ℤ}
use asm.Text.{Bytes, bytes_eq, bytes_eq_iff}
use asm.Error.{
  Errors, ErrorType, none_reported, inefficient, illegal, inconsistent, out_of_range, syntax,
  data_error, fatal, verror,
}
use asm.Dict.{Dict, dict_str_equal, dict_lookup, dict_insert}
use asm.Dict.Laws.{lookup-dict_insert}
use asm.Section.{Section}
use asm.Section.Sections.{
  Sections, section_set, enter, or_new, cur_section, moved, verify_section, verify_all,
  section_finish_pass,
}

-- Has the end of a section moved since the pass before?
abbrev pub any_moved : Dict Bytes Section → Bool
any_moved [] = false
any_moved (ent ∷ table) = moved ent.value || any_moved table

eqb_refl : (z : ℤ) → eqb_ℤ z z ≡ true
eqb_refl z = ground arith

-- A second inconsistency without a message changes nothing.
verror-verror :
    (e : Errors)
    → verror inconsistent none (verror inconsistent none e) ≡ verror inconsistent none e
unfolding verror
verror-verror e = go e.level
  where
    go :
        (level : ErrorType)
        → verror inconsistent none
            (verror inconsistent none (record { level = level; list = e.list }))
          ≡ verror inconsistent none (record { level = level; list = e.list })
    go none_reported = refl
    go inefficient = refl
    go illegal = refl
    go inconsistent = refl
    go out_of_range = refl
    go syntax = refl
    go data_error = refl
    go fatal = refl

verify_all-reports :
    (table : Dict Bytes Section) (e : Errors)
    → (verify_all table e).1 ≡ (if any_moved table then verror inconsistent none e else e)
unfolding verify_all verify_section
verify_all-reports [] e = refl
verify_all-reports (ent ∷ table) e = elim (Bool-cases (moved ent.value)) [
  | inl t ↦ rw t (verify_all-reports table (verror inconsistent none e) ∙ once (any_moved table))
  | inr f ↦ rw f (verify_all-reports table e)
]
  where
    once :
        (b : Bool)
        → (if b
            then verror inconsistent none (verror inconsistent none e)
            else verror inconsistent none e)
          ≡ verror inconsistent none e
    once true = verror-verror e
    once false = refl

verify_all-again :
    (table : Dict Bytes Section) (e later : Errors)
    → verify_all (verify_all table e).0 later ≡ ((verify_all table e).0, later)
unfolding verify_all verify_section
verify_all-again [] e later = refl
verify_all-again (ent ∷ table) e later = elim (Bool-cases (moved ent.value)) [
  | inl t ↦
      rw
        (
          t,
          eqb_refl ent.value.pc,
          verify_all,
          verify_all-again table (verror inconsistent none e) later,
        )
        refl
  | inr f ↦ rw (f, f, verify_all, verify_all-again table e later) refl
]

-- The end of a pass reports an inconsistency where the end of some section has moved since the pass
-- before and nothing otherwise, and it notes the new ends: done again at once, it reports nothing and
-- changes nothing.
pub section_finish_pass-again :
    (st : Sections) (e later : Errors)
    → ((section_finish_pass st e).1
        ≡ (if any_moved st.sections then verror inconsistent none e else e))
      × (section_finish_pass (section_finish_pass st e).0 later
          ≡ ((section_finish_pass st e).0, later))
unfolding section_finish_pass
section_finish_pass-again st e later = (
  verify_all-reports st.sections e,
  ap (λ r. (record st { sections = r.0 }, r.1)) (verify_all-again st.sections e later),
)

lookup-name :
    (d : Dict Bytes Section) (key i : Bytes) (s : Section)
    → dict_lookup dict_str_equal (dict_insert dict_str_equal d key s) i
      ≡ (if bytes_eq key i then some s else dict_lookup dict_str_equal d i)
lookup-name d key i s = lookup-dict_insert dict_str_equal bytes_eq_iff d key i s

same_pass : (pass : ℕ) → (pass == pass) ≡ true
same_pass pass = ground arith

enter-again :
    (setdp pass : ℕ) (cur other : Option Section) (next : Section)
    → enter setdp pass other (enter setdp pass cur next) ≡ enter setdp pass cur next
enter-again setdp pass cur other next = elim (Bool-cases (next.pass == pass)) [
  | inl t ↦ rw (t, t) refl
  | inr f ↦ rw (f, same_pass pass) refl
]

lookup-section_set :
    (setdp : ℕ) (name : Bytes) (pass : ℕ) (st : Sections) (i : Bytes)
    → dict_lookup dict_str_equal (section_set setdp name pass st).sections i ≡ (
        if bytes_eq name i
        then some (
            enter setdp pass
              (cur_section st)
              (or_new setdp (dict_lookup dict_str_equal st.sections name)))
        else dict_lookup dict_str_equal st.sections i)
unfolding section_set
lookup-section_set setdp name pass st i = lookup-name st.sections name i _

-- An entered section stays as it is while sections are entered in the same pass.
stays :
    (setdp : ℕ) (name other : Bytes) (pass : ℕ) (st : Sections) (cur : Option Section)
    (next : Section)
    → dict_lookup dict_str_equal st.sections name ≡ some (enter setdp pass cur next)
    → dict_lookup dict_str_equal (section_set setdp other pass st).sections name
      ≡ some (enter setdp pass cur next)
stays setdp name other pass st cur next h = elim (Bool-cases (bytes_eq other name)) [
  | inl t ↦
      let same = ap (dict_lookup dict_str_equal st.sections) ((bytes_eq_iff other name).0 t) ∙ h in
      lookup-section_set setdp other pass st name
      ∙ rw (t, same) (ap some (enter-again setdp pass cur (cur_section st) next))
  | inr f ↦ lookup-section_set setdp other pass st name ∙ rw f h
]

-- Sections entered one after the other.
unfoldable pub visit : ℕ → List Bytes → ℕ → Sections → Sections
visit setdp [] pass st = st
visit setdp (name ∷ names) pass st = visit setdp names pass (section_set setdp name pass st)

stays-visit :
    (setdp : ℕ) (name : Bytes) (others : List Bytes) (pass : ℕ) (st : Sections)
    (cur : Option Section) (next : Section)
    → dict_lookup dict_str_equal st.sections name ≡ some (enter setdp pass cur next)
    → dict_lookup dict_str_equal (visit setdp others pass st).sections name
      ≡ some (enter setdp pass cur next)
unfolding visit
stays-visit setdp name [] pass st cur next h = h
stays-visit setdp name (other ∷ others) pass st cur next h =
    stays-visit setdp name others pass (section_set setdp other pass st) cur next
      (stays setdp name other pass st cur next h)

entered :
    (setdp : ℕ) (name : Bytes) (pass : ℕ) (st : Sections)
    → dict_lookup dict_str_equal (section_set setdp name pass st).sections name
      ≡ some (
          enter setdp pass
            (cur_section st)
            (or_new setdp (dict_lookup dict_str_equal st.sections name)))
entered setdp name pass st =
    lookup-section_set setdp name pass st name ∙ rw ((bytes_eq_iff name name).1 refl) refl

current-section_set :
    (setdp : ℕ) (name : Bytes) (pass : ℕ) (st : Sections)
    → cur_section (section_set setdp name pass st)
      ≡ dict_lookup dict_str_equal (section_set setdp name pass st).sections name
unfolding section_set cur_section
current-section_set setdp name pass st = refl

-- A section that is entered, left for any others and entered again in the same pass is the current one
-- again, in the state in which it was: its spans and its counters are kept.
pub section_set-visit :
    (setdp : ℕ) (name : Bytes) (others : List Bytes) (pass : ℕ) (st : Sections)
    → cur_section
        (section_set setdp name pass (visit setdp others pass (section_set setdp name pass st)))
      ≡ cur_section (section_set setdp name pass st)
section_set-visit setdp name others pass st =
    let cur = cur_section st in
    let next = or_new setdp (dict_lookup dict_str_equal st.sections name) in
    let first = section_set setdp name pass st in
    current-section_set setdp name pass (visit setdp others pass first)
    ∙ stays setdp name name pass (visit setdp others pass first) cur next
        (stays-visit setdp name others pass first cur next (entered setdp name pass st))
    ∙ sym (entered setdp name pass st)
    ∙ sym (current-section_set setdp name pass st)
