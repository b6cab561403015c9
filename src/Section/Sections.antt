-- ===== src/Section/Sections.antt =====
-- src/section.c: the table of sections. The current section is the entry of the table under the name
-- `current`; a change of it is a change of that entry.
use asm.Prelude.{ℕ, Bool, not, Option, none, some, [], ◌∷◌, ◌==◌, if◌then◌else◌}
use asm.Prelude.Int.{ℤ, pos, eqb_ℤ}
use asm.Text.{Bytes}
use asm.Error.{Errors, verror, inconsistent}
use asm.Dict.{Dict, dict_str_equal, dict_lookup, dict_insert}
use asm.Section.{Section}

-- `sections` and `cur_section`
pub record Sections : Type 0 where
  pub sections : Dict Bytes Section
  pub current : Option Bytes

abbrev find_current : Dict Bytes Section → Option Bytes → Option Section
find_current table none = none
find_current table (some name) = dict_lookup dict_str_equal table name

unfoldable pub cur_section : Sections → Option Section
cur_section st = find_current st.sections st.current

-- `setdp` is the option.
unfoldable pub section_new : ℕ → Section
section_new setdp = record {
  closed = [];
  span = none;
  pass = 4294967295;
  line_number = 0;
  pc = pos 0;
  put = 0;
  dp = setdp;
  last_pc = pos 0;
  last_put = 0;
}

-- Where a section begins in a new pass: where the current one ended in the pass before, if it is part of
-- this pass.
abbrev start_pc : ℕ → Option Section → ℤ
start_pc pass none = pos 0
start_pc pass (some cur) = if cur.pass == pass then cur.last_pc else pos 0

abbrev start_put : ℕ → Option Section → ℕ
start_put pass none = 0
start_put pass (some cur) = if cur.pass == pass then cur.last_put else 0

abbrev restart : ℕ → ℕ → Option Section → Section → Section
restart setdp pass cur next = record next {
  closed = [];
  span = none;
  pc = start_pc pass cur;
  put = start_put pass cur;
  pass = pass;
  dp = setdp;
  line_number = 0;
}

abbrev pub enter : ℕ → ℕ → Option Section → Section → Section
enter setdp pass cur next = if next.pass == pass then next else restart setdp pass cur next

abbrev pub or_new : ℕ → Option Section → Section
or_new setdp none = section_new setdp
or_new setdp (some s) = s

unfoldable pub section_set : ℕ → Bytes → ℕ → Sections → Sections
unfolding section_new cur_section
section_set setdp name pass st =
    let next = or_new setdp (dict_lookup dict_str_equal st.sections name) in
    record {
      sections =
          dict_insert dict_str_equal st.sections name (enter setdp pass (cur_section st) next);
      current = some name;
    }

abbrev pub moved : Section → Bool
moved sect = not (eqb_ℤ sect.last_pc sect.pc)

unfoldable pub verify_section : Section → Errors → Section × Errors
verify_section sect e =
    if moved sect
    then (record sect { last_pc = sect.pc; last_put = sect.put }, verror inconsistent none e)
    else (sect, e)

-- dict_foreach with verify_section, which changes the values in place
unfoldable pub verify_all : Dict Bytes Section → Errors → Dict Bytes Section × Errors
unfolding verify_section
verify_all [] e = ([], e)
verify_all (ent ∷ table) e =
    let (sect, verified) = verify_section ent.value e in
    let (rest, after) = verify_all table verified in
    (record { key = ent.key; value = sect } ∷ rest, after)

unfoldable pub section_finish_pass : Sections → Errors → Sections × Errors
unfolding verify_all
section_finish_pass st e =
    let (table, after) = verify_all st.sections e in (record st { sections = table }, after)
