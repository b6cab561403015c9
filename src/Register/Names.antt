-- ===== src/Register/Names.antt =====
-- Register names and identifiers translate into one another.
use asm.Prelude.{
  ◌≡◌, refl, sym, ◌∙◌, inl, inr, Bool, true, false, ◌&&◌, some, List, [], ◌∷◌, ◌++◌, arith,
  Bool-cases, ==_refl, if◌then◌else◌,
}
use mathlib.Core.Path.{subst}
use asm.Text.{Bytes, strcasecmp_eq}
use asm.Register.{
  RegId, Isa, isa_6809, isa_6309, registers_6809, registers_6309, reg_name_to_id, reg_id_to_name,
  RegInfo, reg_num, find_name, find_id, or_else, same_reg, reg_cc,
}

-- Every register that has a name in an instruction set is found again by that name.
pub name_to_id-id_to_name :
    (isa : Isa) (id : RegId) {name : Bytes}
    → reg_id_to_name isa id ≡ some name
    → reg_name_to_id isa name ≡ some id
unfolding reg_name_to_id reg_id_to_name
name_to_id-id_to_name isa_6809 reg_cc h = ground arith
name_to_id-id_to_name isa_6809 _ h = ground arith
name_to_id-id_to_name isa_6309 reg_cc h = ground arith
name_to_id-id_to_name isa_6309 _ h = ground arith

-- No entry of the table has the given identifier; no identifier stands in two entries.
abbrev absent : RegId → List RegInfo → Bool
absent id [] = true
absent id (info ∷ table) = if same_reg info.id id then false else absent id table

abbrev distinct : List RegInfo → Bool
distinct [] = true
distinct (info ∷ table) = absent info.id table && distinct table

same_reg_self : (a b : RegId) → some a ≡ some b → same_reg b a ≡ true
unfolding same_reg
same_reg_self a b e = let e' : a ≡ b = cc in rw e' (==_refl (reg_num b))

find_name_hit :
    (info : RegInfo) (table : List RegInfo) (name : Bytes)
    → strcasecmp_eq name info.name ≡ true
    → find_name name (info ∷ table) ≡ some info.id
unfolding find_name
find_name_hit info table name h = rw h

find_name_miss :
    (info : RegInfo) (table : List RegInfo) (name : Bytes)
    → strcasecmp_eq name info.name ≡ false
    → find_name name (info ∷ table) ≡ find_name name table
unfolding find_name
find_name_miss info table name h = rw h

absent-find_name :
    (table : List RegInfo) (name : Bytes) (q id : RegId)
    → find_name name table ≡ some id
    → absent q table ≡ true
    → same_reg id q ≡ false
absent-find_name [] name q id h a = absurd (unfold find_name in cc)
absent-find_name (info ∷ table) name q id h a = elim (Bool-cases (strcasecmp_eq name info.name)) [
  | inl hit ↦
      let e : info.id ≡ id = cc (find_name_hit info table name hit) in
      subst (λ r. same_reg r q ≡ false) e (ground arith)
  | inr miss ↦
      absent-find_name table name q id (sym (find_name_miss info table name miss) ∙ h)
        (ground arith)
]

find_id_hit :
    (info : RegInfo) (table : List RegInfo) (id : RegId)
    → same_reg id info.id ≡ true
    → find_id id (info ∷ table) ≡ some info.name
unfolding find_id
find_id_hit info table id h = rw h

find_id_miss :
    (info : RegInfo) (table : List RegInfo) (id : RegId)
    → same_reg id info.id ≡ false
    → find_id id (info ∷ table) ≡ find_id id table
unfolding find_id
find_id_miss info table id h = rw h

-- In a table with distinct identifiers the name that is found is the one printed.
find_id-find_name :
    (table : List RegInfo) (name : Bytes) (id : RegId)
    → distinct table ≡ true
    → find_name name table ≡ some id
    → (n : Bytes) × (find_id id table ≡ some n) × (strcasecmp_eq name n ≡ true)
find_id-find_name [] name id d h = absurd (unfold find_name in cc)
find_id-find_name (info ∷ table) name id d h = elim (Bool-cases (strcasecmp_eq name info.name)) [
  | inl hit ↦
      let same = same_reg_self info.id id (sym (find_name_hit info table name hit) ∙ h) in
      (info.name, find_id_hit info table id same, hit)
  | inr miss ↦
      let rest = sym (find_name_miss info table name miss) ∙ h in
      let (n, at, eq) = find_id-find_name table name id (ground arith) rest in
      let other = absent-find_name table name info.id id rest (ground arith) in
      (n, find_id_miss info table id other ∙ at, eq)
]

or_else-find_name :
    (s t : List RegInfo) (name : Bytes)
    → or_else (find_name name s) (find_name name t) ≡ find_name name (s ++ t)
unfolding find_name
or_else-find_name [] t name = refl
or_else-find_name (info ∷ s) t name = ground (arith, or_else-find_name s t name)

or_else-find_id :
    (s t : List RegInfo) (id : RegId) → or_else (find_id id s) (find_id id t) ≡ find_id id (s ++ t)
unfolding find_id
or_else-find_id [] t id = refl
or_else-find_id (info ∷ s) t id = ground (arith, or_else-find_id s t id)

distinct_6809 : distinct registers_6809 ≡ true
unfolding registers_6809 same_reg
distinct_6809 = refl

distinct_6309 : distinct (registers_6309 ++ registers_6809) ≡ true
unfolding registers_6809 registers_6309 same_reg
distinct_6309 = refl

name_to_id-tables :
    (name : Bytes)
    → reg_name_to_id isa_6309 name ≡ find_name name (registers_6309 ++ registers_6809)
unfolding reg_name_to_id
name_to_id-tables name = or_else-find_name registers_6309 registers_6809 name

id_to_name-tables :
    (id : RegId) → reg_id_to_name isa_6309 id ≡ find_id id (registers_6309 ++ registers_6809)
unfolding reg_id_to_name
id_to_name-tables id = or_else-find_id registers_6309 registers_6809 id

-- A name that is found in an instruction set is, up to the case of its letters, the name by which
-- that set prints the register.
pub id_to_name-name_to_id :
    (isa : Isa) (name : Bytes) {id : RegId}
    → reg_name_to_id isa name ≡ some id
    → (n : Bytes) × (reg_id_to_name isa id ≡ some n) × (strcasecmp_eq name n ≡ true)
id_to_name-name_to_id isa_6809 name {id} h =
    unfold reg_name_to_id reg_id_to_name in find_id-find_name registers_6809 name id distinct_6809 h
id_to_name-name_to_id isa_6309 name {id} h =
    let (n, at, eq) =
      find_id-find_name (registers_6309 ++ registers_6809) name id distinct_6309
        (rw name_to_id-tables at h) in
    (n, id_to_name-tables id ∙ at, eq)
