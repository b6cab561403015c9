-- ===== src/Error/Print/Shown.antt =====
-- src/error.c: whether an assembly that fails says why.
use mathlib.Core.List.{Memᴰ}
use mathlib.Core.List.Memᴰ
use asm.Prelude.{
  ◌⊎◌, append_assoc, ==_iff, ℕ, ◌≤◌, ◌≡◌, String, Bool, true, false, ◌||◌, Bool-cases, inl, inr,
  none, some, List, [], ◌∷◌, ◌++◌, arith, ◌==◌, leb, refl, sym, ap, ◌∙◌, if◌then◌else◌,
}
use asm.Prelude.Int.{ℤ, pos, leb_ℤ, ◌-ℤ◌}
use asm.Text.{Bytes, bytes}
use asm.Error.{
  ErrorType, none_reported, inefficient, illegal, syntax, out_of_range, data_error, fatal,
  inconsistent, rank, Report, Errors, no_errors, verror,
}
use asm.Error.Level.{Call, run}
use asm.Error.Print.{error_print_list, print_from, print_error, min_error}

-- Every call has a message.
abbrev pub all_with_message : List Call → Bool
all_with_message [] = true
all_with_message ((type, none) ∷ calls) = false
all_with_message ((type, some fmt) ∷ calls) = all_with_message calls

-- some report is of the rank
abbrev reported : ℕ → List Report → Bool
reported level [] = false
reported level (r ∷ list) = rank r.type == level || reported level list

reported-append :
    (level : ℕ) (list : List Report) (r : Report)
    → reported level (list ++ r ∷ []) ≡ (reported level list || (rank r.type == level))
reported-append level [] r = ground arith
reported-append level (x ∷ list) r = ground (arith, reported-append level list r)

-- The level is that of a report, or nothing was reported.
abbrev founded : Errors → Bool
founded e = rank e.level == 0 || reported (rank e.level) e.list

founded-verror :
    (type : ErrorType) (fmt : String) (e : Errors)
    → founded e ≡ true
    → founded (verror type (some fmt) e) ≡ true
unfolding verror
founded-verror type fmt e h = ground (
  arith,
  h,
  reported-append (rank type) e.list (record { type = type; message = fmt }),
  reported-append (rank e.level) e.list (record { type = type; message = fmt }),
  reported-append 3 e.list (record { type = type; message = fmt }),
)

founded-run :
    (calls : List Call) (e : Errors)
    → all_with_message calls ≡ true
    → founded e ≡ true
    → founded (run calls e) ≡ true
founded-run [] e h k = k
founded-run ((type, none) ∷ calls) e h k = cc
founded-run ((type, some fmt) ∷ calls) e h k =
    founded-run calls (verror type (some fmt) e) h (founded-verror type fmt e k)

-- A report of the rank is in the list.
reported-Memᴰ :
    (level : ℕ) (list : List Report)
    → reported level list ≡ true
    → (r : Report) × Memᴰ r list × (rank r.type ≡ level)
reported-Memᴰ level [] h = cc
reported-Memᴰ level (r ∷ list) h = elim (Bool-cases (rank r.type == level)) [
  | inl t ↦ (r, Memᴰ.head refl, (==_iff _ _).0 t)
  | inr f ↦
      let (q, m, e) = reported-Memᴰ level list (or_false (rank r.type == level) _ f h) in
      (q, Memᴰ.tail m, e)
]
  where
    or_false : (a b : Bool) → a ≡ false → a || b ≡ true → b ≡ true
    or_false a b f h = ground arith

abbrev call_of : Report → Call
call_of r = (r.type, some r.message)

-- Every report comes from a call.
Memᴰ-run :
    (calls : List Call) (e : Errors) (r : Report)
    → Memᴰ r (run calls e).list
    → Memᴰ r e.list ⊎ Memᴰ (call_of r) calls
unfolding verror
Memᴰ-run [] e r m = inl m
Memᴰ-run ((type, none) ∷ calls) e r m = elim (Memᴰ-run calls (verror type none e) r m) [
  | inl k ↦ inl k
  | inr k ↦ inr (Memᴰ.tail k)
]
Memᴰ-run ((type, some fmt) ∷ calls) e r m = elim (Memᴰ-run calls (verror type (some fmt) e) r m) [
  | inl k ↦ elim (Memᴰ.append_cases e.list k) [
    | inl old ↦ inl old
    | inr new ↦ inr (Memᴰ.head (ap call_of (only new)))
  ]
  | inr k ↦ inr (Memᴰ.tail k)
]
  where
    only : {q : Report} → Memᴰ r (q ∷ []) → r ≡ q
    only (Memᴰ.head e) = e
    only (Memᴰ.tail n) = absurd (Memᴰ.not-nil n)

-- A line of the printed text: what kind of report it is, where it came from, and its message.
abbrev pub error_line : Bytes → (Report → Bytes) → Report → Bytes
error_line kind location r = kind ++ location r ++ bytes r.message ++ 0x0a ∷ []

-- The text has the line of a report of the given rank that one of the calls made, as an error.
pub record Told (location : Report → Bytes) (calls : List Call) (level : ℕ) (printed : Bytes)
    : Type 0 where
  pub report : Report
  pub made : Memᴰ (report.type, some report.message) calls
  pub of_level : rank report.type ≡ level
  pub kind : Bytes
  pub is_error : (kind ≡ bytes "error: ") ⊎ (kind ≡ bytes "syntax error: ")
  pub before : Bytes
  pub after : Bytes
  pub is_printed : printed ≡ before ++ (error_line kind location report ++ after)

-- A report of the least type is printed.
print_from-Memᴰ :
    (location : Report → Bytes) (level : ℕ) (list : List Report) (r : Report)
    → Memᴰ r list
    → rank r.type ≡ level
    → (before : Bytes) × (after : Bytes) × (print_from location (pos level) list
        ≡ before ++ (print_error location r ++ after))
unfolding print_from
print_from-Memᴰ location level [] r m e = absurd (Memᴰ.not-nil m)
print_from-Memᴰ location level (q ∷ list) r (Memᴰ.head same) e = (
  [],
  print_from location (pos level) list,
  rw (printed (rank q.type) (sym (ap (λ x. rank x.type) same) ∙ e))
      (ap (λ x. print_error location x ++ print_from location (pos level) list) (sym same)),
)
  where
    printed : (n : ℕ) → n ≡ level → leb_ℤ (pos level) (pos n) ≡ true
    printed n h = ground arith
print_from-Memᴰ location level (q ∷ list) r (Memᴰ.tail m) e =
    let (before, after, h) = print_from-Memᴰ location level list r m e in
    elim (Bool-cases (leb_ℤ (pos level) (pos (rank q.type)))) [
      | inl t ↦ (
        print_error location q ++ before,
        after,
        rw t (
            ap (λ s. print_error location q ++ s) h
            ∙ sym (append_assoc (print_error location q) before _)),
      )
      | inr f ↦ (before, after, rw f h)
    ]

-- The kind that is printed before a report that fails an assembly.
print_error-kind :
    (location : Report → Bytes) (r : Report)
    → 3 ≤ rank r.type
    → (kind : Bytes) × ((kind ≡ bytes "error: ") ⊎ (kind ≡ bytes "syntax error: "))
      × (print_error location r ≡ error_line kind location r)
unfolding print_error
print_error-kind location r h = by_type r.type r.message h
  where
    by_type :
        (type : ErrorType) (message : String)
        → 3 ≤ rank type
        → (kind : Bytes) × ((kind ≡ bytes "error: ") ⊎ (kind ≡ bytes "syntax error: "))
          × (print_error location (record { type = type; message = message })
              ≡ error_line kind location (record { type = type; message = message }))
    by_type none_reported message h = absurd (omega (arith, h))
    by_type inefficient message h = absurd (omega (arith, h))
    by_type illegal message h = absurd (omega (arith, h))
    by_type syntax message h = (bytes "syntax error: ", inr refl, refl)
    by_type inconsistent message h = (bytes "error: ", inl refl, refl)
    by_type out_of_range message h = (bytes "error: ", inl refl, refl)
    by_type data_error message h = (bytes "error: ", inl refl, refl)
    by_type fatal message h = (bytes "error: ", inl refl, refl)

-- Where every call of `error` in the last pass had a message, and the assembly fails for the level that
-- they raised, inconsistent or above, the list that is printed has a line for a report of that level
-- that one of the calls made, whatever the verbosity: that it is an error, its location and its message.
pub error_print_list-run :
    (location : Report → Bytes) (verbosity : ℤ) (calls : List Call)
    → all_with_message calls ≡ true
    → rank inconsistent ≤ rank (run calls no_errors).level
    → Told location calls
        (rank (run calls no_errors).level)
        (error_print_list location verbosity (run calls no_errors)).0
unfolding error_print_list min_error
error_print_list-run location verbosity calls h k =
    let level = rank (run calls no_errors).level in
    let (r, m, e) =
      reported-Memᴰ level (run calls no_errors).list
        (reported_of level _ k (founded-run calls no_errors h refl)) in
    let (before, after, p) = print_from-Memᴰ location level (run calls no_errors).list r m e in
    let (kind, is_error, q) = print_error-kind location r (omega (arith, e, k)) in
    record {
      report = r;
      made = from_call r (Memᴰ-run calls no_errors r m);
      of_level = e;
      kind = kind;
      is_error = is_error;
      before = before;
      after = after;
      is_printed =
          ap (λ least. print_from location least (run calls no_errors).list)
            (by_level verbosity level k)
          ∙ p
          ∙ ap (λ line. before ++ (line ++ after)) q;
    }
  where
    reported_of : (n : ℕ) (q : Bool) → 3 ≤ n → n == 0 || q ≡ true → q ≡ true
    reported_of n q a b = ground (arith, a, b)

    by_level : (v : ℤ) (n : ℕ) → 3 ≤ n → (if leb 3 n then pos n else pos 2 -ℤ v) ≡ pos n
    by_level v n a = ground (arith, a)

    from_call : (r : Report) → Memᴰ r [] ⊎ Memᴰ (call_of r) calls → Memᴰ (call_of r) calls
    from_call r (inl m) = absurd (Memᴰ.not-nil m)
    from_call r (inr m) = m
