-- ===== src/Options/Passes.antt =====
-- src/asm6809.c: the number of passes that the options leave.
use asm.Prelude.{
  ℕ, ◌≡◌, refl, sym, ap, ◌∙◌, ◌≤◌, leb, ◌==◌, arith, List, [], ◌∷◌, Bool, true, false, ◌||◌, ◌&&◌,
  and_right, Bool-cases, inl, inr,
}
use asm.Prelude.Int.{ℤ, pos, ltb_ℤ, pos_part}
use asm.Error.{Errors}
use asm.Node.{Node}
use asm.Eval.Expression.{Result}
use asm.Symbol.{Symbols}
use asm.Options.{
  Numerals, Given, Options, default_options, Read, going_on, exiting, passes_by, read_option,
  read_options, opt_format, opt_exec, opt_define, opt_max_passes, opt_output, opt_listing,
  opt_exports, opt_symbols, opt_isa, opt_setdp, opt_quiet, opt_verbose, opt_help, opt_version,
  opt_unknown,
}

-- The number of passes is one that the option accepts, and the depth of programs is the default.
abbrev pub is_allowed : Options → Bool
is_allowed o = leb 2 o.max_passes && leb o.max_passes 255 && (o.max_program_depth == 8)

-- So it is in what the options leave, where the program goes on.
abbrev pub allowed : Read → Bool
allowed (going_on o s) = is_allowed o
allowed (exiting success s) = true

in_range :
    (v : ℤ) (errno : Bool)
    → errno || (ltb_ℤ v (pos 2) || ltb_ℤ (pos 255) v) ≡ false
    → leb 2 (pos_part v) && leb (pos_part v) 255 ≡ true
in_range v errno h = ground (arith, h)

allowed-passes_by :
    (v : ℤ) (errno : Bool) (o : Options) (s : Symbols × Errors)
    → is_allowed o ≡ true
    → allowed (passes_by (v, errno) o s) ≡ true
allowed-passes_by v errno o (symbols, e) h =
    elim (Bool-cases (errno || (ltb_ℤ v (pos 2) || ltb_ℤ (pos 255) v))) [
      | inl t ↦ rw t refl
      | inr f ↦ rw f (rw (in_range v errno f) (and_right _ (o.max_program_depth == 8) h))
    ]

module _ (c : Numerals) (float_eq : ℕ → ℕ → Bool) (eval : Node → Errors → Result) where
  allowed-read_option :
      (g : Given) (o : Options) (s : Symbols × Errors)
      → is_allowed o ≡ true
      → allowed (read_option c float_eq eval g o s) ≡ true
  unfolding read_option
  allowed-read_option (opt_max_passes arg) o s h =
      allowed-passes_by (c.strtol_any arg).0 (c.strtol_any arg).1 o s h
  allowed-read_option (opt_format format) o s h = h
  allowed-read_option (opt_exec arg) o s h = h
  allowed-read_option (opt_define arg) o s h = h
  allowed-read_option (opt_output arg) o s h = h
  allowed-read_option (opt_listing arg) o s h = h
  allowed-read_option (opt_exports arg) o s h = h
  allowed-read_option (opt_symbols arg) o s h = h
  allowed-read_option (opt_isa isa) o s h = h
  allowed-read_option (opt_setdp arg) o s h = h
  allowed-read_option opt_quiet o s h = h
  allowed-read_option opt_verbose o s h = h
  allowed-read_option opt_help o s h = refl
  allowed-read_option opt_version o s h = refl
  allowed-read_option opt_unknown o s h = refl

  allowed-read_options :
      (given : List Given) (r : Read)
      → allowed r ≡ true
      → allowed (read_options c float_eq eval given r) ≡ true
  unfolding read_options
  allowed-read_options [] r h = h
  allowed-read_options (g ∷ given) (exiting success s) h = refl
  allowed-read_options (g ∷ given) (going_on o s) h =
      allowed-read_options given (read_option c float_eq eval g o s) (allowed-read_option g o s h)

-- Whatever options are given, where all of them are read the number of passes is from 2 to 255, and the
-- depth of programs is 8.
pub max_passes-read_options :
    (c : Numerals) (float_eq : ℕ → ℕ → Bool) (eval : Node → Errors → Result) (given : List Given)
    (s after : Symbols × Errors) (o : Options)
    → read_options c float_eq eval given (going_on default_options s) ≡ going_on o after
    → (2 ≤ o.max_passes) × ((o.max_passes ≤ 255) × (o.max_program_depth ≡ 8))
max_passes-read_options c float_eq eval given s after o h = parts o (
    ap allowed (sym h)
    ∙ allowed-read_options c float_eq eval given (going_on default_options s) refl)
  where
    parts :
        (o : Options)
        → is_allowed o ≡ true
        → (2 ≤ o.max_passes) × ((o.max_passes ≤ 255) × (o.max_program_depth ≡ 8))
    parts o k = ground (arith, k)
