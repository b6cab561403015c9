-- ===== src/Options/Define.antt =====
-- src/asm6809.c: the symbols that the option --define sets.
use asm.Prelude.{
  ℕ, suc, arith, leb, ◌||◌, sym, ◌≡◌, refl, Bool, true, false, not, ◌&&◌, Option, none, some, [],
  ◌∷◌, ◌++◌, ◌==◌, ap, and_left, Bool-cases, inl, inr, and_right, ◌∙◌, if◌then◌else◌,
}
use asm.Prelude.Int.{ℤ, pos}
use asm.Text.{Bytes, bytes, bytes_eq}
use asm.Error.{Errors}
use asm.Node.{Node, node, int, attr_none}
use asm.Dict.{dict_str_equal, dict_lookup}
use asm.Eval.Expression.{Result, Env, eval_node}
use asm.Symbol.{Symbols, set_in_pass, symbol_try_get}
use asm.Symbol.Table.{symbol_try_get-symbol_set}
use asm.Options.{Numerals, simple_parse_int, split_assignment, defined_value, define_symbol}

-- How an option is written: a name, and the text behind a sign of equality.
abbrev split_off : Bytes → Option Bytes → Bytes
split_off key none = key
split_off key (some text) = key ++ b'=' ∷ text

abbrev pub is_name : Bytes → Bool
is_name [] = true
is_name (char ∷ key) = not (char == b'=') && is_name key

split_off-cons :
    (char : ℕ) (key : Bytes) (value : Option Bytes)
    → split_off (char ∷ key) value ≡ char ∷ split_off key value
split_off-cons char key none = refl
split_off-cons char key (some text) = refl

split_assignment-char :
    (char : ℕ) (str : Bytes)
    → not (char == b'=') ≡ true
    → split_assignment (char ∷ str) ≡ (char ∷ (split_assignment str).0, (split_assignment str).1)
unfolding split_assignment
split_assignment-char char str h = elim (Bool-cases (char == b'=')) [
  | inl t ↦ let clash : false ≡ true = rw t at h in cc
  | inr f ↦ rw f refl
]

split_assignment-split_off :
    (key : Bytes) (value : Option Bytes)
    → is_name key ≡ true
    → split_assignment (split_off key value) ≡ (key, value)
unfolding split_assignment
split_assignment-split_off [] none h = refl
split_assignment-split_off [] (some text) h = refl
split_assignment-split_off (char ∷ key) value h =
    ap split_assignment (split_off-cons char key value)
    ∙ split_assignment-char char (split_off key value)
        (and_left (not (char == b'=')) (is_name key) h)
    ∙ ap (λ r. (char ∷ r.0, r.1))
        (split_assignment-split_off key value (and_right (not (char == b'=')) (is_name key) h))

defined-symbol_set :
    (c : Numerals) (float_eq : ℕ → ℕ → Bool) (eval : Node → Errors → Result) (key i : Bytes)
    (value : Option Bytes) (symbols : Symbols) (e : Errors)
    → is_name key ≡ true
    → symbol_try_get (define_symbol c float_eq eval (split_off key value) (symbols, e)).0 i ≡ (
        if bytes_eq key i && not (set_in_pass 0 (dict_lookup dict_str_equal symbols key))
        then (eval (defined_value c value) e).0
        else symbol_try_get symbols i)
unfolding define_symbol
defined-symbol_set c float_eq eval key i value symbols e h =
    rw (split_assignment-split_off key value h)
      (symbol_try_get-symbol_set float_eq eval key i (defined_value c value) false 0 symbols e)

-- How a number may be written behind the sign: with a mark of its base, or in decimal.
pub data Mark : Type 0 where
  dollar at_sign percent zero_x zero_b : Mark

abbrev pub mark_text : Mark → Bytes
mark_text dollar = bytes "$"
mark_text at_sign = bytes "@"
mark_text percent = bytes "%"
mark_text zero_x = bytes "0x"
mark_text zero_b = bytes "0b"

abbrev pub base_of : Mark → ℕ
base_of dollar = 16
base_of at_sign = 8
base_of percent = 2
base_of zero_x = 16
base_of zero_b = 2

-- What an option says of its symbol.
pub data Said : Type 0 where
  only_name : Said
  marked : Mark → Bytes → Said
  decimal : Bytes → Said

abbrev pub text_of : Said → Option Bytes
text_of only_name = none
text_of (marked m digits) = some (mark_text m ++ digits)
text_of (decimal digits) = some digits

-- The option in full, `name` or `name=text`.
abbrev pub option_text : Bytes → Said → Bytes
option_text key only_name = key
option_text key (marked m digits) = key ++ b'=' ∷ (mark_text m ++ digits)
option_text key (decimal digits) = key ++ b'=' ∷ digits

-- A number in decimal begins with a digit, and not with the marks 0x and 0b.
abbrev pub is_unmarked : Bytes → Bool
is_unmarked [] = true
is_unmarked (char ∷ rest) = not (char == b'x') && not (char == b'b')

abbrev pub is_written : Said → Bool
is_written (decimal []) = false
is_written (decimal (char ∷ rest)) =
    (leb b'0' char && leb char b'9') && (not (char == b'0') || is_unmarked rest)
is_written _ = true

-- The number that is meant.
abbrev pub number_said : Numerals → Said → ℤ
number_said c only_name = pos 1
number_said c (marked m digits) = c.strtol digits (base_of m)
number_said c (decimal digits) = c.strtol digits 10

defined_value-decimal :
    (c : Numerals) (char : ℕ) (rest : Bytes)
    → is_written (decimal (char ∷ rest)) ≡ true
    → defined_value c (some (char ∷ rest)) ≡ node (int (c.strtol (char ∷ rest) 10)) attr_none
unfolding defined_value simple_parse_int
defined_value-decimal c char [] h = ground (arith, h)
defined_value-decimal c char (next ∷ rest) h = ground (arith, h)

defined_value-said :
    (c : Numerals) (said : Said)
    → is_written said ≡ true
    → defined_value c (text_of said) ≡ node (int (number_said c said)) attr_none
unfolding defined_value simple_parse_int
defined_value-said c only_name h = refl
defined_value-said c (marked dollar digits) h = refl
defined_value-said c (marked at_sign digits) h = refl
defined_value-said c (marked percent digits) h = refl
defined_value-said c (marked zero_x digits) h = refl
defined_value-said c (marked zero_b digits) h = refl
defined_value-said c (decimal []) h = cc
defined_value-said c (decimal (char ∷ rest)) h = defined_value-decimal c char rest h

split_off-option_text :
    (key : Bytes) (said : Said) → split_off key (text_of said) ≡ option_text key said
split_off-option_text key only_name = refl
split_off-option_text key (marked m digits) = refl
split_off-option_text key (decimal digits) = refl

eval_node-int :
    (env : Env) (fuel : ℕ) (v : ℤ) (e : Errors)
    → (eval_node env (suc fuel) (node (int v) attr_none) e).0 ≡ node (int v) attr_none
unfolding eval_node
eval_node-int env fuel v e = refl

-- An option `name` makes 1 the value of that name, and `name=text` the number that strtol reads in the
-- text: in base 16 behind $ or 0x, 8 behind @, 2 behind % or 0b, and 10 where it begins with a digit and
-- with none of those. All other names are left alone, and all are where an option before it defined
-- that name already. The name has no sign of equality, and evaluation has some fuel.
pub symbol_try_get-define_symbol :
    (c : Numerals) (float_eq : ℕ → ℕ → Bool) (env : Env) (fuel : ℕ) (key i : Bytes) (said : Said)
    (symbols : Symbols) (e : Errors)
    → is_name key ≡ true
    → is_written said ≡ true
    → symbol_try_get
        (define_symbol c float_eq (eval_node env (suc fuel)) (option_text key said) (symbols, e)).0
        i
      ≡ (if bytes_eq key i && not (set_in_pass 0 (dict_lookup dict_str_equal symbols key))
          then node (int (number_said c said)) attr_none
          else symbol_try_get symbols i)
symbol_try_get-define_symbol c float_eq env fuel key i said symbols e h k =
    let eval = eval_node env (suc fuel) in
    ap (λ str. symbol_try_get (define_symbol c float_eq eval str (symbols, e)).0 i)
      (sym (split_off-option_text key said))
    ∙ defined-symbol_set c float_eq eval key i (text_of said) symbols e h
    ∙ ap
        (λ n.
          if bytes_eq key i && not (set_in_pass 0 (dict_lookup dict_str_equal symbols key))
          then n
          else symbol_try_get symbols i)
        (ap (λ n. (eval n e).0) (defined_value-said c said k)
          ∙ eval_node-int env fuel (number_said c said) e)
