-- ===== src/Assemble/Steps/Passes.antt =====
-- src/assemble.c: the pass that a symbol was last set in.
use asm.Prelude.{
  ℕ, ◌≤◌, ◌≡◌, ◌⊎◌, refl, arith, Bool, true, false, not, ◌&&◌, Bool-cases, inl, inr, leb, Option,
  none, some, if◌then◌else◌,
}
use asm.Error.{Errors}
use asm.Node.{Node}
use asm.Text.{Bytes, bytes_eq}
use asm.Dict.{dict_str_equal, dict_lookup}
use asm.Eval.Expression.{Result}
use asm.Symbol.{Symbol, Symbols, set_in_pass, symbol_set, symbol_force_set}
use asm.Symbol.Table.{lookup-key}
use asm.Assemble.World.{Outside, World, evaluate}
use asm.Assemble.Steps.{
  Steps, stay, both, to_asm, to_symbols, to_locals, to_section, to_exports, to_ignoring, to_level,
  to_context, new_macro, new_line, to_file, expansion,
}
use asm.Assemble.Steps.Kept.{asm_pass-Steps}

abbrev pub within : ℕ → Option Symbol → Bool
within last none = true
within last (some s) = leb s.pass last

-- No symbol was set in a pass after the given one.
abbrev pub SetWithin : ℕ → Symbols → Type 0
SetWithin last symbols = (i : Bytes) → within last (dict_lookup dict_str_equal symbols i) ≡ true

within-if :
    (last : ℕ) (p : Bool) (s : Symbol) (old : Option Symbol)
    → s.pass ≤ last
    → within last old ≡ true
    → within last (if p then some s else old) ≡ true
within-if last true s old h k = ground (arith, h)
within-if last false s old h k = k

pub SetWithin-symbol_set :
    (float_eq : ℕ → ℕ → Bool) (eval : Node → Errors → Result) (key : Bytes) (value : Node)
    (changeable : Bool) (pass last : ℕ) (symbols : Symbols) (e : Errors)
    → pass ≤ last
    → SetWithin last symbols
    → SetWithin last (symbol_set float_eq eval key value changeable pass symbols e).0
unfolding symbol_set symbol_force_set
SetWithin-symbol_set float_eq eval key value changeable pass last symbols e h k i =
    elim (Bool-cases
      (not changeable && set_in_pass pass (dict_lookup dict_str_equal symbols key))) [
        | inl t ↦ rw t (k i)
        | inr f ↦
            rw (f, lookup-key symbols key i (record { pass = pass; node = (eval value e).0 }))
              (within-if last (bytes_eq key i) _ _ h (k i))
      ]

pass_within : (pass here last : ℕ) → (pass ≡ here) ⊎ (pass ≡ 0) → here ≤ last → pass ≤ last
pass_within pass here last h k = ground (arith, h, k)

pub SetWithin-Steps :
    {o : Outside} {w v : World} (last : ℕ)
    → Steps o w v
    → w.asm_pass ≤ last
    → SetWithin last w.symbols
    → SetWithin last v.symbols
SetWithin-Steps last stay h k = k
SetWithin-Steps last (both s t) h k =
    SetWithin-Steps last t (omega (arith, h, asm_pass-Steps s)) (SetWithin-Steps last s h k)
SetWithin-Steps last (to_asm a) h k = k
SetWithin-Steps {o} {w} last (to_symbols key value changeable pass e p) h k =
    SetWithin-symbol_set o.machine.equal (evaluate o w) key value changeable pass last w.symbols e
      (pass_within pass w.asm_pass last p h) k
SetWithin-Steps last (to_locals key value e) h k = k
SetWithin-Steps last (to_section current sections) h k = k
SetWithin-Steps last (to_exports exports) h k = k
SetWithin-Steps last (to_ignoring b) h k = k
SetWithin-Steps last (to_level n) h k = k
SetWithin-Steps last (to_context c) h k = k
SetWithin-Steps last (new_macro name) h k = k
SetWithin-Steps last (new_line name l p) h k = k
SetWithin-Steps last (to_file file p) h k = k
SetWithin-Steps last (expansion args p s) h k = SetWithin-Steps last s h k

within-later : (last : ℕ) (s : Option Symbol) → within 0 s ≡ true → within last s ≡ true
within-later last none h = refl
within-later last (some s) h = ground (arith, h)

pub SetWithin-later : (last : ℕ) (symbols : Symbols) → SetWithin 0 symbols → SetWithin last symbols
SetWithin-later last symbols k i = within-later last (dict_lookup dict_str_equal symbols i) (k i)
