-- ===== src/Main/Exec.antt =====
-- src/asm6809.c: the option --exec against the pseudo-operation END.
use asm.Prelude.{
  ℕ, suc, ◌≡◌, refl, ap, ◌∙◌, Bool, true, false, not, ◌&&◌, ◌%◌, Option, none, some, List, all,
  if◌then◌else◌,
}
use asm.Prelude.Int.{ℤ, pos, negsuc}
use asm.Text.{Bytes, bytes_eq, bytes_eq_iff}
use asm.Error.{Errors}
use asm.Node.{node, int, Attr, attr_none}
use asm.Dict.{dict_str_equal, dict_lookup}
use asm.Eval.Expression.{eval_node}
use asm.Symbol.{set_in_pass, symbol_set, symbol_try_get}
use asm.Symbol.Table.{symbol_try_get-symbol_set}
use asm.Output.{get_exec_addr, exec_of}
use asm.Options.{simple_parse_int}
use asm.Assemble.World.{Outside, World, Prog, with_errors, evaluate}
use asm.Assemble.Passes.{all_passes}
use asm.Assemble.Steps.{is_prog}
use asm.Assemble.Steps.Kept.{are_progs}
use asm.Assemble.Steps.Line.{Parses}
use asm.Assemble.Steps.Passes.{SetWithin}
use asm.Assemble.Steps.Programs.{set_in_pass-all_passes}
use asm.Assemble.Label.{exec_name}
use asm.Main.{Surroundings, set_exec_option, exec_value}

eval_int-node :
    (o : Outside) (w : World) (v : ℤ) (attr : Attr) (fuel : ℕ) (e : Errors)
    → o.eval_fuel ≡ suc fuel
    → evaluate o w (node (int v) attr) e ≡ (node (int v) attr, e)
unfolding eval_node
eval_int-node o w v attr fuel e h = rw h refl

free_test : (p q : Bool) → q ≡ false → p && not (not false && q) ≡ p
free_test true q h = rw h refl
free_test false q h = refl

symbol_try_get-force :
    (s : Surroundings) (o : Outside) (max_passes : ℕ) (text i : Bytes) (w : World) (v : ℤ)
    → simple_parse_int s.numerals text ≡ node (int v) attr_none
    → symbol_try_get (set_exec_option s o max_passes (some text) w).symbols i ≡ (
        symbol_try_get
          (symbol_set o.machine.equal
            (evaluate o w)
            exec_name
            (node (int v) attr_none)
            false
            max_passes
            w.symbols
            w.asm.errors).0
          i)
unfolding set_exec_option exec_value symbol_set
symbol_try_get-force s o max_passes text i w v p = rw p refl

set_exec_option-lookup :
    (s : Surroundings) (o : Outside) (max_passes fuel : ℕ) (text i : Bytes) (w : World) (v : ℤ)
    → o.eval_fuel ≡ suc fuel
    → simple_parse_int s.numerals text ≡ node (int v) attr_none
    → set_in_pass max_passes (dict_lookup dict_str_equal w.symbols exec_name) ≡ false
    → symbol_try_get (set_exec_option s o max_passes (some text) w).symbols i
      ≡ (if bytes_eq exec_name i then node (int v) attr_none else symbol_try_get w.symbols i)
set_exec_option-lookup s o max_passes fuel text i w v f p h =
    symbol_try_get-force s o max_passes text i w v p
    ∙ symbol_try_get-symbol_set o.machine.equal (evaluate o w) exec_name i (node (int v) attr_none)
        false max_passes w.symbols w.asm.errors
    ∙ ap
        (λ b.
          if b
          then (evaluate o w (node (int v) attr_none) w.asm.errors).0
          else symbol_try_get w.symbols i)
        (free_test (bytes_eq exec_name i) _ h)
    ∙ ap (λ n. if bytes_eq exec_name i then n.0 else symbol_try_get w.symbols i)
        (eval_int-node o w v attr_none fuel w.asm.errors f)

-- The low 16 bits of a number that is not negative.
abbrev pub start_of : ℤ → Option ℕ
start_of (pos n) = some (n % 65536)
start_of (negsuc n) = none

exec_of-start_of : (v : ℤ) → exec_of v ≡ start_of v
exec_of-start_of (pos n) = refl
exec_of-start_of (negsuc n) = refl

-- A number that the option --exec gives is the start address of the output files, modulo 65536 and none
-- where it is negative, whatever END or a label set in the passes before; and no other symbol changes. The
-- lines that are parsed have an array of arguments or none, before the passes no symbol was set in a pass
-- but the first, at least one pass is made, and evaluation has some fuel.
pub get_exec_addr-set_exec_option :
    (s : Surroundings) (o : Outside) (last depth fuel : ℕ) (files : List Prog) (w : World)
    (e : Errors) (text : Bytes) (v : ℤ)
    → o.eval_fuel ≡ suc fuel
    → Parses o
    → all is_prog files ≡ true
    → are_progs w ≡ true
    → SetWithin 0 w.symbols
    → simple_parse_int s.numerals text ≡ node (int v) attr_none
    → (get_exec_addr s.junk (
          symbol_try_get
            (set_exec_option s o
              (suc last)
              (some text)
              (with_errors e (all_passes o depth files (suc last) 0 w))).symbols
            exec_name)
        ≡ start_of v)
      × ((i : Bytes)
          → bytes_eq exec_name i ≡ false
          → symbol_try_get
              (set_exec_option s o
                (suc last)
                (some text)
                (with_errors e (all_passes o depth files (suc last) 0 w))).symbols
              i
            ≡ symbol_try_get (all_passes o depth files (suc last) 0 w).symbols i)
get_exec_addr-set_exec_option s o last depth fuel files w e text v f h p g k t =
    let u = with_errors e (all_passes o depth files (suc last) 0 w) in
    let free = set_in_pass-all_passes o depth files last w h p g k exec_name in
    (
      ap (get_exec_addr s.junk) (
            set_exec_option-lookup s o (suc last) fuel text exec_name u v f t free
            ∙ ap (λ b. if b then node (int v) attr_none else symbol_try_get u.symbols exec_name)
                ((bytes_eq_iff exec_name exec_name).1 refl))
          ∙ exec_of-start_of v,
      λ i other.
          set_exec_option-lookup s o (suc last) fuel text i u v f t free
          ∙ ap (λ b. if b then node (int v) attr_none else symbol_try_get u.symbols i) other,
    )
