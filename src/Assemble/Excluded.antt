-- ===== src/Assemble/Excluded.antt =====
-- Lines that a condition excludes.
use asm.Prelude.{ℕ, ◌≡◌, refl, Bool, true, false, ◌||◌, Option, none, some, List, if◌then◌else◌}
use asm.Text.{Bytes}
use asm.Node.{Node}
use asm.Assemble.World.{Outside, World, Prog, ProgLine, eval_string_in, name_of}
use asm.Assemble.Cond.{CondState, Conds, excluded, is_some}
use asm.Assemble.Line.{is_opcode}
use asm.Assemble.Program.{Left, count_line, assemble_line, opcode_line, is_blank}

-- Is it a line of a condition?
abbrev pub is_conditional : Option Bytes → Bool
is_conditional opcode =
    (is_opcode "if" opcode || is_opcode "elsif" opcode)
    || (is_opcode "else" opcode || is_opcode "endif" opcode)

-- The line is counted, and its opcode is evaluated to a text.
abbrev pub read_opcode : Outside → ProgLine → World → Node × World
read_opcode o l w = eval_string_in o l.opcode (count_line w)

choose_excluded {ℓ} :
    {A : Type ℓ} (nop i s e f : Bool) (a b1 b2 b3 b4 : A)
    → (i || s) || (e || f) ≡ false
    → (if nop
        then a
        else (if i then b1 else (if s then b2 else (if e then b3 else (if f then b4 else a)))))
      ≡ a
choose_excluded true i s e f a b1 b2 b3 b4 h = refl
choose_excluded false true s e f a b1 b2 b3 b4 h = cc
choose_excluded false false true e f a b1 b2 b3 b4 h = cc
choose_excluded false false false true f a b1 b2 b3 b4 h = cc
choose_excluded false false false false true a b1 b2 b3 b4 h = cc
choose_excluded false false false false false a b1 b2 b3 b4 h = refl

module _ (o : Outside) (recurse : Prog → World → World) (l : ProgLine) where
  excluded_at :
      (conds : List CondState) (k level : ℕ) (n : Node) (w : World)
      → level ≡ 0
      → is_conditional (name_of n) ≡ false
      → opcode_line o recurse l
          (record { cond_list = conds; cond_excluded = some k })
          (n, record w { defining_macro_level = level })
        ≡ (
          record { cond_list = conds; cond_excluded = some k },
          record w { defining_macro_level = level },
        )
  excluded_at conds k level n w z h = rw z (
      choose_excluded
        (is_opcode "opt" (name_of n) || is_opcode "sttl" (name_of n) || is_opcode "ttl" (name_of n))
        (is_opcode "if" (name_of n)) (is_opcode "elsif" (name_of n)) (is_opcode "else" (name_of n))
        (is_opcode "endif" (name_of n)) _ _ _ _ _ h)

  excluded_by :
      (conds : List CondState) (e : Option ℕ) (n : Node) (w : World)
      → is_some e ≡ true
      → w.defining_macro_level ≡ 0
      → is_conditional (name_of n) ≡ false
      → opcode_line o recurse l (record { cond_list = conds; cond_excluded = e }) (n, w)
        ≡ (record { cond_list = conds; cond_excluded = e }, w)
  excluded_by conds none n w s z h = cc
  excluded_by conds (some k) n w s z h = excluded_at conds k w.defining_macro_level n w z h

  or_blank :
      (blank : Bool) (c : Conds) (counted : World) (read : Node × World) (left : Left)
      → left ≡ (c, read.1)
      → (if blank then (c, counted) else left) ≡ (c, if blank then counted else read.1)
  or_blank true c counted read left h = refl
  or_blank false c counted read left h = h

  -- Outside of a macro's definition, a line that a condition excludes, that is not blank and whose
  -- opcode, if it has one, does not evaluate to IF, ELSIF, ELSE or ENDIF is counted, and its opcode is
  -- evaluated, which may report; nothing else happens, whatever the label and the arguments are: no
  -- condition, byte, symbol, section, macro or further report. A blank line is counted only.
  pub assemble_line-excluded :
      (c : Conds) (w : World)
      → excluded c ≡ true
      → w.defining_macro_level ≡ 0
      → is_conditional (name_of (read_opcode o l w).0) ≡ false
      → assemble_line o recurse l (c, w)
        ≡ (c, if is_blank o recurse l then count_line w else (read_opcode o l w).1)
  unfolding assemble_line
  assemble_line-excluded c w x z h =
      or_blank (is_blank o recurse l) c (count_line w) (read_opcode o l w) _
        (excluded_by c.cond_list c.cond_excluded (read_opcode o l w).0 (read_opcode o l w).1 x z h)
