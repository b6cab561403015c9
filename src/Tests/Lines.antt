-- ===== src/Tests/Lines.antt =====
-- Examples of pseudo-operations at $4002.
use asm.Prelude.{ℕ, ◌+◌, ◌≡◌, List, [], ◌∷◌, arith, replicate}
use asm.Prelude.Int.{ℤ, pos, negsuc, uint8}
use asm.Error.{no_errors}
use asm.Node.{node, int, array, cons, nil, of_list, attr_none}
use asm.Instr.Outcome.{Outcome}
use asm.Pseudo.Address.{pseudo_align}
use asm.Pseudo.Data.{pseudo_fdb}
use asm.Pseudo.Data.Readback.{int_args, read_words, all_uint16, pseudo_fdb-read}
use asm.Pseudo.Layout.{NextMultiple, pseudo_align-next}
use asm.Tests.Fixtures.{midway, Fits-midway}

abbrev no_floats : ℕ → ℤ
no_floats bits = pos 0

pseudo_align-next_example :
    (count : ℕ) × Outcome (replicate count (uint8 (pos 7))) no_errors midway (
      pseudo_align no_floats
        (node
          (array (cons (node (int (pos 16)) attr_none) (cons (node (int (pos 7)) attr_none) nil)))
          attr_none)
        midway)
    × NextMultiple 16 0x4002 (0x4002 + count)
pseudo_align-next_example =
    pseudo_align-next 15 (pos 7) attr_none attr_none attr_none midway no_floats
      (Fits-midway 16 (omega arith)) (omega arith)

pseudo_fdb-read_example :
    (bytes : List ℕ) × Outcome bytes no_errors midway (
      pseudo_fdb no_floats no_floats
        (node (array (of_list (int_args (pos 0x1234 ∷ negsuc 0 ∷ [])))) attr_none)
        midway)
    × (read_words bytes ≡ all_uint16 (pos 0x1234 ∷ negsuc 0 ∷ []))
pseudo_fdb-read_example =
    pseudo_fdb-read (pos 0x1234) (negsuc 0 ∷ []) attr_none midway no_floats no_floats
      (Fits-midway 4 (omega arith)) (omega arith)
