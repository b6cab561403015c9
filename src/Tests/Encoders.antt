-- ===== src/Tests/Encoders.antt =====
-- Examples of instructions: what each encoder emits at $4002.
use asm.Prelude.{
  ℕ, ◌+◌, ◌*◌, ◌/◌, ◌%◌, ◌<◌, ◌≡◌, ◌≢◌, ◌⊎◌, refl, false, some, List, [], ◌∷◌, ◌++◌, arith, length,
}
use asm.Prelude.Int.{ℤ, pos, negsuc, uint16}
use asm.Error.{Errors, no_errors, syntax}
use asm.Register.{reg_a, reg_b, reg_x, reg_s, reg_tfr_nibble, reg_stack_bit}
use asm.Node.{node, int, array, cons, nil, of_list, attr_none}
use asm.Section.{op_bytes}
use asm.Opcode.{ext_type, has_mode}
use asm.Instr.{complain}
use asm.Instr.Outcome.{Outcome}
use asm.Instr.Rel.{instr_rel}
use asm.Instr.Rel.Target.{ShortBranch, instr_rel-short}
use asm.Instr.Indexed.{instr_indexed}
use asm.Instr.Indexed.Relative.{pcr_args, reads_pcr, meant, instr_indexed-pcr}
use asm.Instr.Address.{instr_address}
use asm.Instr.Address.Reach.{prefix_bytes, instr_address-reach}
use asm.Instr.Stack.{instr_stack}
use asm.Instr.Stack.Mask.{
  reg_args, has_bit, byte_bits, some_owns, instr_stack-mask, instr_stack-refused,
}
use asm.Instr.Pair.{Local, instr_pair}
use asm.Instr.Pair.Nibbles.{two_registers, instr_pair-nibbles}
use asm.Register.{same_reg}
use asm.Tests.Fixtures.{midway, Fits-midway, lda, bra, pshs, tfr}

abbrev no_floats : ℕ → ℤ
no_floats bits = pos 0

abbrev unset : Local
unset = record { nibble = pos 0; size = pos 0 }

instr_rel-short_example :
    (b : ℕ) × (after : Errors) × Outcome
      (op_bytes 0x20 ++ b ∷ [])
      after
      midway
      (instr_rel bra (node (array (cons (node (int (pos 0x4000)) attr_none) nil)) attr_none) midway)
    × ShortBranch (0x4002 + length (op_bytes 0x20) + 1) (pos 0x4000) b no_errors after
instr_rel-short_example =
    instr_rel-short bra (pos 0x4000) attr_none attr_none midway (unfold ext_type in refl)
      (Fits-midway (length (op_bytes 0x20) + 1) (unfold op_bytes in omega arith))

instr_indexed-pcr_example :
    (bytes : List ℕ) × Outcome
      (op_bytes 0xa6 ++ bytes)
      no_errors
      midway
      (instr_indexed no_floats lda (pcr_args false (pos 0)) (negsuc 0) midway)
    × (reads_pcr (0x4002 + length (op_bytes 0xa6)) bytes
        ≡ some (false, meant (0x4002 + length (op_bytes 0xa6) + length bytes) (pos 0)))
instr_indexed-pcr_example =
    instr_indexed-pcr lda false (pos 0) midway no_floats
      (Fits-midway (length (op_bytes 0xa6) + 3) (unfold op_bytes in omega arith))

instr_address-reach_example :
    (bytes : List ℕ) × Outcome bytes no_errors midway (
      instr_address no_floats lda
        (node (array (cons (node (int (pos 0x4012)) attr_none) nil)) attr_none)
        (negsuc 0)
        midway)
    × (((0x40 ≡ uint16 (pos 0x4012) / 256)
          × (b : ℕ) × (bytes ≡ prefix_bytes 0x96 (negsuc 0) ++ b ∷ [])
          × (0x40 * 256 + b ≡ uint16 (pos 0x4012)))
        ⊎ ((0x40 ≢ uint16 (pos 0x4012) / 256)
            × (hi : ℕ) × (lo : ℕ) × (bytes ≡ prefix_bytes 0xb6 (negsuc 0) ++ hi ∷ lo ∷ [])
            × (hi * 256 + lo ≡ uint16 (pos 0x4012))))
instr_address-reach_example =
    instr_address-reach lda (pos 0x4012) (negsuc 0) attr_none midway (Fits-midway 5 (omega arith))
      no_floats (unfold has_mode in refl) (unfold has_mode in refl)

instr_stack-mask_example :
    (m : ℕ) × Outcome (op_bytes 0x34 ++ m ∷ []) no_errors midway (
      instr_stack pshs
        (node (array (of_list (reg_args (reg_a ∷ reg_x ∷ [])))) attr_none)
        reg_s
        midway)
    × (m < 256)
    × (byte_bits (has_bit m) ≡ byte_bits (λ i. some_owns i (reg_a ∷ reg_x ∷ [])))
instr_stack-mask_example =
    instr_stack-mask pshs reg_s (reg_a ∷ reg_x ∷ []) attr_none midway
      (unfold same_reg reg_stack_bit in refl)
      (Fits-midway (length (op_bytes 0x34) + 1) (unfold op_bytes in omega arith))

instr_stack-refused_example :
    instr_stack pshs (node (array (of_list (reg_args (reg_s ∷ [])))) attr_none) reg_s midway
    ≡ complain syntax "invalid register in stack operation" midway
instr_stack-refused_example =
    instr_stack-refused pshs reg_s (reg_s ∷ []) attr_none midway
      (unfold same_reg reg_stack_bit in refl)

instr_pair-nibbles_example :
    (b : ℕ) × Outcome
      (op_bytes 0x1f ++ b ∷ [])
      no_errors
      midway
      (instr_pair unset unset tfr (two_registers reg_a reg_b attr_none attr_none attr_none) midway)
    × (pos (b / 16) ≡ reg_tfr_nibble reg_a)
    × (pos (b % 16) ≡ reg_tfr_nibble reg_b)
instr_pair-nibbles_example =
    instr_pair-nibbles tfr unset unset attr_none attr_none attr_none midway
      (Fits-midway (length (op_bytes 0x1f) + 1) (unfold op_bytes in omega arith)) reg_a reg_b refl
      refl
