-- ===== src/Instr/Stack/Mask.antt =====
-- The postbyte of a stack operation has the bits of the registers that are named, and no other.
use asm.Prelude.{
  ℕ, ◌+◌, ◌/◌, ◌%◌, ◌^◌, ◌<◌, ◌≡◌, refl, ap, ◌∙◌, bit_or, Bool, true, false, not, ◌&&◌, ◌||◌, List,
  [], ◌∷◌, ◌++◌, arith, length, ltb, ltb→lt, and_left, and_right, ◌==◌,
}
use asm.Prelude.Table.{each_below, each_below-at}
use asm.Error.{syntax}
use asm.Register.{RegId, reg_cc, reg_stack_bit, same_reg}
use asm.Node.{Node, node, reg, array, Attr, attr_none, of_list, to_list-of_list}
use asm.Opcode.{Opcode}
use asm.Section.{Asm, op_bytes}
use asm.Section.Emitted.{Fits}
use asm.Instr.{complain}
use asm.Instr.Outcome.{Outcome, Outcome-op, Outcome-uint8, Fits-le}
use asm.Instr.Stack.{postbyte, invalid_register, scan_registers, instr_stack}

-- Bit `i` of a byte.
abbrev pub has_bit : ℕ → ℕ → Bool
has_bit p i = p / 2 ^ i % 2 == 1

-- What a function says of the eight bits of a byte.
abbrev pub byte_bits : (ℕ → Bool) → List Bool
byte_bits b = b 0 ∷ b 1 ∷ b 2 ∷ b 3 ∷ b 4 ∷ b 5 ∷ b 6 ∷ b 7 ∷ []

byte_bits-eq : (b c : ℕ → Bool) → ((i : ℕ) → i < 8 → b i ≡ c i) → byte_bits b ≡ byte_bits c
byte_bits-eq b c h =
    rw
      (
        h 0 (omega arith),
        h 1 (omega arith),
        h 2 (omega arith),
        h 3 (omega arith),
        h 4 (omega arith),
        h 5 (omega arith),
        h 6 (omega arith),
        h 7 (omega arith),
      )
      refl

-- The registers that a stack operation may name, as arguments.
abbrev pub reg_args : List RegId → List Node
reg_args [] = []
reg_args (r ∷ rs) = node (reg r) attr_none ∷ reg_args rs

abbrev pub allowed : RegId → List RegId → Bool
allowed stack [] = true
allowed stack (r ∷ rs) = not (same_reg r stack) && not (reg_stack_bit r == 0) && allowed stack rs

-- Does one of the registers own the bit?
abbrev pub some_owns : ℕ → List RegId → Bool
some_owns i [] = false
some_owns i (r ∷ rs) = has_bit (reg_stack_bit r) i || some_owns i rs

abbrev same_bool : Bool → Bool → Bool
same_bool true b = b
same_bool false b = not b

-- The bits of a union of two bytes, for one second byte and every first.
or_table : ℕ → Bool
or_table b = each_below 256 λ p.
    ltb (bit_or p b) 256
    && each_below 8 λ i. same_bool (has_bit (bit_or p b) i) (has_bit p i || has_bit b i)

or_tables : (r : RegId) → or_table (reg_stack_bit r) ≡ true
unfolding or_table reg_stack_bit each_below
or_tables reg_cc = refl
or_tables _ = refl

same_bool-eq : (b c : Bool) → same_bool b c ≡ true → b ≡ c
same_bool-eq b c h = ground arith

-- Naming a register adds its bits.
has_bit-or :
    (r : RegId) (p i : ℕ)
    → p < 256
    → i < 8
    → (bit_or p (reg_stack_bit r) < 256)
      × (has_bit (bit_or p (reg_stack_bit r)) i ≡ has_bit p i || has_bit (reg_stack_bit r) i)
unfolding or_table
has_bit-or r p i hp hi =
    let row = each_below-at 256 _ p (or_tables r) hp in
    (ltb→lt _ _ (and_left _ _ row), same_bool-eq _ _ (each_below-at 8 _ i (and_right _ _ row) hi))

allowed-head :
    (stack r : RegId) (rs : List RegId)
    → allowed stack (r ∷ rs) ≡ true
    → (same_reg r stack ≡ false) × ((reg_stack_bit r == 0) ≡ false) × (allowed stack rs ≡ true)
allowed-head stack r rs h = ground arith

or_assoc : (a b c : Bool) → (a || b) || c ≡ a || (b || c)
or_assoc a b c = ground arith

all_clear : (i : ℕ) → i < 8 → has_bit 0 i ≡ false
unfolding each_below
all_clear i hi = same_bool-eq _ _ (each_below-at 8 (λ i. same_bool (has_bit 0 i) false) i refl hi)

-- The loop over registers that are allowed ends with a postbyte: the bits that were there before,
-- and those of the registers.
scan_registers-allowed :
    (stack : RegId) (rs : List RegId) (p : ℕ)
    → p < 256
    → allowed stack rs ≡ true
    → (m : ℕ) × (scan_registers stack p (reg_args rs) ≡ postbyte m)
      × (m < 256)
      × ((i : ℕ) → i < 8 → has_bit m i ≡ has_bit p i || some_owns i rs)
unfolding scan_registers
scan_registers-allowed stack [] p hp h = (p, refl, hp, λ i hi. ground arith)
scan_registers-allowed stack (r ∷ rs) p hp h =
    let (other, has, rest) = allowed-head stack r rs h in
    let (m, runs, small, bits) =
      scan_registers-allowed stack rs (bit_or p (reg_stack_bit r))
        (has_bit-or r p 0 hp (omega arith)).0 rest in
    (
      m,
      rw (other, has) runs,
      small,
      λ i hi.
          bits i hi
          ∙ ap (λ b. b || some_owns i rs) (has_bit-or r p i hp hi).1
          ∙ or_assoc (has_bit p i) (has_bit (reg_stack_bit r) i) (some_owns i rs),
    )

scan_registers-refused :
    (stack : RegId) (rs : List RegId) (p : ℕ)
    → allowed stack rs ≡ false
    → scan_registers stack p (reg_args rs) ≡ invalid_register
unfolding scan_registers
scan_registers-refused stack [] p h = cc
scan_registers-refused stack (r ∷ rs) p h =
    ground (arith, scan_registers-refused stack rs (bit_or p (reg_stack_bit r)))

module _ (op : Opcode) (stack : RegId) (rs : List RegId) (list_attr : Attr) (a : Asm) where
  -- A stack operation on registers that may be stacked, none of them the stack pointer in use,
  -- assembled within memory, emits the opcode and a postbyte, and nothing is reported. A bit of the
  -- postbyte is set exactly when it belongs to one of the registers named.
  pub instr_stack-mask :
      allowed stack rs ≡ true
      → Fits (length (op_bytes op.immediate) + 1) a
      → (m : ℕ) × Outcome
          (op_bytes op.immediate ++ m ∷ [])
          a.errors
          a
          (instr_stack op (node (array (of_list (reg_args rs))) list_attr) stack a)
        × (m < 256)
        × (byte_bits (has_bit m) ≡ byte_bits (λ i. some_owns i rs))
  unfolding instr_stack
  instr_stack-mask h f =
      let (m, runs, small, bits) = scan_registers-allowed stack rs 0 (omega arith) h in
      (
        m,
        rw (to_list-of_list (reg_args rs), runs)
            (Outcome-uint8 m f (Outcome-op op.immediate (Fits-le (omega arith) f))),
        small,
        byte_bits-eq (has_bit m) (λ i. some_owns i rs)
            (λ i hi. bits i hi ∙ ap (λ b. b || some_owns i rs) (all_clear i hi)),
      )

  -- Where a register may not be stacked, or is the stack pointer in use, a stack operation emits
  -- nothing and changes nothing but that it reports a syntax error.
  pub instr_stack-refused :
      allowed stack rs ≡ false
      → instr_stack op (node (array (of_list (reg_args rs))) list_attr) stack a
        ≡ complain syntax "invalid register in stack operation" a
  unfolding instr_stack
  instr_stack-refused h = rw (to_list-of_list (reg_args rs), scan_registers-refused stack rs 0 h)
