-- ===== src/Instr/Rel/Target.antt =====
-- Where a branch goes: the displacements that `instr_rel` emits, as the processor adds them.
use asm.Prelude.{
  ℕ, ◌+◌, ◌*◌, ◌≤◌, ◌<◌, ◌≡◌, ◌≢◌, refl, ap, ◌∙◌, ◌⊎◌, inl, inr, Bool, true, false, not, List, [],
  ◌∷◌, ◌++◌, arith, length, Bool-cases, ◌==◌, ==_ne,
}
use asm.Prelude.Table.{each_below, each_below-of_each}
use asm.Prelude.Int.{
  ℤ, pos, negsuc, ◌+ℤ◌, ◌-ℤ◌, ◌≤ℤ◌, int32, int64, uint8, uint16, signed, uint16-int64,
}
use asm.Error.{Errors, out_of_range, inefficient, error}
use asm.Node.{Node, node, int, array, nil, cons, Attr, attr_16bit}
use asm.Opcode.{Opcode, ext_type, opcode_rel8}
use asm.Section.{Asm, op_bytes, section_emit_op}
use asm.Section.Emitted.{Fits, Fits-Emitted}
use asm.Instr.Outcome.{Outcome, Outcome-op, Outcome-complain, Outcome-uint8, Fits-le}
use asm.Instr.Rel.{to_rel16, beyond_8bit, rel_short, instr_rel}
use asm.Instr.Rel.Range.{to_rel16_lem}

-- The address at which the processor goes on after a taken branch: the address `next` of the
-- instruction behind, plus the displacement as a signed number of 8 or of 16 bits.
abbrev pub goes_to_8 : ℕ → ℕ → ℕ
goes_to_8 next b = uint16 (pos next +ℤ signed 128 b)

abbrev pub goes_to_16 : ℕ → ℕ → ℕ → ℕ
goes_to_16 next hi lo = uint16 (pos next +ℤ signed 32768 (hi * 256 + lo))

-- A distance in the range of a signed byte is met by its low byte; no other is met by any byte.
pub short_hit :
    (next : ℕ) (t rel : ℤ)
    → uint16 rel ≡ uint16 (t -ℤ pos next)
    → beyond_8bit rel ≡ false
    → goes_to_8 next (uint8 rel) ≡ uint16 t
unfolding ◌+ℤ◌ ◌-ℤ◌
short_hit next t rel e h = ground arith

short_miss :
    (next : ℕ) (t rel : ℤ) (b : ℕ)
    → b < 256
    → negsuc 32767 ≤ℤ rel
    → rel ≤ℤ pos 32767
    → uint16 rel ≡ uint16 (t -ℤ pos next)
    → beyond_8bit rel ≡ true
    → goes_to_8 next b ≢ uint16 t
unfolding ◌+ℤ◌ ◌-ℤ◌
short_miss next t rel b small low high e h hit = ground arith

-- The number that the encoders compute is the distance to the address behind the instruction.
pub int32_ahead :
    (p : ℤ) (at n : ℕ) → p ≡ pos at → at + n ≤ 65536 → int32 (p +ℤ pos n) ≡ pos (at + n)
unfolding int32 ◌+ℤ◌
int32_ahead p at n h below = ground arith

rel_distance :
    (p t : ℤ) (at : ℕ)
    → p ≡ pos at
    → at + 1 ≤ 65536
    → uint16 (to_rel16 (int64 (t -ℤ int32 (p +ℤ pos 1)))) ≡ uint16 (t -ℤ pos (at + 1))
rel_distance p t at h below =
    let (low, high, same) = to_rel16_lem (int64 (t -ℤ int32 (p +ℤ pos 1))) in
    same
    ∙ uint16-int64 (t -ℤ int32 (p +ℤ pos 1))
    ∙ ap (λ q. uint16 (t -ℤ q)) (int32_ahead p at 1 h below)

-- No byte of a short branch leads to the target.
abbrev pub out_of_reach : ℕ → ℤ → Bool
out_of_reach next t = each_below 256 (λ c. not (goes_to_8 next c == uint16 t))

no_byte :
    (next : ℕ) (t : ℤ)
    → ((c : ℕ) → c < 256 → goes_to_8 next c ≢ uint16 t)
    → out_of_reach next t ≡ true
no_byte next t h =
    each_below-of_each 256 (λ c. not (goes_to_8 next c == uint16 t))
      (λ c small. ap not (==_ne (goes_to_8 next c) (uint16 t) (h c small)))

-- What a short branch owes to its target: the byte leads to it, or no byte does and that is reported.
abbrev pub ShortBranch : ℕ → ℤ → ℕ → Errors → Errors → Type 0
ShortBranch next t b before after =
    ((after ≡ before) × (goes_to_8 next b ≡ uint16 t))
    ⊎ ((after ≡ error out_of_range "8-bit relative value out of range" before)
        × (out_of_reach next t ≡ true))

-- The distance, for the state `b` behind the opcode.
abbrev pub rel_of : ℤ → Asm → ℤ
rel_of t b = to_rel16 (int64 (t -ℤ int32 (b.cur.pc +ℤ pos 1)))

rel_short-Outcome :
    {bs : List ℕ} {a b : Asm} (t : ℤ) (e : Errors)
    → Outcome bs e a b
    → Fits (length bs + 1) a
    → (f : Fits 1 b)
    → (after : Errors) × Outcome (bs ++ uint8 (rel_of t b) ∷ []) after a (rel_short (rel_of t b) b)
      × ShortBranch (f.at + 1) t (uint8 (rel_of t b)) e after
rel_short-Outcome {bs} {a} {b} t e o fits f =
    let (low, high, _) = to_rel16_lem (int64 (t -ℤ int32 (b.cur.pc +ℤ pos 1))) in
    let distance = rel_distance b.cur.pc t f.at f.is_pc f.below in
    elim (Bool-cases (beyond_8bit (rel_of t b))) [
      | inl far ↦ rw far (
        error out_of_range "8-bit relative value out of range" e,
        Outcome-uint8 _ fits (Outcome-complain out_of_range _ o),
        inr (
          refl,
          no_byte (f.at + 1) t
              (λ c small. short_miss (f.at + 1) t (rel_of t b) c small low high distance far),
        ),
      )
      | inr near ↦
          rw near (
            e,
            Outcome-uint8 _ fits o,
            inl (refl, short_hit (f.at + 1) t (rel_of t b) distance near),
          )
    ]

abbrev pub LongWarning : ℕ → ℤ → Attr → Errors → Errors → Type 0
LongWarning next t attr before after =
    ((after ≡ before) × ((attr ≡ attr_16bit) ⊎ (out_of_reach next t ≡ true)))
    ⊎ ((after ≡ error inefficient "16-bit relative value could be represented in 8 bits" before)
        × (attr ≢ attr_16bit)
        × (c : ℕ) × (c < 256)
        × (goes_to_8 next c ≡ uint16 t))

module _ (op : Opcode) (t : ℤ) (attr list_attr : Attr) (a : Asm) where
  abbrev one_target : Node
  one_target = node (array (cons (node (int t) attr) nil)) list_attr

  -- A short branch to a known address, assembled within memory, emits the opcode and one byte. That
  -- byte leads the processor to the address modulo 65536 and nothing is reported, or an out-of-range
  -- error is reported and no byte at all leads there.
  pub instr_rel-short :
      ext_type op ≡ opcode_rel8
      → (f : Fits (length (op_bytes op.immediate) + 1) a)
      → (b : ℕ) × (after : Errors) × Outcome
          (op_bytes op.immediate ++ b ∷ [])
          after
          a
          (instr_rel op one_target a)
        × ShortBranch (f.at + length (op_bytes op.immediate) + 1) t b a.errors after
  unfolding instr_rel
  instr_rel-short ext f =
      let o = Outcome-op op.immediate (Fits-le (omega arith) f) in
      let g = Fits-Emitted 1 o.emitted f in
      let (after, out, branch) = rel_short-Outcome t a.errors o f g in
      rw ext (uint8 (rel_of t (section_emit_op op.immediate a)), after, out, branch)
