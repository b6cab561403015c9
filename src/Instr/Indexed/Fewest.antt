-- ===== src/Instr/Indexed/Fewest.antt =====
-- How many bytes the processor needs for a constant offset of 16 bits with a sign.
use asm.Prelude.{
  ℕ, ◌%◌, ◌≤◌, ◌≡◌, ◌≢◌, ◌⊎◌, inl, inr, Bool, true, false, ◌&&◌, Bool-cases, leb, leb→le, some,
  List, [], ◌∷◌, arith, length, and_left, and_right,
}
use asm.Prelude.Int.{ℤ, pos, negsuc, leb_ℤ, uint16}
use asm.Instr.Indexed.Decode.{Pointer, pointer_num, decode_operand}
use asm.Instr.Indexed.Forms.{offset_size}

abbrev pub all_bytes : List ℕ → List ℕ
all_bytes [] = []
all_bytes (b ∷ bs) = b % 256 ∷ all_bytes bs

fewest_one :
    (indirect : Bool) (n : ℕ) (v : ℤ) (p : ℕ)
    → leb_ℤ (negsuc 32767) v ≡ true
    → leb_ℤ v (pos 32767) ≡ true
    → decode_operand (p % 256 ∷ [])
      ≡ some (record { indirect = indirect; register = n; offset = uint16 v })
    → offset_size indirect v ≤ 1
fewest_one true n v p lo hi h = ground arith
fewest_one false n v p lo hi h = ground arith

fewest_two :
    (indirect : Bool) (n : ℕ) (v : ℤ) (p b : ℕ)
    → leb_ℤ (negsuc 32767) v ≡ true
    → leb_ℤ v (pos 32767) ≡ true
    → decode_operand (p % 256 ∷ b % 256 ∷ [])
      ≡ some (record { indirect = indirect; register = n; offset = uint16 v })
    → offset_size indirect v ≤ 2
fewest_two true n v p b lo hi h = ground arith
fewest_two false n v p b lo hi h = ground arith

offset_size-le : (indirect : Bool) (v : ℤ) → offset_size indirect v ≤ 3
offset_size-le indirect v = ground arith

offset_size-fewest :
    (indirect : Bool) (p : Pointer) (v : ℤ) (other : List ℕ)
    → leb_ℤ (negsuc 32767) v ≡ true
    → leb_ℤ v (pos 32767) ≡ true
    → decode_operand (all_bytes other)
      ≡ some (record { indirect = indirect; register = pointer_num p; offset = uint16 v })
    → offset_size indirect v ≤ length other
offset_size-fewest indirect p v [] lo hi h = cc
offset_size-fewest indirect p v (a ∷ []) lo hi h = fewest_one indirect (pointer_num p) v a lo hi h
offset_size-fewest indirect p v (a ∷ b ∷ []) lo hi h =
    fewest_two indirect (pointer_num p) v a b lo hi h
offset_size-fewest indirect p v (a ∷ b ∷ c ∷ rest) lo hi h =
    omega (arith, offset_size-le indirect v)

-- A number of 16 bits with a sign.
abbrev pub is_int16 : ℤ → Bool
is_int16 v = leb_ℤ (negsuc 32767) v && leb_ℤ v (pos 32767)

-- Bytes that the processor reads as the operand are at least `n`, or it does not read them so.
abbrev pub NoFewer : ℕ → Bool → Pointer → ℤ → List ℕ → Type 0
NoFewer n indirect p v bytes =
    (n ≤ length bytes)
    ⊎ (decode_operand bytes
        ≢ some (record { indirect = indirect; register = pointer_num p; offset = uint16 v }))

length-all_bytes : (l : List ℕ) → length (all_bytes l) ≡ length l
length-all_bytes [] = omega arith
length-all_bytes (b ∷ l) = omega (arith, length-all_bytes l)

fewer : (n l m : ℕ) → l ≡ m → leb n l ≡ false → n ≤ m → ⊥
fewer n l m e gt h = ground (arith, e, gt, h)

pub offset_size-NoFewer :
    (indirect : Bool) (p : Pointer) (v : ℤ) (other : List ℕ)
    → (is_int16 v ≡ false) ⊎ NoFewer (offset_size indirect v) indirect p v (all_bytes other)
offset_size-NoFewer indirect p v other = elim (Bool-cases (is_int16 v)) [
  | inr outside ↦ inl outside
  | inl within ↦
      inr (by_length within (Bool-cases (leb (offset_size indirect v) (length (all_bytes other)))))
]
  where
    by_length :
        is_int16 v ≡ true
        → (leb (offset_size indirect v) (length (all_bytes other)) ≡ true)
          ⊎ (leb (offset_size indirect v) (length (all_bytes other)) ≡ false)
        → NoFewer (offset_size indirect v) indirect p v (all_bytes other)
    by_length within (inl le) = inl (leb→le _ _ le)
    by_length within (inr gt) = inr (λ h.
        fewer (offset_size indirect v) (length (all_bytes other)) (length other)
          (length-all_bytes other) gt
          (offset_size-fewest indirect p v other
            (and_left (leb_ℤ (negsuc 32767) v) (leb_ℤ v (pos 32767)) within)
            (and_right (leb_ℤ (negsuc 32767) v) (leb_ℤ v (pos 32767)) within) h))
