-- ===== src/Output/Hex/Records.antt =====
-- The data records of a span: what they load, and their checksums.
use asm.Prelude.{
  ℕ, zero, suc, ◌+◌, ◌/◌, ◌%◌, ◌≤◌, ◌≡◌, refl, sym, ap, ◌∙◌, Bool, true, ◌&&◌, List, [], ◌∷◌, ◌++◌,
  arith, leb, length, length-take, length-drop, take-append-drop, take, drop, ◌==◌,
}
use asm.Section.Emit.{Write, writes, writes-append, writes-put, span_image}
use asm.Section.{Span, size}
use asm.Output.Hex.{
  HexRecord, total, chunk, srec_checksum, intel_checksum, hex_records, span_records,
}

-- What a loader of either format places in memory.
abbrev pub loaded : List HexRecord → List Write
loaded [] = []
loaded (r ∷ rs) = writes r.address r.data_bytes ++ loaded rs

-- The bytes of a record add up to 255 modulo 256, its count being that of all bytes behind it.
abbrev pub srec_valid : HexRecord → Bool
srec_valid r =
    (length r.data_bytes + 3 + r.address / 256 + r.address % 256 + total r.data_bytes + r.checksum)
      % 256
    == 255

-- The bytes of a record add up to 0 modulo 256.
abbrev pub intel_valid : HexRecord → Bool
intel_valid r =
    (length r.data_bytes + r.address / 256 + r.address % 256 + total r.data_bytes + r.checksum)
      % 256
    == 0

-- Every record has from 1 to 32 bytes and passes the test.
abbrev pub all_valid : (HexRecord → Bool) → List HexRecord → Bool
all_valid test [] = true
all_valid test (r ∷ rs) =
    test r && ((leb 1 (length r.data_bytes) && leb (length r.data_bytes) 32) && all_valid test rs)

pub srec_checks :
    (put : ℕ) (block : List ℕ)
    → srec_valid (record { address = put; data_bytes = block; checksum = srec_checksum put block })
      ≡ true
srec_checks put block = ground arith

intel_checks :
    (put : ℕ) (block : List ℕ)
    → intel_valid
        (record { address = put; data_bytes = block; checksum = intel_checksum put block })
      ≡ true
intel_checks put block = ground arith

pub chunk_bounds : (n : ℕ) → (1 ≤ chunk (suc n)) × (chunk (suc n) ≤ 32) × (chunk (suc n) ≤ suc n)
chunk_bounds n = ground arith

length-chunk : (left : List ℕ) → length (take (chunk (length left)) left) ≡ chunk (length left)
length-chunk left = ground (arith, length-take (chunk (length left)) left)

-- A span is what its first chunk and the bytes behind it write.
writes-chunk :
    (put : ℕ) (left : List ℕ)
    → writes put (take (chunk (length left)) left)
        ++ writes ((put + chunk (length left)) % 4294967296) (drop (chunk (length left)) left)
      ≡ writes put left
writes-chunk put left =
    let n = chunk (length left) in
    sym (
      ap (writes put) (sym (take-append-drop n left))
      ∙ writes-append put (take n left) (drop n left)
      ∙ ap (λ t. writes put (take n left) ++ t)
          (writes-put (put + length (take n left)) ((put + n) % 4294967296) (drop n left)
            (omega (arith, length-chunk left))))

-- A round leaves fewer bytes than there were.
pub drop-chunk :
    (fuel : ℕ) (left : List ℕ)
    → length left ≤ suc fuel
    → length (drop (chunk (length left)) left) ≤ fuel
drop-chunk fuel [] h = omega arith
drop-chunk fuel (b ∷ left) h =
    omega
      (arith, h, length-drop (chunk (length (b ∷ left))) (b ∷ left), (chunk_bounds (length left)).0)

valid_chunk :
    (left : List ℕ)
    → 1 ≤ length left
    → leb 1 (length (take (chunk (length left)) left))
        && leb (length (take (chunk (length left)) left)) 32
      ≡ true
valid_chunk left h = ground (arith, length-chunk left)

module _ (checksum : ℕ → List ℕ → ℕ) (valid : HexRecord → Bool)
    (checks : (put : ℕ) (block : List ℕ)
      → valid (record { address = put; data_bytes = block; checksum = checksum put block })
        ≡ true) where
  hex_records-valid :
      (fuel put : ℕ) (left : List ℕ)
      → length left ≤ fuel
      → all_valid valid (hex_records checksum fuel put left) ≡ true
  unfolding hex_records
  hex_records-valid zero put left h = refl
  hex_records-valid (suc fuel) put [] h = refl
  hex_records-valid (suc fuel) put (b ∷ left) h =
      let n = chunk (length (b ∷ left)) in
      rw (checks put (take n (b ∷ left)), valid_chunk (b ∷ left) (omega arith))
        (hex_records-valid fuel ((put + n) % 4294967296) (drop n (b ∷ left))
          (drop-chunk fuel (b ∷ left) h))

  pub hex_records-loaded :
      (fuel put : ℕ) (left : List ℕ)
      → length left ≤ fuel
      → loaded (hex_records checksum fuel put left) ≡ writes put left
  unfolding hex_records
  hex_records-loaded zero put [] h = unfold writes in refl
  hex_records-loaded zero put (b ∷ left) h = absurd (omega (arith, h))
  hex_records-loaded (suc fuel) put [] h = unfold writes in refl
  hex_records-loaded (suc fuel) put (b ∷ left) h =
      let n = chunk (length (b ∷ left)) in
      ap (λ t. writes put (take n (b ∷ left)) ++ t)
        (hex_records-loaded fuel ((put + n) % 4294967296) (drop n (b ∷ left))
          (drop-chunk fuel (b ∷ left) h))
      ∙ writes-chunk put (b ∷ left)

-- The data records of a span in the format of Motorola place exactly its bytes, each at its address.
-- Each has from 1 to 32 bytes, and its checksum completes the sum of its count, its address and its
-- bytes to 255 modulo 256.
pub span_records-srec :
    (s : Span)
    → (loaded (span_records srec_checksum s) ≡ span_image s)
      × (all_valid srec_valid (span_records srec_checksum s) ≡ true)
unfolding span_image
span_records-srec s = (
  hex_records-loaded srec_checksum srec_valid srec_checks (size s) s.put s.data_bytes (omega arith),
  hex_records-valid srec_checksum srec_valid srec_checks (size s) s.put s.data_bytes (omega arith),
)

-- The data records of a span in the format of Intel place exactly its bytes, each at its address.
-- Each has from 1 to 32 bytes, and its checksum completes the sum of its count, its address and its
-- bytes to 0 modulo 256.
pub span_records-intel :
    (s : Span)
    → (loaded (span_records intel_checksum s) ≡ span_image s)
      × (all_valid intel_valid (span_records intel_checksum s) ≡ true)
unfolding span_image
span_records-intel s = (
  hex_records-loaded intel_checksum intel_valid intel_checks (size s) s.put s.data_bytes
      (omega arith),
  hex_records-valid intel_checksum intel_valid intel_checks (size s) s.put s.data_bytes
      (omega arith),
)
