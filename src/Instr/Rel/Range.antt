-- ===== src/Instr/Rel/Range.antt =====
-- What `to_rel16` returns.
use asm.Prelude.{ℕ, zero, suc, ◌+◌, ◌*◌, ◌/◌, ◌≤◌, ◌<◌, ◌≡◌, ◌∙◌, arith}
use asm.Prelude.Int.{ℤ, pos, negsuc, pos_part, neg_part, ◌+ℤ◌, ◌-ℤ◌, ◌≤ℤ◌, uint16}
use asm.Instr.Rel.{raise_loop, lower_loop, to_rel16}

-- The loops add a multiple of 65536, and end by their tests, not by the fuel.
raise_loop_lem :
    (fuel : ℕ) (i : ℤ)
    → neg_part i < fuel * 65536 + 32769
    → (negsuc 32767 ≤ℤ raise_loop fuel i)
      × (uint16 (raise_loop fuel i) ≡ uint16 i)
      × (pos_part (raise_loop fuel i) ≤ pos_part i + 32767)
unfolding raise_loop ◌+ℤ◌
raise_loop_lem zero i h = ground arith
raise_loop_lem (suc fuel) i h = ground (arith, raise_loop_lem fuel (i +ℤ pos 65536))

lower_loop_lem :
    (fuel : ℕ) (i : ℤ)
    → negsuc 32767 ≤ℤ i
    → pos_part i < fuel * 65536 + 32768
    → (negsuc 32767 ≤ℤ lower_loop fuel i)
      × (lower_loop fuel i ≤ℤ pos 32767)
      × (uint16 (lower_loop fuel i) ≡ uint16 i)
unfolding lower_loop ◌-ℤ◌
lower_loop_lem zero i h k = ground arith
lower_loop_lem (suc fuel) i h k = ground (arith, lower_loop_lem fuel (i -ℤ pos 65536))

-- For every integer, `to_rel16` returns the signed 16-bit number that is congruent to it.
pub to_rel16_lem :
    (i : ℤ)
    → (negsuc 32767 ≤ℤ to_rel16 i) × (to_rel16 i ≤ℤ pos 32767) × (uint16 (to_rel16 i) ≡ uint16 i)
unfolding to_rel16
to_rel16_lem i =
    let (low, same, above) = raise_loop_lem (neg_part i / 65536 + 1) i (omega arith) in
    let (low', high, same') =
      lower_loop_lem (pos_part i / 65536 + 1) (raise_loop (neg_part i / 65536 + 1) i) low
        (omega arith) in
    (low', high, same' ∙ same)
