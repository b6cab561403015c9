-- ===== src/Pseudo/Vdg.antt =====
-- ascii_to_vdg: the codes that the video display generator shows for ASCII characters.
use asm.Prelude.{
  ℕ, ◌+◌, ◌-◌, ◌/◌, ◌%◌, ◌≤◌, ◌<◌, ◌≡◌, refl, Bool, true, false, not, ◌&&◌, ◌||◌, bit_xor, ltb,
  ◌==◌, arith, if◌then◌else◌,
}
use asm.Prelude.Table.{each_below, each_below-at}

abbrev pub shown : ℕ → ℕ → ℕ
shown av eor =
    if ltb av 0x20
    then bit_xor av eor
    else (if ltb av 0x40
        then bit_xor (av + 64) eor
        else (if ltb av 0x60
            then bit_xor av eor
            else (if av == 0x60
                then bit_xor 0x20 eor
                else (if ltb av 0x80 then bit_xor (av - 96) eor else av))))

unfoldable pub ascii_to_vdg : ℕ → Bool → ℕ
ascii_to_vdg av invert = shown av (if invert then 0x40 else 0)

-- What the display shows for a code: the low six bits choose one of 64 characters, and bit 6 is clear
-- where it is inverse.
abbrev pub glyph : ℕ → ℕ
glyph code = if ltb (code % 64) 32 then code % 64 + 64 else code % 64

abbrev pub is_inverse : ℕ → Bool
is_inverse code = code / 64 % 2 == 0

-- The two facts, for one character.
abbrev shown_right : Bool → ℕ → Bool
shown_right invert av =
    ltb av 32
    || (glyph (ascii_to_vdg av invert) == av
        && (if invert
            then is_inverse (ascii_to_vdg av invert)
            else not (is_inverse (ascii_to_vdg av invert))))

shown_table : (invert : Bool) → each_below 96 (shown_right invert) ≡ true
unfolding each_below ascii_to_vdg
shown_table true = refl
shown_table false = refl

-- The character of a code from 32 to 95 is shown as itself, inverse exactly where that was asked for.
pub ascii_to_vdg-glyph :
    (av : ℕ) (invert : Bool)
    → 32 ≤ av
    → av < 96
    → (glyph (ascii_to_vdg av invert) ≡ av) × (is_inverse (ascii_to_vdg av invert) ≡ invert)
ascii_to_vdg-glyph av true low high =
    ground (arith, each_below-at 96 (shown_right true) av (shown_table true) high)
ascii_to_vdg-glyph av false low high =
    ground (arith, each_below-at 96 (shown_right false) av (shown_table false) high)
