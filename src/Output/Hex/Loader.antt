-- ===== src/Output/Hex/Loader.antt =====
-- A loader of records in the format of Motorola, from their text.
pub mod Lines
use asm.Prelude.{
  ℕ, zero, suc, ◌+◌, ◌-◌, ◌*◌, ◌/◌, ◌%◌, ◌<◌, ◌≡◌, ◌∙◌, refl, sym, ap, Bool, true, false, ◌&&◌,
  ◌||◌, Option, none, some, List, [], ◌∷◌, ◌++◌, append_assoc, append-nil, all, all-append, lt→ltb,
  arith, ltb, ltb→lt, leb, ◌==◌, length, if◌then◌else◌, and_left, and_right,
}
use asm.Text.{Bytes, bytes}
use asm.Section.Emit.{Write, writes}
use asm.Output.{exec_or}
use asm.Output.Hex.{HexRecord, total, hex, hex_bytes, hex_digits, srec_line, srec_end, digit}

-- The value of a digit, 0 to 9 or A to F.
abbrev pub is_hex : ℕ → Bool
is_hex c = (leb 0x30 c && leb c 0x39) || (leb 0x41 c && leb c 0x46)

abbrev pub unhex : ℕ → ℕ
unhex c = if leb c 0x39 then c - 0x30 else c - 0x37

abbrev pub with_byte : ℕ → ℕ → Option (List ℕ × Bytes) → Option (List ℕ × Bytes)
with_byte a b none = none
with_byte a b (some (bs, rest)) =
    if is_hex a && is_hex b then some ((unhex a * 16 + unhex b) ∷ bs, rest) else none

-- The bytes that a line gives as pairs of digits, up to its end, and the text behind it.
pub read_pairs : Bytes → Option (List ℕ × Bytes)
read_pairs [] = none
read_pairs (a ∷ []) = if a == 0x0a then some ([], []) else none
read_pairs (a ∷ b ∷ rest) =
    let more = with_byte a b (read_pairs rest) in if a == 0x0a then some ([], b ∷ rest) else more

-- What is loaded, and the address to run.
pub record Image : Type 0 where
  pub image : List Write
  pub entry : ℕ

-- The bytes before the last one.
abbrev pub front : List ℕ → List ℕ
front [] = []
front (b ∷ []) = []
front (b ∷ c ∷ bs) = b ∷ front (c ∷ bs)

-- The first byte counts those behind it, and all add up to 255 modulo 256.
abbrev pub checks : ℕ → List ℕ → Bool
checks count more = (length more == count) && ((count + total more) % 256 == 255)

abbrev pub with_writes : List Write → Option Image → Option Image
with_writes ws none = none
with_writes ws (some i) = some (record i { image = ws ++ i.image })

abbrev pub data_record : (Bytes → Option Image) → Option (List ℕ × Bytes) → Option Image
data_record load (some (count ∷ hi ∷ lo ∷ more, rest)) =
    if checks count (hi ∷ lo ∷ more)
    then with_writes (writes (hi * 256 + lo) (front more)) (load rest)
    else none
data_record load _ = none

abbrev pub end_record : Option (List ℕ × Bytes) → Option Image
end_record (some (count ∷ hi ∷ lo ∷ more, rest)) =
    if checks count (hi ∷ lo ∷ more)
    then some (record { image = []; entry = hi * 256 + lo })
    else none
end_record _ = none

-- A line S1 holds an address and data, S9 ends the file with the address to run. At most the given
-- number of lines is read.
pub load_srec : ℕ → Bytes → Option Image
load_srec (suc n) (s ∷ tag ∷ rest) =
    let line = read_pairs rest in
    let data_line = data_record (load_srec n) line in
    if s == b'S' && tag == b'1'
    then data_line
    else (if s == b'S' && tag == b'9' then end_record line else none)
load_srec _ _ = none

abbrev pub is_byte : ℕ → Bool
is_byte b = ltb b 256
