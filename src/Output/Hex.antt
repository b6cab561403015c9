-- ===== src/Output/Hex.antt =====
-- output_motorola_srec and output_intel_hex: records of up to 32 bytes with a checksum.
pub mod Records
pub mod Loader
pub mod Readback
use asm.Prelude.{
  ℕ, zero, suc, false, ◌+◌, ◌-◌, ◌*◌, ◌/◌, ◌%◌, Option, none, some, List, [], ◌∷◌, ◌++◌, ltb,
  length, take, drop, if◌then◌else◌,
}
use asm.Prelude.Int.{ℤ}
use asm.Text.{Bytes, bytes}
use asm.Error.{Errors}
use asm.Node.{Node}
use asm.Section.{Span, Section, size}
use asm.Coalesce.{section_coalesce_all}
use asm.Output.{get_exec_addr}

-- one line of data of either format, before it is printed
pub record HexRecord : Type 0 where
  pub address : ℕ
  pub data_bytes : List ℕ
  pub checksum : ℕ

abbrev pub total : List ℕ → ℕ
total [] = 0
total (b ∷ bs) = b + total bs

-- (size > 32) ? 32 : size
abbrev pub chunk : ℕ → ℕ
chunk size = if ltb 32 size then 32 else size

-- sum = ~sum & 0xff, for an unsigned sum
abbrev pub srec_checksum : ℕ → List ℕ → ℕ
srec_checksum put block = 255 - (length block + 3 + put / 256 + put % 256 + total block) % 256

-- sum = (~sum + 1) & 0xff; the sum is of a whole put and its high part
abbrev pub intel_checksum : ℕ → List ℕ → ℕ
intel_checksum put block = (256 - (length block + put + put / 256 + total block) % 256) % 256

-- The loop over a span, `put` and the bytes from `base` on; a round takes at least one byte.
pub hex_records : (ℕ → List ℕ → ℕ) → ℕ → ℕ → List ℕ → List HexRecord
hex_records checksum zero put left = []
hex_records checksum (suc fuel) put [] = []
hex_records checksum (suc fuel) put (b ∷ left) =
    let nbytes = chunk (length (b ∷ left)) in
    let block = take nbytes (b ∷ left) in
    record { address = put; data_bytes = block; checksum = checksum put block }
    ∷ hex_records checksum fuel ((put + nbytes) % 4294967296) (drop nbytes (b ∷ left))

abbrev pub span_records : (ℕ → List ℕ → ℕ) → Span → List HexRecord
span_records checksum span = hex_records checksum (size span) span.put span.data_bytes

abbrev pub digit : ℕ → ℕ
digit d = if ltb d 10 then 0x30 + d else 0x37 + d

-- %X with at least the given number of digits
pub hex_digits : ℕ → ℕ → ℕ → Bytes → Bytes
hex_digits zero width n text = text
hex_digits (suc fuel) zero zero text = text
hex_digits (suc fuel) zero (suc n) text =
    hex_digits fuel zero (suc n / 16) (digit (suc n % 16) ∷ text)
hex_digits (suc fuel) (suc width) n text = hex_digits fuel width (n / 16) (digit (n % 16) ∷ text)

-- A number of 32 bits has at most eight digits, so eight rounds end the printing.
unfoldable pub hex : ℕ → ℕ → Bytes
unfolding hex_digits
hex width n = hex_digits 8 width n []

unfoldable pub hex_bytes : List ℕ → Bytes
unfolding hex
hex_bytes [] = []
hex_bytes (b ∷ bs) = hex 2 b ++ hex_bytes bs

abbrev pub newline : Bytes
newline = 0x0a ∷ []

abbrev pub srec_line : HexRecord → Bytes
unfolding hex
srec_line r =
    bytes "S1"
    ++ hex 2 (length r.data_bytes + 3)
    ++ hex 4 r.address
    ++ hex_bytes r.data_bytes
    ++ hex 2 r.checksum
    ++ newline

abbrev pub intel_line : HexRecord → Bytes
unfolding hex
intel_line r =
    bytes ":"
    ++ hex 2 (length r.data_bytes)
    ++ hex 4 r.address
    ++ bytes "00"
    ++ hex_bytes r.data_bytes
    ++ hex 2 r.checksum
    ++ newline

abbrev pub lines : (HexRecord → Bytes) → List HexRecord → Bytes
lines print [] = []
lines print (r ∷ rs) = print r ++ lines print rs

abbrev pub span_lines : (ℕ → List ℕ → ℕ) → (HexRecord → Bytes) → List Span → Bytes
unfolding hex_records
span_lines checksum print [] = []
span_lines checksum print (s ∷ ss) =
    lines print (span_records checksum s) ++ span_lines checksum print ss

abbrev pub srec_end : Option ℕ → Bytes
unfolding hex
srec_end none = bytes "S9030000FC" ++ newline
srec_end (some v) = bytes "S903" ++ hex 4 v ++ hex 2 (255 - (v + v / 256 + 3) % 256) ++ newline

abbrev pub intel_end : Option ℕ → Bytes
unfolding hex
intel_end none = bytes ":00000001FF" ++ newline
intel_end (some v) =
    bytes ":00" ++ hex 4 v ++ bytes "01" ++ hex 2 ((256 - (v + v / 256 + 1) % 256) % 256) ++ newline

unfoldable pub output_motorola_srec : ℤ → Node → List Section → Errors → Bytes
unfolding section_coalesce_all
output_motorola_srec junk exec sections e =
    span_lines srec_checksum srec_line (section_coalesce_all false sections e).0
    ++ srec_end (get_exec_addr junk exec)

unfoldable pub output_intel_hex : ℤ → Node → List Section → Errors → Bytes
unfolding section_coalesce_all
output_intel_hex junk exec sections e =
    span_lines intel_checksum intel_line (section_coalesce_all false sections e).0
    ++ intel_end (get_exec_addr junk exec)
