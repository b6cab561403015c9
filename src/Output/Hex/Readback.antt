-- ===== src/Output/Hex/Readback.antt =====
-- output_motorola_srec: what a loader reads from the records of a list of spans.
use asm.Prelude.{
  ℕ, zero, suc, ◌+◌, ◌%◌, ◌≤◌, ◌<◌, ◌≡◌, ◌∙◌, refl, sym, ap, Bool, true, false, ◌&&◌, Option, none,
  some, List, [], ◌∷◌, ◌++◌, append_assoc, all, arith, leb, leb→le, lt→ltb, length, length-take,
  length-drop, take, drop, and_left, and_right,
}
use asm.Prelude.Int.{ℤ}
use asm.Section.{Span, Section, size}
use asm.Section.Emit.{Write, writes, span_image, image}
use asm.Error.{Errors}
use asm.Node.{Node}
use asm.Coalesce.{section_coalesce_all}
use asm.Output.{exec_or, get_exec_addr}
use asm.Output.Hex.{
  HexRecord, total, chunk, srec_checksum, hex_records, span_records, srec_line, srec_end, lines,
  span_lines, output_motorola_srec,
}
use asm.Output.Hex.Records.{
  loaded, hex_records-loaded, srec_valid, srec_checks, drop-chunk, chunk_bounds,
}
use asm.Output.Hex.Loader.{Image, load_srec, is_byte, with_writes}
use asm.Output.Hex.Loader.Lines.{is_sound, load_srec-srec_line, load_srec-srec_end}

all-take : (n : ℕ) (l : List ℕ) → all is_byte l ≡ true → all is_byte (take n l) ≡ true
all-take zero l h = refl
all-take (suc n) [] h = refl
all-take (suc n) (b ∷ l) h =
    rw (and_left (is_byte b) (all is_byte l) h)
      (all-take n l (and_right (is_byte b) (all is_byte l) h))

all-drop : (n : ℕ) (l : List ℕ) → all is_byte l ≡ true → all is_byte (drop n l) ≡ true
all-drop zero l h = h
all-drop (suc n) [] h = refl
all-drop (suc n) (b ∷ l) h = all-drop n l (and_right (is_byte b) (all is_byte l) h)

total-append : (xs : List ℕ) (c : ℕ) → total (xs ++ c ∷ []) ≡ total xs + c
total-append [] c = omega arith
total-append (x ∷ xs) c = omega (arith, total-append xs c)

length-push : (xs : List ℕ) (c : ℕ) → length (xs ++ c ∷ []) ≡ length xs + 1
length-push [] c = omega arith
length-push (x ∷ xs) c = omega (arith, length-push xs c)

record_sound :
    (put : ℕ) (block : List ℕ)
    → put < 65536
    → length block ≤ 32
    → all is_byte block ≡ true
    → is_sound (record { address = put; data_bytes = block; checksum = srec_checksum put block })
      ≡ true
record_sound put block small short fit =
    let sum = srec_checksum put block in
    rw
      (
        lt→ltb put 65536 small,
        lt→ltb (length block) 253 (omega (arith, short)),
        fit,
        lt→ltb sum 256 (omega arith),
      )
      (ground (arith, length-push block sum, total-append block sum))

with_writes-nil : (i : Option Image) → with_writes [] i ≡ i
with_writes-nil none = refl
with_writes-nil (some i) = refl

with_writes-append :
    (xs ys : List Write) (i : Option Image)
    → with_writes xs (with_writes ys i) ≡ with_writes (xs ++ ys) i
with_writes-append xs ys none = refl
with_writes-append xs ys (some i) =
    ap (λ ws. some (record i { image = ws })) (sym (append_assoc xs ys i.image))

-- as many lines more
abbrev lines_before : List HexRecord → ℕ → ℕ
lines_before [] n = n
lines_before (r ∷ rs) n = suc (lines_before rs n)

lines_sound :
    (n : ℕ) (rs : List HexRecord) (rest : List ℕ)
    → all is_sound rs ≡ true
    → load_srec (lines_before rs n) (lines srec_line rs ++ rest)
      ≡ with_writes (loaded rs) (load_srec n rest)
lines_sound n [] rest h = sym (with_writes-nil (load_srec n rest))
lines_sound n (r ∷ rs) rest h =
    ap (load_srec (suc (lines_before rs n))) (append_assoc (srec_line r) (lines srec_line rs) rest)
    ∙ load_srec-srec_line (lines_before rs n) r (lines srec_line rs ++ rest)
        (and_left (is_sound r) (all is_sound rs) h)
    ∙ ap (with_writes (writes r.address r.data_bytes))
        (lines_sound n rs rest (and_right (is_sound r) (all is_sound rs) h))
    ∙ with_writes-append (writes r.address r.data_bytes) (loaded rs) (load_srec n rest)

hex_records_sound :
    (fuel put : ℕ) (left : List ℕ)
    → length left ≤ fuel
    → put + length left ≤ 65536
    → all is_byte left ≡ true
    → all is_sound (hex_records srec_checksum fuel put left) ≡ true
unfolding hex_records
hex_records_sound zero put left h below fit = refl
hex_records_sound (suc fuel) put [] h below fit = refl
hex_records_sound (suc fuel) put (b ∷ left) h below fit =
    let n = chunk (length (b ∷ left)) in
    let (some_bytes, most, within) = chunk_bounds (length left) in
    let block = take n (b ∷ left) in
    let behind = drop n (b ∷ left) in
    rw
      (record_sound put block (omega (arith, below)) (omega (arith, most, length-take n (b ∷ left)))
        (all-take n (b ∷ left) fit))
      (hex_records_sound fuel ((put + n) % 4294967296) behind (drop-chunk fuel (b ∷ left) h)
        (omega (arith, below, within, length-drop n (b ∷ left))) (all-drop n (b ∷ left) fit))

-- Every span ends within 16 bits, and holds bytes.
abbrev pub all_fit : List Span → Bool
all_fit [] = true
all_fit (s ∷ l) = (leb (s.put + size s) 65536 && all is_byte s.data_bytes) && all_fit l

-- the number of lines of the file
abbrev pub line_count : List Span → ℕ
line_count [] = 1
line_count (s ∷ l) = lines_before (span_records srec_checksum s) (line_count l)

load_srec-span_lines :
    (l : List Span) (exec : Option ℕ)
    → all_fit l ≡ true
    → exec_or 0 exec < 65536
    → load_srec (line_count l) (span_lines srec_checksum srec_line l ++ srec_end exec)
      ≡ some (record { image = image l; entry = exec_or 0 exec })
unfolding image span_image span_lines srec_end
load_srec-span_lines [] exec h small = load_srec-srec_end 0 exec small
load_srec-span_lines (s ∷ l) exec h small =
    let here = and_left (leb (s.put + size s) 65536 && all is_byte s.data_bytes) (all_fit l) h in
    let records = span_records srec_checksum s in
    let rest = span_lines srec_checksum srec_line l ++ srec_end exec in
    let sound =
      hex_records_sound (size s) s.put s.data_bytes (omega arith)
        (leb→le (s.put + size s) 65536 (and_left (leb (s.put + size s) 65536) _ here))
        (and_right (leb (s.put + size s) 65536) _ here) in
    ap (load_srec (line_count (s ∷ l))) (
      append_assoc (lines srec_line records) (span_lines srec_checksum srec_line l) (srec_end exec))
    ∙ lines_sound (line_count l) records rest sound
    ∙ ap (with_writes (loaded records)) (
        load_srec-span_lines l exec
          (and_right (leb (s.put + size s) 65536 && all is_byte s.data_bytes) (all_fit l) h) small)
    ∙ ap (λ ws. some (record { image = ws ++ image l; entry = exec_or 0 exec }))
        (hex_records-loaded srec_checksum srec_valid srec_checks (size s) s.put s.data_bytes
          (omega arith))

-- Where the spans that the sections are coalesced into end within 16 bits and hold bytes, and the address
-- to run has 16 bits, a loader of the format of Motorola reads from the text of the file exactly their
-- bytes, each at its address, and the address to run, which is 0 where there is none: it counts the
-- bytes of each line and checks the sum. As many lines as the file has are enough.
pub load_srec-output_motorola_srec :
    (junk : ℤ) (exec : Node) (sections : List Section) (e : Errors)
    → all_fit (section_coalesce_all false sections e).0 ≡ true
    → exec_or 0 (get_exec_addr junk exec) < 65536
    → load_srec
        (line_count (section_coalesce_all false sections e).0)
        (output_motorola_srec junk exec sections e)
      ≡ some (record {
        image = image (section_coalesce_all false sections e).0;
        entry = exec_or 0 (get_exec_addr junk exec);
      })
unfolding output_motorola_srec
load_srec-output_motorola_srec junk exec sections e h small =
    load_srec-span_lines (section_coalesce_all false sections e).0 (get_exec_addr junk exec) h small
