-- ===== src/Output/Hex/Loader/Lines.antt =====
-- output_motorola_srec: what the loader reads from a line that is printed for a record.
use asm.Prelude.{
  ℕ, zero, suc, ◌+◌, ◌-◌, ◌*◌, ◌/◌, ◌%◌, ◌<◌, ◌≡◌, ◌∙◌, refl, sym, ap, Bool, true, false, ◌&&◌,
  Option, none, some, List, [], ◌∷◌, ◌++◌, append_assoc, append-nil, all, all-append, lt→ltb, arith,
  ltb, ltb→lt, ◌==◌, length, if◌then◌else◌, and_left, and_right,
}
use asm.Text.{Bytes, bytes}
use asm.Section.Emit.{writes}
use asm.Output.{exec_or}
use asm.Output.Hex.{HexRecord, hex, hex_bytes, hex_digits, srec_line, srec_end, digit}
use asm.Output.Hex.Loader.{
  is_hex, unhex, read_pairs, Image, front, checks, with_writes, data_record, end_record, load_srec,
  is_byte,
}

digit-reads :
    (d : ℕ) → d < 16 → (is_hex (digit d) ≡ true) × (unhex (digit d) ≡ d) × (digit d == 0x0a ≡ false)
digit-reads d h = ground arith

-- No digit is printed for what is left of a number when it is 0.
hex_digits-zero : (fuel n : ℕ) (text : Bytes) → n ≡ 0 → hex_digits (suc fuel) zero n text ≡ text
unfolding hex_digits
hex_digits-zero fuel n text h = ap (λ m. hex_digits (suc fuel) zero m text) h

hex-two : (b : ℕ) → b < 256 → hex 2 b ≡ digit (b / 16) ∷ digit (b % 16) ∷ []
unfolding hex hex_digits
hex-two b h =
    hex_digits-zero 5 (b / 16 / 16) _ (omega (arith, h))
    ∙ ap (λ d. digit d ∷ digit (b % 16) ∷ []) (omega (arith, h))

read_pairs-step :
    (a c : ℕ) (bs : List ℕ) (text rest : Bytes)
    → is_hex a ≡ true
    → is_hex c ≡ true
    → (a == 0x0a) ≡ false
    → read_pairs text ≡ some (bs, rest)
    → read_pairs (a ∷ c ∷ text) ≡ some ((unhex a * 16 + unhex c) ∷ bs, rest)
unfolding read_pairs
read_pairs-step a c bs text rest ha hc n k = rw (n, k) (both (is_hex a) (is_hex c) ha hc)
  where
    both :
        (p q : Bool)
        → p ≡ true
        → q ≡ true
        → (if◌then◌else◌ {A = Option (List ℕ × Bytes)}
            (p && q)
            (some ((unhex a * 16 + unhex c) ∷ bs, rest))
            none)
          ≡ some ((unhex a * 16 + unhex c) ∷ bs, rest)
    both p q h1 h2 = rw (h1, h2) refl

read_pairs-two :
    (b : ℕ) (bs : List ℕ) (text rest : Bytes)
    → b < 256
    → read_pairs text ≡ some (bs, rest)
    → read_pairs (hex 2 b ++ text) ≡ some (b ∷ bs, rest)
read_pairs-two b bs text rest h k =
    let (hex_high, value_high, more) = digit-reads (b / 16) (omega (arith, h)) in
    let (hex_low, value_low, last) = digit-reads (b % 16) (omega arith) in
    ap (λ t. read_pairs (t ++ text)) (hex-two b h)
    ∙ read_pairs-step (digit (b / 16)) (digit (b % 16)) bs text rest hex_high hex_low more k
    ∙ ap (λ v. some (v ∷ bs, rest)) (omega (arith, value_high, value_low))

end_of_line : (rest : Bytes) → read_pairs (0x0a ∷ rest) ≡ some ([], rest)
unfolding read_pairs
end_of_line [] = refl
end_of_line (c ∷ rest) = refl

pub read_pairs-hex_bytes :
    (bs : List ℕ) (rest : Bytes)
    → all is_byte bs ≡ true
    → read_pairs (hex_bytes bs ++ 0x0a ∷ rest) ≡ some (bs, rest)
unfolding hex_bytes
read_pairs-hex_bytes [] rest h = end_of_line rest
read_pairs-hex_bytes (b ∷ bs) rest h =
    ap read_pairs (append_assoc (hex 2 b) (hex_bytes bs) (0x0a ∷ rest))
    ∙ read_pairs-two b bs (hex_bytes bs ++ 0x0a ∷ rest) rest
        (ltb→lt b 256 (and_left (is_byte b) (all is_byte bs) h))
        (read_pairs-hex_bytes bs rest (and_right (is_byte b) (all is_byte bs) h))

hex_bytes-append : (xs ys : List ℕ) → hex_bytes (xs ++ ys) ≡ hex_bytes xs ++ hex_bytes ys
unfolding hex_bytes
hex_bytes-append [] ys = refl
hex_bytes-append (x ∷ xs) ys =
    ap (λ t. hex 2 x ++ t) (hex_bytes-append xs ys)
    ∙ sym (append_assoc (hex 2 x) (hex_bytes xs) (hex_bytes ys))

abbrev four : ℕ → ℕ → ℕ → ℕ → Bytes
four a b c d = digit a ∷ digit b ∷ digit c ∷ digit d ∷ []

four-same : (a b c d e f g h : ℕ) → a ≡ e → b ≡ f → c ≡ g → d ≡ h → four a b c d ≡ four e f g h
four-same a b c d e f g h p q r s = λ i. four (p i) (q i) (r i) (s i)

four_digits :
    (n : ℕ) → n < 65536 → hex 4 n ≡ four (n / 256 / 16) (n / 256 % 16) (n % 256 / 16) (n % 256 % 16)
unfolding hex hex_digits
four_digits n h =
    hex_digits-zero 3 (n / 16 / 16 / 16 / 16) _ (omega (arith, h))
    ∙ four-same (n / 16 / 16 / 16 % 16) (n / 16 / 16 % 16) (n / 16 % 16) (n % 16) _ _ _ _
        (omega (arith, h)) (omega arith) (omega arith) (omega arith)

-- Four digits are those of the two bytes of the number.
hex-four : (n : ℕ) → n < 65536 → hex 4 n ≡ hex 2 (n / 256) ++ hex 2 (n % 256)
hex-four n h =
    four_digits n h
    ∙ sym (
        ap (λ t. t ++ hex 2 (n % 256)) (hex-two (n / 256) (omega (arith, h)))
        ∙ ap (λ t. digit (n / 256 / 16) ∷ digit (n / 256 % 16) ∷ t)
            (hex-two (n % 256) (omega arith)))

-- The bytes of a record, but for the checksum.
abbrev behind_count : HexRecord → List ℕ
behind_count r = r.address / 256 ∷ r.address % 256 ∷ (r.data_bytes ++ r.checksum ∷ [])

srec_line-bytes :
    (r : HexRecord) (rest : Bytes)
    → r.address < 65536
    → srec_line r ++ rest
      ≡ bytes "S1" ++ (hex_bytes ((length r.data_bytes + 3) ∷ behind_count r) ++ 0x0a ∷ rest)
unfolding hex_bytes
srec_line-bytes r rest h = simp (
  hex-four r.address h,
  hex_bytes-append r.data_bytes (r.checksum ∷ []),
  append_assoc,
  append-nil,
)

-- A record whose numbers have their widths and whose checksum is right.
abbrev pub is_sound : HexRecord → Bool
is_sound r =
    (ltb r.address 65536 && ltb (length r.data_bytes) 253)
    && ((all is_byte r.data_bytes && ltb r.checksum 256)
        && checks (length r.data_bytes + 3) (behind_count r))

front-append : (bs : List ℕ) (c : ℕ) → front (bs ++ c ∷ []) ≡ bs
front-append [] c = refl
front-append (b ∷ []) c = refl
front-append (b ∷ d ∷ bs) c = ap (◌∷◌ b) (front-append (d ∷ bs) c)

record Sound (r : HexRecord) : Type 0 where
  address : r.address < 65536
  all_fit : all is_byte ((length r.data_bytes + 3) ∷ behind_count r) ≡ true
  checked : checks (length r.data_bytes + 3) (behind_count r) ≡ true

both : (p q : Bool) → p && q ≡ true → (p ≡ true) × (q ≡ true)
both p q h = (and_left p q h, and_right p q h)

is_sound-Sound : (r : HexRecord) → is_sound r ≡ true → Sound r
is_sound-Sound r h =
    let (widths, rest) = both (ltb r.address 65536 && ltb (length r.data_bytes) 253) _ h in
    let (small, short) = both (ltb r.address 65536) (ltb (length r.data_bytes) 253) widths in
    let (numbers, checked) = both (all is_byte r.data_bytes && ltb r.checksum 256) _ rest in
    let (data_fit, sum_fits) = both (all is_byte r.data_bytes) (ltb r.checksum 256) numbers in
    let below = ltb→lt r.address 65536 small in
    record {
      address = below;
      all_fit =
          rw
            (
              lt→ltb (length r.data_bytes + 3) 256
                  (omega (arith, ltb→lt (length r.data_bytes) 253 short)),
              lt→ltb (r.address / 256) 256 (omega (arith, below)),
              lt→ltb (r.address % 256) 256 (omega arith),
            )
            (all-append is_byte r.data_bytes (r.checksum ∷ []) data_fit (rw sum_fits refl));
      checked = checked;
    }

data_record-checked :
    (load : Bytes → Option Image) (count hi lo : ℕ) (more : List ℕ) (rest : Bytes)
    → checks count (hi ∷ lo ∷ more) ≡ true
    → data_record load (some (count ∷ hi ∷ lo ∷ more, rest))
      ≡ with_writes (writes (hi * 256 + lo) (front more)) (load rest)
data_record-checked load count hi lo more rest h = chosen (checks count (hi ∷ lo ∷ more)) _ h
  where
    chosen : (b : Bool) (i : Option Image) → b ≡ true → (if b then i else none) ≡ i
    chosen b i e = rw e refl

-- The line of a sound record places its bytes at its address.
pub load_srec-srec_line :
    (n : ℕ) (r : HexRecord) (rest : Bytes)
    → is_sound r ≡ true
    → load_srec (suc n) (srec_line r ++ rest)
      ≡ with_writes (writes r.address r.data_bytes) (load_srec n rest)
unfolding load_srec
load_srec-srec_line n r rest h =
    let sound = is_sound-Sound r h in
    ap (load_srec (suc n)) (srec_line-bytes r rest sound.address)
    ∙ ap (data_record (load_srec n))
        (read_pairs-hex_bytes ((length r.data_bytes + 3) ∷ behind_count r) rest sound.all_fit)
    ∙ data_record-checked (load_srec n) (length r.data_bytes + 3) _ _ _ rest sound.checked
    ∙ ap
        (λ address.
          with_writes (writes address (front (r.data_bytes ++ r.checksum ∷ []))) (load_srec n rest))
        (omega arith)
    ∙ ap (λ block. with_writes (writes r.address block) (load_srec n rest))
        (front-append r.data_bytes r.checksum)

end_line :
    (count hi lo sum : ℕ) (n : ℕ)
    → all is_byte (count ∷ hi ∷ lo ∷ sum ∷ []) ≡ true
    → checks count (hi ∷ lo ∷ sum ∷ []) ≡ true
    → load_srec (suc n) (bytes "S9" ++ (hex_bytes (count ∷ hi ∷ lo ∷ sum ∷ []) ++ 0x0a ∷ []))
      ≡ some (record { image = []; entry = hi * 256 + lo })
unfolding load_srec
end_line count hi lo sum n h k =
    ap end_record (read_pairs-hex_bytes (count ∷ hi ∷ lo ∷ sum ∷ []) [] h)
    ∙ chosen (checks count (hi ∷ lo ∷ sum ∷ [])) _ k
  where
    chosen : (b : Bool) (i : Option Image) → b ≡ true → (if b then i else none) ≡ i
    chosen b i e = rw e refl

srec_end-bytes :
    (v : ℕ)
    → v < 65536
    → srec_end (some v)
      ≡ bytes "S9"
        ++ (hex_bytes (3 ∷ v / 256 ∷ v % 256 ∷ (255 - (v + v / 256 + 3) % 256) ∷ []) ++ 0x0a ∷ [])
unfolding hex_bytes
srec_end-bytes v h = simp (hex-four v h, append_assoc, append-nil)

-- The last line gives the address to run, or 0 where there is none.
pub load_srec-srec_end :
    (n : ℕ) (exec : Option ℕ)
    → exec_or 0 exec < 65536
    → load_srec (suc n) (srec_end exec) ≡ some (record { image = []; entry = exec_or 0 exec })
unfolding hex_bytes
load_srec-srec_end n none h = end_line 3 0 0 0xfc n refl refl
load_srec-srec_end n (some v) h =
    let sum = 255 - (v + v / 256 + 3) % 256 in
    ap (load_srec (suc n)) (srec_end-bytes v h)
    ∙ end_line 3 (v / 256) (v % 256) sum n
        (rw
          (
            lt→ltb (v / 256) 256 (omega (arith, h)),
            lt→ltb (v % 256) 256 (omega arith),
            lt→ltb sum 256 (omega arith),
          )
          refl)
        (ground (arith, h))
    ∙ ap (λ entry. some (record { image = []; entry = entry })) (omega arith)
