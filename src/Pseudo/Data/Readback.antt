-- ===== src/Pseudo/Data/Readback.antt =====
-- FDB and FCS: a program reads back from the bytes what the line says.
use mathlib.Core.Path.{subst}
use asm.Prelude.{
  ℕ, suc, ◌+◌, ◌-◌, ◌*◌, ◌/◌, ◌%◌, ◌<◌, ◌≡◌, refl, sym, ap, bit_or, Bool, true, ◌&&◌, Option, none,
  some, List, [], ◌∷◌, ◌++◌, append-nil, append_assoc, arith, length, length-append, ltb, leb,
  ltb→lt, ◌==◌, if◌then◌else◌, and_left, and_right,
}
use asm.Prelude.Int.{ℤ, uint16}
use asm.Prelude.Table.{each_below, each_below-at}
use asm.Text.{Bytes}
use asm.Error.{Errors}
use asm.Node.{Node, node, int, string, array, cons, nil, Attr, attr_none, of_list, to_list-of_list}
use asm.Section.{Asm, section_emit_uint8, section_emit_uint16}
use asm.Section.Emitted.{Fits}
use asm.Instr.Outcome.{Outcome, Outcome-uint8, Outcome-uint16, Fits-le}
use asm.Pseudo.Data.{
  emit_words, emit_string, emit_formatted, translate_basic_keyword, pseudo_fdb, pseudo_fcs,
}
use asm.Pseudo.Layout.{Outcome-nothing}

abbrev pub int_args : List ℤ → List Node
int_args [] = []
int_args (v ∷ vs) = node (int v) attr_none ∷ int_args vs

abbrev words : List ℤ → List ℕ
words [] = []
words (v ∷ vs) = uint16 v / 256 ∷ uint16 v % 256 ∷ words vs

-- Words of two bytes, the high one first.
abbrev pub read_words : List ℕ → List ℕ
read_words (hi ∷ lo ∷ rest) = (hi * 256 + lo) ∷ read_words rest
read_words _ = []

abbrev pub all_uint16 : List ℤ → List ℕ
all_uint16 [] = []
all_uint16 (v ∷ vs) = uint16 v ∷ all_uint16 vs

read-words : (vs : List ℤ) → read_words (words vs) ≡ all_uint16 vs
read-words [] = refl
read-words (v ∷ vs) = rw (read-words vs) (ap (λ w. w ∷ all_uint16 vs) (omega arith))

length-words : (vs : List ℤ) → length (words vs) ≡ 2 * length vs
length-words [] = refl
length-words (v ∷ vs) = omega (arith, length-words vs)

emit_words-Outcome :
    (vs : List ℤ) (float_to_int float_to_int32 : ℕ → ℤ) {bs : List ℕ} {e : Errors} {a b : Asm}
    → Fits (length bs + 2 * length vs) a
    → Outcome bs e a b
    → Outcome (bs ++ words vs) e a (emit_words float_to_int float_to_int32 (int_args vs) b)
emit_words-Outcome [] float_to_int float_to_int32 {bs} {e} {a} {b} f o =
    subst (λ l. Outcome l e a b) (sym (append-nil bs)) o
emit_words-Outcome (v ∷ vs) float_to_int float_to_int32 {bs} {e} {a} {b} f o =
    subst
      (λ l.
        Outcome l e a
          (emit_words float_to_int float_to_int32 (int_args vs) (section_emit_uint16 (uint16 v) b)))
      (append_assoc bs (uint16 v / 256 ∷ uint16 v % 256 ∷ []) (words vs))
      (emit_words-Outcome vs float_to_int float_to_int32
        (Fits-le (omega (arith, length-append bs (uint16 v / 256 ∷ uint16 v % 256 ∷ []))) f)
        (Outcome-uint16 (uint16 v) (Fits-le (omega arith) f) o))

one_or_more : (n : ℕ) → leb 1 (suc n) ≡ true
one_or_more n = ground arith

module _ (v : ℤ) (vs : List ℤ) (list_attr : Attr) (a : Asm) where
  -- FDB with one or more integers, assembled within memory, reports nothing and emits two bytes for
  -- each, from which the integers are read back modulo 65536, in their order.
  pub pseudo_fdb-read :
      (float_to_int float_to_int32 : ℕ → ℤ)
      → Fits (2 * length (v ∷ vs)) a
      → a.cur.put < 4294967296
      → (bytes : List ℕ) × Outcome bytes a.errors a (
          pseudo_fdb float_to_int float_to_int32
            (node (array (of_list (int_args (v ∷ vs)))) list_attr)
            a)
        × (read_words bytes ≡ all_uint16 (v ∷ vs))
  unfolding pseudo_fdb
  pseudo_fdb-read float_to_int float_to_int32 f small = (
    words (v ∷ vs),
    rw (to_list-of_list (int_args vs), one_or_more (length (int_args vs)))
        (emit_words-Outcome (v ∷ vs) float_to_int float_to_int32 {bs = []} (Fits-le (omega arith) f)
          (Outcome-nothing a (Fits-le (omega arith) f) small)),
    read-words (v ∷ vs),
  )

-- The bytes of FCS: bit 7 marks the last.
abbrev keyword : Bytes → List ℕ
keyword [] = []
keyword (c ∷ []) = bit_or c 0x80 ∷ []
keyword (c ∷ d ∷ s) = c ∷ keyword (d ∷ s)

-- Reading up to a byte with bit 7 set.
abbrev then_byte : ℕ → Option Bytes → Option Bytes
then_byte c none = none
then_byte c (some s) = some (c ∷ s)

abbrev pub read_keyword : List ℕ → Option Bytes
read_keyword [] = none
read_keyword (b ∷ rest) =
    let behind = read_keyword rest in
    if ltb b 128 then then_byte b behind else some ((b - 128) ∷ [])

abbrev pub all_ascii : Bytes → Bool
all_ascii [] = true
all_ascii (c ∷ s) = ltb c 128 && all_ascii s

marked : ℕ → Bool
marked c = bit_or c 0x80 == c + 128

marked_table : each_below 128 marked ≡ true
unfolding each_below marked
marked_table = refl

mark_adds : (c : ℕ) → c < 128 → bit_or c 0x80 ≡ c + 128
unfolding marked
mark_adds c h = ground (arith, each_below-at 128 marked c marked_table h)

last_byte : (c : ℕ) → read_keyword ((c + 128) ∷ []) ≡ some (c ∷ [])
last_byte c = ground (arith, ap some (cut c))
  where
    cut : (c : ℕ) → (c + 128 - 128) ∷ [] ≡ c ∷ []
    cut c = ap (λ b. b ∷ []) (omega arith)

read-keyword :
    (c : ℕ) (s : Bytes) → all_ascii (c ∷ s) ≡ true → read_keyword (keyword (c ∷ s)) ≡ some (c ∷ s)
read-keyword c [] h = rw (mark_adds c (ltb→lt c 128 (and_left (ltb c 128) true h))) (last_byte c)
read-keyword c (d ∷ s) h =
    rw
      (
        and_left (ltb c 128) (all_ascii (d ∷ s)) h,
        read-keyword d s (and_right (ltb c 128) (all_ascii (d ∷ s)) h),
      )
      refl

emit_string-Outcome :
    (s : Bytes) {bs : List ℕ} {e : Errors} {a b : Asm}
    → Fits (length bs + length s) a
    → Outcome bs e a b
    → Outcome (bs ++ keyword s) e a (emit_string translate_basic_keyword s b)
emit_string-Outcome [] {bs} {e} {a} {b} f o = subst (λ l. Outcome l e a b) (sym (append-nil bs)) o
emit_string-Outcome (c ∷ []) f o = Outcome-uint8 (bit_or c 0x80) f o
emit_string-Outcome (c ∷ d ∷ s) {bs} {e} {a} {b} f o =
    subst
      (λ l. Outcome l e a (emit_string translate_basic_keyword (d ∷ s) (section_emit_uint8 c b)))
      (append_assoc bs (c ∷ []) (keyword (d ∷ s)))
      (emit_string-Outcome (d ∷ s) (Fits-le (omega (arith, length-append bs (c ∷ []))) f)
        (Outcome-uint8 c (Fits-le (omega arith) f) o))

module _ (c : ℕ) (s : Bytes) (attr list_attr : Attr) (a : Asm) where
  -- FCS with one string of codes below 128, not empty, assembled within memory, reports nothing and
  -- emits bytes from which the string is read back by going on up to the byte with bit 7 set.
  pub pseudo_fcs-read :
      (float_to_int float_to_int32 : ℕ → ℤ)
      → all_ascii (c ∷ s) ≡ true
      → Fits (length (c ∷ s)) a
      → a.cur.put < 4294967296
      → (bytes : List ℕ) × Outcome bytes a.errors a (
          pseudo_fcs float_to_int float_to_int32
            (node (array (cons (node (string (c ∷ s)) attr) nil)) list_attr)
            a)
        × (read_keyword bytes ≡ some (c ∷ s))
  unfolding pseudo_fcs emit_formatted
  pseudo_fcs-read float_to_int float_to_int32 h f small = (
    keyword (c ∷ s),
    emit_string-Outcome (c ∷ s) {bs = []} (Fits-le (omega arith) f)
        (Outcome-nothing a (Fits-le (omega arith) f) small),
    read-keyword c s h,
  )
