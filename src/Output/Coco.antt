-- ===== src/Output/Coco.antt =====
-- What a loader reads from a CoCo binary, and from a DragonDOS binary.
use asm.Prelude.{
  ℕ, zero, suc, ◌+◌, ◌*◌, ◌/◌, ◌%◌, ◌<◌, ◌≡◌, refl, ap, ◌∙◌, Bool, true, ◌&&◌, Option, none, some,
  List, [], ◌∷◌, ◌++◌, arith, ltb, ltb→lt, length, ◌==◌, if◌then◌else◌, and_left, and_right,
}
use asm.Text.{Bytes}
use asm.Section.{Span, size}
use asm.Output.{exec_or, coco}

-- The first bytes of a file, as many as asked for, and those behind.
abbrev pub split_at : ℕ → Bytes → Bytes × Bytes
split_at zero rest = ([], rest)
split_at (suc n) [] = ([], [])
split_at (suc n) (b ∷ rest) = let (front, back) = split_at n rest in (b ∷ front, back)

-- What is loaded: blocks of bytes, each at an address, and the address to run.
pub record Program : Type 0 where
  pub blocks : List (ℕ × Bytes)
  pub entry : ℕ

abbrev with_block : ℕ → Bytes → Option Program → Option Program
with_block put block none = none
with_block put block (some p) = some (record p { blocks = (put, block) ∷ p.blocks })

-- The loader of the CoCo: a tag, a length and an address; behind tag 0 come that many bytes, any other
-- tag ends the file. At most the given number of records are read.
pub load_coco : ℕ → Bytes → Option Program
load_coco (suc n) (tag ∷ sh ∷ sl ∷ ph ∷ pl ∷ rest) =
    let (block, back) = split_at (sh * 256 + sl) rest in
    let loaded = load_coco n back in
    if tag == 0
    then with_block (ph * 256 + pl) block loaded
    else some (record { blocks = []; entry = ph * 256 + pl })
load_coco _ _ = none

-- Addresses and sizes have 16 bits.
abbrev pub all_16bit : List Span → Bool
all_16bit [] = true
all_16bit (s ∷ l) = ltb s.put 65536 && (ltb (size s) 65536 && all_16bit l)

abbrev pub blocks_of : List Span → List (ℕ × Bytes)
blocks_of [] = []
blocks_of (s ∷ l) = (s.put, s.data_bytes) ∷ blocks_of l

-- Where a program without an address to run starts: with its first span, if it has one.
abbrev pub entry_of : List Span → Option ℕ → ℕ
entry_of l (some v) = v
entry_of [] none = 0xffff
entry_of (s ∷ l) none = s.put

split_at-append : (xs ys : Bytes) → split_at (length xs) (xs ++ ys) ≡ (xs, ys)
split_at-append [] ys = refl
split_at-append (x ∷ xs) ys = rw (split_at-append xs ys) refl

word_value : (v : ℕ) → v < 65536 → v / 256 % 256 * 256 + v % 256 ≡ v
word_value v h = ground arith

load_step :
    (n size put sh sl ph pl : ℕ) (rest : Bytes)
    → sh * 256 + sl ≡ size
    → ph * 256 + pl ≡ put
    → load_coco (suc n) (0 ∷ sh ∷ sl ∷ ph ∷ pl ∷ rest)
      ≡ with_block put (split_at size rest).0 (load_coco n (split_at size rest).1)
unfolding load_coco
load_step n size put sh sl ph pl rest h k = rw (h, k) refl

next_small :
    (put : ℕ) (exec : Option ℕ) → exec_or 0 exec < 65536 → exec_or (put % 65536) exec < 65536
next_small put none h = omega arith
next_small put (some v) h = h

entry_next :
    (s : Span) (l : List Span) (exec : Option ℕ)
    → s.put < 65536
    → exec_or (s.put % 65536) exec ≡ entry_of (s ∷ l) exec
entry_next s l none h = omega arith
entry_next s l (some v) h = refl

-- Where addresses, sizes and the address to run have 16 bits, the loader reads from the file of a list
-- of spans exactly their bytes, each span at its address, and the address to run.
pub load_coco-coco :
    (l : List Span) (exec : Option ℕ)
    → all_16bit l ≡ true
    → exec_or 0 exec < 65536
    → load_coco (suc (length l)) (coco l exec)
      ≡ some (record { blocks = blocks_of l; entry = entry_of l exec })
unfolding load_coco
load_coco-coco [] none h small = refl
load_coco-coco [] (some v) h small = rw (word_value v small) refl
load_coco-coco (s ∷ l) exec h small =
    let put_small =
      ltb→lt s.put 65536 (and_left (ltb s.put 65536) (ltb (size s) 65536 && all_16bit l) h) in
    let behind = and_right (ltb s.put 65536) (ltb (size s) 65536 && all_16bit l) h in
    let size_small = ltb→lt (size s) 65536 (and_left (ltb (size s) 65536) (all_16bit l) behind) in
    let next = exec_or (s.put % 65536) exec in
    let ih =
      load_coco-coco l (some next) (and_right (ltb (size s) 65536) (all_16bit l) behind)
        (next_small s.put exec small) in
    load_step (suc (length l)) (size s) s.put _ _ _ _ (s.data_bytes ++ coco l (some next))
      (word_value (size s) size_small) (word_value s.put put_small)
    ∙ rw (split_at-append s.data_bytes (coco l (some next)), ih)
        (ap (λ e. some (record { blocks = (s.put, s.data_bytes) ∷ blocks_of l; entry = e }))
          (entry_next s l exec put_small))
