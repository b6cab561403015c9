-- ===== src/Text.antt =====
-- C strings as lists of their bytes, and the comparisons that the program makes. `strcasecmp_eq` is
-- `c_strcasecmp(a, b) == 0` of the C library's stand-in: equality up to the case of ASCII letters.
use Prim.Native.Char.{code}
use asm.Prelude.{
  ℕ, ◌+◌, ◌≡◌, ◌↔◌, String, Bool, true, false, List, [], ◌∷◌, ◌&&◌, arith, leb, ◌==◌, if◌then◌else◌,
}

abbrev pub Bytes : Type 0
Bytes = List ℕ

abbrev pub bytes : String → Bytes
bytes String.[] = []
bytes (String.◌∷◌ c s) = code c ∷ bytes s

abbrev pub tolower : ℕ → ℕ
tolower c = if leb b'A' c && leb c b'Z' then c + 32 else c

abbrev pub bytes_eq : Bytes → Bytes → Bool
bytes_eq [] [] = true
bytes_eq (x ∷ xs) (y ∷ ys) = x == y && bytes_eq xs ys
bytes_eq _ _ = false

abbrev pub lower : Bytes → Bytes
lower [] = []
lower (c ∷ cs) = tolower c ∷ lower cs

abbrev pub strcasecmp_eq : Bytes → Bytes → Bool
strcasecmp_eq a b = bytes_eq (lower a) (lower b)

pub bytes_eq_iff : (xs ys : Bytes) → (bytes_eq xs ys ≡ true) ↔ (xs ≡ ys)
bytes_eq_iff [] [] = ground arith
bytes_eq_iff [] (y ∷ ys) = ground arith
bytes_eq_iff (x ∷ xs) [] = ground arith
bytes_eq_iff (x ∷ xs) (y ∷ ys) = ground (arith, bytes_eq_iff xs ys)
