-- ===== src/Instr/Outcome.antt =====
-- What an encoder does to the assembler's state: the bytes that it emits and what it reports. The
-- rules say how each call adds to an outcome.
use mathlib.Core.Path.{subst}
use asm.Prelude.{
  append_assoc, ℕ, ◌+◌, ◌/◌, ◌%◌, ◌≤◌, ◌≡◌, ◌∙◌, ap, List, [], ◌∷◌, ◌++◌, String, arith, length,
  length-append, replicate, length-replicate,
}
use asm.Error.{ErrorType, Errors, error}
use asm.Section.{
  Asm, op_bytes, section_emit, section_emit_op, section_emit_pad, section_emit_uint8,
  section_emit_uint16,
}
use asm.Section.Emitted.{
  Emitted, Emitted-append, Emitted-section_emit, Fits, Fits-Emitted, section_emit-errors,
}
use asm.Instr.{complain}

-- From `a` to `b` the bytes `bs` were emitted, and the reported errors came to be `e`.
pub record Outcome (bs : List ℕ) (e : Errors) (a b : Asm) : Type 0 where
  pub emitted : Emitted bs a b
  pub errors : b.errors ≡ e

pub Fits-le : {m n : ℕ} {a : Asm} → m ≤ n → Fits n a → Fits m a
Fits-le h f = record { at = f.at; is_pc = f.is_pc; below = omega (arith, f.below) }

module _ {a : Asm} where
  pub Outcome-op :
      (op : ℕ)
      → Fits (length (op_bytes op)) a
      → Outcome (op_bytes op) a.errors a (section_emit_op op a)
  unfolding section_emit_op
  Outcome-op op f = record {
    emitted = Emitted-section_emit (op_bytes op) a;
    errors = section_emit-errors (op_bytes op) a f;
  }

  pub Outcome-complain :
      {bs : List ℕ} {e : Errors} {b : Asm} (type : ErrorType) (fmt : String)
      → Outcome bs e a b
      → Outcome bs (error type fmt e) a (complain type fmt b)
  unfolding complain
  Outcome-complain type fmt o = record {
    emitted = record {
      image = o.emitted.image;
      put = o.emitted.put;
      pc = o.emitted.pc;
      dp = o.emitted.dp;
    };
    errors = ap (error type fmt) o.errors;
  }

  -- What is reported before the first byte.
  pub Outcome-complained :
      {bs : List ℕ} {b : Asm} (type : ErrorType) (fmt : String)
      → Outcome bs (complain type fmt a).errors (complain type fmt a) b
      → Outcome bs (error type fmt a.errors) a b
  unfolding complain
  Outcome-complained type fmt o = record {
    emitted = record {
      image = o.emitted.image;
      put = o.emitted.put;
      pc = o.emitted.pc;
      dp = o.emitted.dp;
    };
    errors = o.errors;
  }

  pub Fits-complain :
      {n : ℕ} (type : ErrorType) (fmt : String) → Fits n a → Fits n (complain type fmt a)
  unfolding complain
  Fits-complain type fmt f = record { at = f.at; is_pc = f.is_pc; below = f.below }

  -- An emission that stays in memory.
  pub Outcome-emit :
      {bs : List ℕ} {e : Errors} {b : Asm} (buf : List ℕ)
      → Fits (length bs + length buf) a
      → Outcome bs e a b
      → Outcome (bs ++ buf) e a (section_emit buf b)
  Outcome-emit {bs} {e} {b} buf f o = record {
    emitted = Emitted-append o.emitted (Emitted-section_emit buf b);
    errors = section_emit-errors buf b (Fits-Emitted (length buf) o.emitted f) ∙ o.errors;
  }

  module _ {bs : List ℕ} {e : Errors} {b : Asm} where
    pub Outcome-uint8 :
        (v : ℕ)
        → Fits (length bs + 1) a
        → Outcome bs e a b
        → Outcome (bs ++ v ∷ []) e a (section_emit_uint8 v b)
    unfolding section_emit_uint8
    Outcome-uint8 v f o = Outcome-emit (v ∷ []) f o

    pub Outcome-uint16 :
        (v : ℕ)
        → Fits (length bs + 2) a
        → Outcome bs e a b
        → Outcome (bs ++ v / 256 ∷ v % 256 ∷ []) e a (section_emit_uint16 v b)
    unfolding section_emit_uint16
    Outcome-uint16 v f o = Outcome-emit (v / 256 ∷ v % 256 ∷ []) f o

    pub Outcome-pad :
        (n : ℕ)
        → Fits (length bs + n) a
        → Outcome bs e a b
        → Outcome (bs ++ replicate n 0) e a (section_emit_pad n b)
    unfolding section_emit_pad
    Outcome-pad n f o =
        Outcome-emit (replicate n 0)
          (record {
            at = f.at;
            is_pc = f.is_pc;
            below = omega (arith, f.below, length-replicate {0} {A = ℕ} n 0);
          })
          o

module _ {a : Asm} {bs : List ℕ} {e : Errors} {b : Asm} where
  -- A byte, then another byte or a word.
  pub Outcome-two :
      (w x : ℕ)
      → Fits (length bs + 2) a
      → Outcome bs e a b
      → Outcome (bs ++ w ∷ x ∷ []) e a (section_emit_uint8 x (section_emit_uint8 w b))
  Outcome-two w x f o =
      subst (λ l. Outcome l e a (section_emit_uint8 x (section_emit_uint8 w b)))
        (append_assoc bs (w ∷ []) _)
        (Outcome-uint8 x (Fits-le (omega (arith, length-append bs (w ∷ []))) f)
          (Outcome-uint8 w (Fits-le (omega arith) f) o))

  pub Outcome-three :
      (w x : ℕ)
      → Fits (length bs + 3) a
      → Outcome bs e a b
      → Outcome
          (bs ++ w ∷ x / 256 ∷ x % 256 ∷ [])
          e
          a
          (section_emit_uint16 x (section_emit_uint8 w b))
  Outcome-three w x f o =
      subst (λ l. Outcome l e a (section_emit_uint16 x (section_emit_uint8 w b)))
        (append_assoc bs (w ∷ []) _)
        (Outcome-uint16 x (Fits-le (omega (arith, length-append bs (w ∷ []))) f)
          (Outcome-uint8 w (Fits-le (omega arith) f) o))
