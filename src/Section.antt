-- ===== src/Section.antt =====
-- src/section.c and src/section.h: spans of consecutive bytes, and the current section.
-- The list `spans` of a section ends in the current span whenever there is one: here `closed`
-- holds the spans before it and `span` the current one. Reference counts are not modelled.
-- Of a span's buffer the first `size` bytes are kept, in `data_bytes`, so `size` is their number.
pub mod Emit
pub mod Bounds
pub mod Emitted
pub mod Sections
pub mod Consistent
use asm.Prelude.{
  ℕ, ◌+◌, ◌/◌, ◌%◌, Bool, ◌&&◌, Option, none, some, List, [], ◌∷◌, ◌++◌, ltb, ◌==◌, length,
  replicate, if◌then◌else◌,
}
use asm.Prelude.Int.{ℤ, pos, ◌+ℤ◌, int32, uint32, ltb_ℤ, leb_ℤ, eqb_ℤ}
use asm.Error.{Errors, error, out_of_range}
use asm.Register.{Isa}

-- struct section_span
pub record Span : Type 0 where
  pub sequence : ℕ
  pub org : ℤ
  pub put : ℕ
  pub allocated : ℕ
  pub data_bytes : List ℕ

abbrev pub size : Span → ℕ
size s = length s.data_bytes

-- struct section, without the table of its local labels
pub record Section : Type 0 where
  pub closed : List Span
  pub span : Option Span
  pub pass : ℕ
  pub line_number : ℕ
  pub pc : ℤ
  pub put : ℕ
  pub dp : ℕ
  pub last_pc : ℤ
  pub last_put : ℕ

abbrev pub option_list {ℓ} : {A : Type ℓ} → Option A → List A
option_list none = []
option_list (some a) = a ∷ []

-- the field `spans`
abbrev pub spans : Section → List Span
spans s = s.closed ++ option_list s.span

-- What the encoders read and write: `*cur_section`, `span_sequence`, the reported errors and the
-- options.
pub record Asm : Type 0 where
  pub cur : Section
  pub span_sequence : ℕ
  pub errors : Errors
  pub isa : Isa
  pub setdp : ℕ

-- #define next_put(s) ((s)->put + (s)->size), an unsigned sum
abbrev pub next_put : Span → ℕ
next_put s = (s.put + size s) % 4294967296

-- #define next_pc(s) ((int)((s)->org + (s)->size))
abbrev pub next_pc : Span → ℤ
next_pc s = int32 (s.org +ℤ pos (size s))

-- `section_span_new`, and the assignments of `put` and `org` that follow it
abbrev pub section_span_new : Asm → Span
section_span_new a = record {
  sequence = a.span_sequence;
  org = a.cur.pc;
  put = a.cur.put;
  allocated = 0;
  data_bytes = [];
}

abbrev pub open_new : List Span → Asm → Asm
open_new closed a = record a {
  cur = record (a.cur) { closed = closed; span = some (section_span_new a) };
  span_sequence = a.span_sequence + 1;
}

-- An empty span is moved to the current address.
abbrev pub retarget : Span → Asm → Asm
retarget span a = record a {
  cur = record (a.cur) { span = some (record span { put = a.cur.put; org = a.cur.pc }) };
}

-- Does the current address continue the span?
abbrev pub continues : Section → Span → Bool
continues s span = s.put == next_put span && eqb_ℤ s.pc (next_pc span)

-- The first `if` of `section_emit`, by the current span.
abbrev pub choose_from : Option Span → Asm → Asm
choose_from none a = open_new (spans a.cur) a
choose_from (some span) a =
    if continues a.cur span
    then a
    else (if size span == 0 then retarget span a else open_new (spans a.cur) a)

unfoldable pub choose_span : Asm → Asm
choose_span a = choose_from a.cur.span a

unfoldable pub check_negative : ℤ → Errors → Errors
check_negative pc e =
    if ltb_ℤ pc (pos 0) then error out_of_range "assembling to negative address" e else e

unfoldable pub check_beyond : ℤ → Errors → Errors
check_beyond pc e =
    if ltb_ℤ (pos 0x10000) pc
    then error out_of_range "assembling beyond addressable memory" e
    else e

-- The buffer grows by 128 bytes where the new address has reached its end; then the bytes are
-- copied behind those that are there. `pc` is the address after them.
abbrev pub write_span : ℤ → List ℕ → Span → Span
write_span pc buf span = record span {
  allocated =
      if leb_ℤ (int32 (span.org +ℤ pos span.allocated)) pc
      then span.allocated + 128
      else span.allocated;
  data_bytes = span.data_bytes ++ buf;
}

abbrev pub map_option {ℓ κ} : {A : Type ℓ} {B : Type κ} → (A → B) → Option A → Option B
map_option f none = none
map_option f (some a) = some (f a)

-- The rest of `section_emit`.
unfoldable pub append_bytes : List ℕ → Asm → Asm
unfolding check_negative check_beyond
append_bytes buf a =
    let pc = int32 (a.cur.pc +ℤ pos (length buf)) in
    record a {
      cur = record (a.cur) {
        span = map_option (write_span pc buf) a.cur.span;
        put = (a.cur.put + length buf) % 4294967296;
        pc = pc;
      };
      errors = check_beyond pc (check_negative a.cur.pc a.errors);
    }

-- A null buffer stands for that many zero bytes; see `section_emit_pad`.
unfoldable pub section_emit : List ℕ → Asm → Asm
unfolding choose_span append_bytes
section_emit buf a = append_bytes buf (choose_span a)

unfoldable pub section_emit_pad : ℕ → Asm → Asm
unfolding section_emit
section_emit_pad nbytes a = section_emit (replicate nbytes 0) a

-- the bytes of an opcode: one, or two where bits 8-15 are not zero
unfoldable pub op_bytes : ℕ → List ℕ
op_bytes op = if op / 256 % 256 == 0 then op % 256 ∷ [] else op / 256 % 256 ∷ op % 256 ∷ []

unfoldable pub section_emit_op : ℕ → Asm → Asm
unfolding section_emit op_bytes
section_emit_op op a = section_emit (op_bytes op) a

unfoldable pub section_emit_uint8 : ℕ → Asm → Asm
unfolding section_emit
section_emit_uint8 v a = section_emit (v ∷ []) a

unfoldable pub section_emit_uint16 : ℕ → Asm → Asm
unfolding section_emit
section_emit_uint16 v a = section_emit (v / 256 ∷ v % 256 ∷ []) a

unfoldable pub section_emit_uint32 : ℕ → Asm → Asm
unfolding section_emit
section_emit_uint32 v a =
    section_emit (v / 16777216 ∷ v / 65536 % 256 ∷ v / 256 % 256 ∷ v % 256 ∷ []) a

unfoldable pub section_skip : ℤ → Asm → Asm
section_skip nbytes a = record a {
  cur = record (a.cur) { put = uint32 (pos a.cur.put +ℤ nbytes); pc = int32 (a.cur.pc +ℤ nbytes) };
}
