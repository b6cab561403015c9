-- ===== src/Pseudo/Address.antt =====
-- PUT, SETDP, RZB, FILL, RMB and ALIGN.
use asm.Prelude.{ℕ, zero, suc, ◌+◌, ◌-◌, ◌%◌, String, some, ltb, length, drop, if◌then◌else◌}
use asm.Prelude.Int.{ℤ, pos, negsuc, uint8, int32}
use asm.Error.{out_of_range}
use asm.Node.{Node}
use asm.Section.{Asm, section_emit_uint8, section_skip}
use asm.Instr.{complain}
use asm.Pseudo.{verify_num_args, have_int_optional, have_int_required}

-- for (long i = 0; i < count; i++) section_emit_uint8(fill)
unfoldable pub emit_times : ℕ → ℕ → Asm → Asm
emit_times fill zero a = a
emit_times fill (suc count) a = emit_times fill count (section_emit_uint8 fill a)

abbrev pub set_put : ℤ → Asm → Asm
set_put (negsuc v) a = complain out_of_range "invalid negative address for PUT" a
set_put (pos v) a = record a { cur = record (a.cur) { put = v % 4294967296 } }

-- A negative number means that no page is assumed; `dp` is unsigned.
abbrev pub set_dp : ℤ → Asm → Asm
set_dp (negsuc v) a = record a { cur = record (a.cur) { dp = 4294967295 } }
set_dp (pos v) a = record a { cur = record (a.cur) { dp = v % 256 } }

abbrev pub fill_count : String → ℕ → ℤ → Asm → Asm
fill_count message fill (negsuc v) a = complain out_of_range message a
fill_count message fill (pos count) a = emit_times fill count a

-- (align - (pc % align)) % align, where `%` takes the sign of its left side
unfoldable pub align_count : ℤ → ℕ → ℕ
align_count (pos pc) align = (align - pc % align) % align
align_count (negsuc pc) align = (align + suc pc % align) % align

abbrev pub align_by : ℕ → ℕ → ℤ → Asm → Asm
align_by nargs align fill a =
    let count = align_count a.cur.pc align in
    if ltb nargs 2 then section_skip (int32 (pos count)) a else emit_times (uint8 fill) count a

abbrev pub align_to : ℕ → ℤ → ℤ → Asm → Asm
align_to nargs (pos (suc align)) fill a = align_by nargs (suc align) fill a
align_to nargs _ fill a = complain out_of_range "invalid argument to ALIGN" a

abbrev pub reserve : ℤ → Asm → Asm
reserve (negsuc v) a = complain out_of_range "negative argument to RMB" a
reserve (pos count) a = section_skip (int32 (pos count)) a

module _ (float_to_int : ℕ → ℤ) where
  unfoldable pub pseudo_put : Node → Asm → Asm
  pseudo_put args a =
      verify_num_args 1 (some 1)
        (λ l b.
          let (new_put, c) = have_int_required float_to_int l (pos b.cur.put) b in
          set_put new_put c)
        args a

  unfoldable pub pseudo_setdp : Node → Asm → Asm
  pseudo_setdp args a =
      verify_num_args 1 (some 1)
        (λ l b. let (new_dp, c) = have_int_required float_to_int l (negsuc 0) b in set_dp new_dp c)
        args a

  unfoldable pub pseudo_rzb : Node → Asm → Asm
  pseudo_rzb args a =
      verify_num_args 1 (some 2)
        (λ l b.
          let (count, c) = have_int_required float_to_int l (pos 0) b in
          let (fill, d) = have_int_optional float_to_int (drop 1 l) (pos 0) c in
          fill_count "negative count for RZB" (uint8 fill) count d)
        args a

  unfoldable pub pseudo_fill : Node → Asm → Asm
  pseudo_fill args a =
      verify_num_args 2 (some 2)
        (λ l b.
          let (fill, c) = have_int_required float_to_int l (pos 0) b in
          let (count, d) = have_int_required float_to_int (drop 1 l) (pos 0) c in
          fill_count "negative count for FILL" (uint8 fill) count d)
        args a

  unfoldable pub pseudo_rmb : Node → Asm → Asm
  pseudo_rmb args a =
      verify_num_args 1 (some 1)
        (λ l b. let (count, c) = have_int_required float_to_int l (pos 0) b in reserve count c) args
        a

  unfoldable pub pseudo_align : Node → Asm → Asm
  unfolding align_count
  pseudo_align args a =
      verify_num_args 1 (some 2)
        (λ l b.
          let (align, c) = have_int_required float_to_int l (pos 0) b in
          let (fill, d) = have_int_optional float_to_int (drop 1 l) (pos 0) c in
          align_to (length l) align fill d)
        args a
