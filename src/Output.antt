-- ===== src/Output.antt =====
-- src/output.c: the bytes of each output file, from the spans of all sections. The files
-- themselves are opened in Main. `exec` is the value of the symbol `.exec`, undefined where there is none;
-- `junk` is what its integer field holds where it is of another type.
pub mod Coco
pub mod Hex
use asm.Prelude.{
  ℕ, zero, suc, ◌+◌, ◌-◌, ◌/◌, ◌%◌, Bool, true, false, Option, none, some, List, [], ◌∷◌, ◌++◌, ltb,
  length, take, drop, if◌then◌else◌,
}
use asm.Prelude.Int.{ℤ, pos, negsuc}
use asm.Text.{Bytes, bytes}
use asm.Error.{Errors}
use asm.Node.{Node, undef, node, int}
use asm.Section.{Span, Section, size}
use asm.Coalesce.{section_coalesce_all}

-- The address, or none for -1.
abbrev pub exec_of : ℤ → Option ℕ
exec_of (pos v) = some (v % 65536)
exec_of (negsuc v) = none

abbrev pub get_exec_addr : ℤ → Node → Option ℕ
get_exec_addr junk undef = none
get_exec_addr junk (node (int v) attr) = exec_of v
get_exec_addr junk (node _ attr) = exec_of junk

-- the two bytes of a value, the high one first
abbrev pub word : ℕ → Bytes
word v = v / 256 % 256 ∷ v % 256 ∷ []

abbrev pub exec_or : ℕ → Option ℕ → ℕ
exec_or other none = other
exec_or other (some v) = v

abbrev pub first_data : List Span → Bytes
first_data [] = []
first_data (span ∷ spans) = span.data_bytes

unfoldable pub output_binary : List Section → Errors → Bytes
unfolding section_coalesce_all
output_binary sections e = first_data (section_coalesce_all true sections e).0

abbrev pub dragondos_header : ℕ → ℕ → Option ℕ → Bytes
dragondos_header put size exec =
    0x55 ∷ 0x02 ∷ word put ++ word size ++ word (exec_or (put % 65536) exec) ++ 0xaa ∷ []

abbrev pub dragondos : List Span → Option ℕ → Bytes
dragondos [] exec = dragondos_header 0 0 exec
dragondos (span ∷ spans) exec = dragondos_header span.put (size span) exec ++ span.data_bytes

unfoldable pub output_dragondos : ℤ → Node → List Section → Errors → Bytes
unfolding section_coalesce_all
output_dragondos junk exec sections e =
    dragondos (section_coalesce_all true sections e).0 (get_exec_addr junk exec)

-- The loop over the spans, and the record behind it. Its address is -1 where there is neither an
-- address nor a span.
abbrev pub coco : List Span → Option ℕ → Bytes
coco [] exec = 0xff ∷ 0x00 ∷ 0x00 ∷ word (exec_or 0xffff exec)
coco (span ∷ spans) exec =
    0x00 ∷ word (size span)
    ++ word span.put
    ++ span.data_bytes
    ++ coco spans (some (exec_or (span.put % 65536) exec))

unfoldable pub output_coco : ℤ → Node → List Section → Errors → Bytes
unfolding section_coalesce_all
output_coco junk exec sections e =
    coco (section_coalesce_all false sections e).0 (get_exec_addr junk exec)
