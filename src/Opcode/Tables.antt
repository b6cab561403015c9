-- ===== src/Opcode/Tables.antt =====
-- src/opcode.c: the dictionary of opcodes. The 6309 has its own rows and all those of the 6809, which
-- are inserted after them.
use asm.Prelude.{List, [], ◌∷◌, ◌++◌, Option}
use asm.Text.{Bytes}
use asm.Register.{Isa, isa_6809, isa_6309}
use asm.Dict.{Dict, dict_str_equal_case, dict_lookup, dict_insert}
use asm.Opcode.{Opcode}
use asm.Opcode.Mc6809.{memory_and_branches, accumulators, other_pages}
use asm.Opcode.Hd6309.{on_registers, on_w_and_bits, on_e_and_f}

abbrev pub opcodes_6809 : List Opcode
opcodes_6809 = memory_and_branches ++ accumulators ++ other_pages

abbrev pub opcodes_6309 : List Opcode
opcodes_6309 = on_registers ++ on_w_and_bits ++ on_e_and_f

-- The rows in the order in which they are inserted.
abbrev pub rows_of : Isa → List Opcode
rows_of isa_6309 = opcodes_6309 ++ opcodes_6809
rows_of isa_6809 = opcodes_6809

unfoldable pub insert_rows : List Opcode → Dict Bytes Opcode → Dict Bytes Opcode
insert_rows [] d = d
insert_rows (row ∷ rows) d = insert_rows rows (dict_insert dict_str_equal_case d row.op row)

unfoldable pub opcode_init : Isa → Dict Bytes Opcode
unfolding insert_rows
opcode_init isa = insert_rows (rows_of isa) []

unfoldable pub opcode_by_name : Dict Bytes Opcode → Bytes → Option Opcode
opcode_by_name opcodes name = dict_lookup dict_str_equal_case opcodes name
