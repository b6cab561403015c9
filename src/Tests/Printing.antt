-- ===== src/Tests/Printing.antt =====
-- What is looked up, listed and printed.
use mathlib.Core.List.{Memᴰ}
use asm.Prelude.{
  if◌then◌else◌, ◌≡◌, ◌↔◌, all, length, refl, arith, true, some, List, [], ◌∷◌, ◌++◌, ◌≤◌, ◌%◌,
}
use asm.Prelude.Int.{pos, negsuc, int32, ◌+ℤ◌, eqb_ℤ}
use asm.Text.{Bytes, bytes}
use asm.Error.{inconsistent, illegal, rank, verror, no_errors}
use asm.Error.Level.{Call, run}
use asm.Error.Print.{error_print_list}
use asm.Error.Print.Shown.{Told, error_print_list-run}
use asm.Register.{isa_6809}
use asm.Node.{attr_none, attr_immediate, node, int}
use asm.Node.New.{node_new_oper_2, node_new_oper_3}
use asm.Node.Print.Number.{is_decimal}
use asm.Node.Print.{Printer, node_print, opstr}
use asm.Section.{Span, Asm, section_emit, append_bytes, choose_span}
use asm.Output.Hex.{hex_bytes}
use asm.Listing.{data_column, instruction_line, data_line}
use asm.Listing.Columns.{data_column-emit_all}
use asm.Listing.Grown.{emit_all}
use asm.Tests.Fixtures.{midway}
use asm.Opcode.Row.{one_form, in_memory}
use asm.Opcode.Tables.{opcode_by_name, opcode_init, rows_of}
use asm.Opcode.Lookup.{opcode_by_name-opcode_init}
use asm.Assemble.Instruction.{no_encoder, encoder_of}
use asm.Assemble.Dispatch.{not_encoded, encoder_of-no_encoder}
use asm.Assemble.World.{World}
use asm.Assemble.Export.{print_symbol}
use asm.Assemble.Export.Numbers.{print_symbol-number}
use asm.Eval.Expression.{decimal_from, print_int}
use asm.Dict.{dict_lookup, dict_str_equal}
use asm.Tests.Worlds.{small, start}

neg_row : Memᴰ (in_memory "neg" 0 0x60 0x70) (rows_of isa_6809)
neg_row = Memᴰ.head refl

opcode_by_name-opcode_init_example :
    opcode_by_name (opcode_init isa_6809) (bytes "Neg") ≡ some (in_memory "neg" 0 0x60 0x70)
opcode_by_name-opcode_init_example =
    opcode_by_name-opcode_init isa_6809 (in_memory "neg" 0 0x60 0x70) (bytes "Neg") neg_row refl

encoder_of-no_encoder_example :
    (encoder_of (one_form "orcc" 16 0x1a) attr_none ≡ no_encoder)
    ↔ (not_encoded (one_form "orcc" 16 0x1a) attr_none ≡ true)
encoder_of-no_encoder_example = encoder_of-no_encoder isa_6809 (one_form "orcc" 16 0x1a) attr_none (
    Memᴰ.tail (
      Memᴰ.tail (
        Memᴰ.tail (
          Memᴰ.tail (
            Memᴰ.tail (
              Memᴰ.tail (
                Memᴰ.tail (
                  Memᴰ.tail (
                    Memᴰ.tail (
                      Memᴰ.tail (
                        Memᴰ.tail (
                          Memᴰ.tail (
                            Memᴰ.tail (
                              Memᴰ.tail (
                                Memᴰ.tail (
                                  Memᴰ.tail (Memᴰ.tail (Memᴰ.tail (Memᴰ.head refl)))))))))))))))))))

-- Two bytes behind those of the first span.
abbrev emitted_span : Span
emitted_span = record {
  sequence = 0;
  org = pos 0x4000;
  put = 0x4000;
  allocated = 128;
  data_bytes = 0x12 ∷ 0x12 ∷ 1 ∷ 0xa2 ∷ [];
}

abbrev emitted : Asm
emitted = emit_all ((1 ∷ []) ∷ (0xa2 ∷ []) ∷ []) midway

emit_all-span : emitted.cur.span ≡ some emitted_span
unfolding emit_all section_emit append_bytes choose_span int32 ◌+ℤ◌
emit_all-span = refl

data_column-emit_all_example :
    (data_column (λ i. 0) (instruction_line midway emitted (bytes "fcb 1,$a2"))
      ≡ hex_bytes (1 ∷ 0xa2 ∷ []))
    × (data_column (λ i. 0) (data_line midway emitted (bytes "fcb 1,$a2")) ≡ (
        if eqb_ℤ emitted.cur.pc (int32 (pos emitted.cur.put))
        then hex_bytes (1 ∷ 0xa2 ∷ [])
        else []))
data_column-emit_all_example =
    data_column-emit_all (λ i. 0) (1 ∷ []) ((0xa2 ∷ []) ∷ []) midway (bytes "fcb 1,$a2") 0x4002
      emitted_span refl (omega arith) emit_all-span (omega arith) (λ e. absurd (omega (arith, e)))

abbrev unstable : List Call
unstable =
    (illegal, some "illegal combination of registers")
    ∷ (inconsistent, some "value of '%s' unstable")
    ∷ []

unstable-level : 3 ≤ rank (run unstable no_errors).level
unfolding verror
unstable-level = omega arith

error_print_list-run_example :
    Told
      (λ r. [])
      unstable
      (rank (run unstable no_errors).level)
      (error_print_list (λ r. []) (negsuc 0) (run unstable no_errors)).0
error_print_list-run_example =
    error_print_list-run (λ r. []) (negsuc 0) unstable refl unstable-level

abbrev printer : Printer
printer = record { isa = isa_6809; tokens = small.tokens; float_text = λ v. []; null_text = [] }

-- One symbol, size, that is 650.
abbrev one_symbol : World
one_symbol = record start {
  symbols =
      record {
        key = bytes "size";
        value = record { pass = 1; node = node (int (pos 650)) attr_immediate };
      }
      ∷ [];
}

size_there :
    dict_lookup dict_str_equal one_symbol.symbols (bytes "size")
    ≡ some (record { pass = 1; node = node (int (pos 650)) attr_immediate })
unfolding dict_lookup
size_there = refl

print_symbol-number_example :
    (digits : Bytes) × (print_symbol printer small (bytes "size") ([], one_symbol)
      ≡ (bytes "size" ++ bytes "\tequ\t" ++ digits ++ bytes "\n", one_symbol))
    × (all is_decimal digits ≡ true)
    × (1 ≤ length digits)
    × (decimal_from 0 digits ≡ 650)
print_symbol-number_example =
    print_symbol-number printer small (bytes "size") 650 19 1 attr_immediate [] one_symbol refl
      (omega arith) size_there

-- An operator of two characters is printed as one, and a choice as nothing.
operators_test :
    node_print printer (
      node_new_oper_2 small.tokens.le (node (int (pos 1)) attr_none) (
        node_new_oper_3 b'?'
          (node (int (pos 1)) attr_none)
          (node (int (pos 2)) attr_none)
          (node (int (pos 3)) attr_none)))
    ≡ bytes "(1" ++ 302 % 256 ∷ bytes "())"
unfolding node_print node_new_oper_2 node_new_oper_3 print_int opstr
operators_test = refl
