-- ===== src/Opcode/Mc6809.antt =====
-- src/opcode.c: the table of the MC6809, in three parts.
use asm.Prelude.{[], ◌∷◌, List, bit_or}
use asm.Opcode.{
  Opcode, opcode_imm16, opcode_imm8, opcode_indexed, opcode_inherent, opcode_pair, opcode_rel16,
  opcode_rel8, opcode_stacks, opcode_stacku,
}
use asm.Opcode.Row.{in_memory, one_form, opcode_mem, opcode_row}

-- From NEG to SWI.
abbrev pub memory_and_branches : List Opcode
memory_and_branches =
    in_memory "neg" 0 0x60 0x70
    ∷ in_memory "com" 0x3 0x63 0x73
    ∷ in_memory "lsr" 0x4 0x64 0x74
    ∷ in_memory "ror" 0x6 0x66 0x76
    ∷ in_memory "asr" 0x7 0x67 0x77
    ∷ in_memory "asl" 0x8 0x68 0x78
    ∷ in_memory "lsl" 0x8 0x68 0x78
    ∷ in_memory "rol" 0x9 0x69 0x79
    ∷ in_memory "dec" 0xa 0x6a 0x7a
    ∷ in_memory "inc" 0xc 0x6c 0x7c
    ∷ in_memory "tst" 0xd 0x6d 0x7d
    ∷ in_memory "jmp" 0xe 0x6e 0x7e
    ∷ in_memory "clr" 0xf 0x6f 0x7f
    ∷ one_form "nop" opcode_inherent 0x12
    ∷ one_form "sync" opcode_inherent 0x13
    ∷ one_form "lbra" opcode_rel16 0x16
    ∷ one_form "lbsr" opcode_rel16 0x17
    ∷ one_form "daa" opcode_inherent 0x19
    ∷ one_form "orcc" opcode_imm8 0x1a
    ∷ one_form "andcc" opcode_imm8 0x1c
    ∷ one_form "sex" opcode_inherent 0x1d
    ∷ one_form "exg" opcode_pair 0x1e
    ∷ one_form "tfr" opcode_pair 0x1f
    ∷ one_form "bra" opcode_rel8 0x20
    ∷ one_form "brn" opcode_rel8 0x21
    ∷ one_form "bhi" opcode_rel8 0x22
    ∷ one_form "bls" opcode_rel8 0x23
    ∷ one_form "bcc" opcode_rel8 0x24
    ∷ one_form "bhs" opcode_rel8 0x24
    ∷ one_form "bcs" opcode_rel8 0x25
    ∷ one_form "blo" opcode_rel8 0x25
    ∷ one_form "bne" opcode_rel8 0x26
    ∷ one_form "beq" opcode_rel8 0x27
    ∷ one_form "bvc" opcode_rel8 0x28
    ∷ one_form "bvs" opcode_rel8 0x29
    ∷ one_form "bpl" opcode_rel8 0x2a
    ∷ one_form "bmi" opcode_rel8 0x2b
    ∷ one_form "bge" opcode_rel8 0x2c
    ∷ one_form "blt" opcode_rel8 0x2d
    ∷ one_form "bgt" opcode_rel8 0x2e
    ∷ one_form "ble" opcode_rel8 0x2f
    ∷ opcode_row "leax" opcode_indexed 0 0 0x30 0
    ∷ opcode_row "leay" opcode_indexed 0 0 0x31 0
    ∷ opcode_row "leas" opcode_indexed 0 0 0x32 0
    ∷ opcode_row "leau" opcode_indexed 0 0 0x33 0
    ∷ one_form "pshs" opcode_stacks 0x34
    ∷ one_form "puls" opcode_stacks 0x35
    ∷ one_form "pshu" opcode_stacku 0x36
    ∷ one_form "pulu" opcode_stacku 0x37
    ∷ one_form "rts" opcode_inherent 0x39
    ∷ one_form "abx" opcode_inherent 0x3a
    ∷ one_form "rti" opcode_inherent 0x3b
    ∷ one_form "cwai" opcode_imm8 0x3c
    ∷ one_form "mul" opcode_inherent 0x3d
    ∷ one_form "swi" opcode_inherent 0x3f
    ∷ []

-- From NEGA to STU.
abbrev pub accumulators : List Opcode
accumulators =
    one_form "nega" opcode_inherent 0x40
    ∷ one_form "coma" opcode_inherent 0x43
    ∷ one_form "lsra" opcode_inherent 0x44
    ∷ one_form "rora" opcode_inherent 0x46
    ∷ one_form "asra" opcode_inherent 0x47
    ∷ one_form "asla" opcode_inherent 0x48
    ∷ one_form "lsla" opcode_inherent 0x48
    ∷ one_form "rola" opcode_inherent 0x49
    ∷ one_form "deca" opcode_inherent 0x4a
    ∷ one_form "inca" opcode_inherent 0x4c
    ∷ one_form "tsta" opcode_inherent 0x4d
    ∷ one_form "clra" opcode_inherent 0x4f
    ∷ one_form "negb" opcode_inherent 0x50
    ∷ one_form "comb" opcode_inherent 0x53
    ∷ one_form "lsrb" opcode_inherent 0x54
    ∷ one_form "rorb" opcode_inherent 0x56
    ∷ one_form "asrb" opcode_inherent 0x57
    ∷ one_form "aslb" opcode_inherent 0x58
    ∷ one_form "lslb" opcode_inherent 0x58
    ∷ one_form "rolb" opcode_inherent 0x59
    ∷ one_form "decb" opcode_inherent 0x5a
    ∷ one_form "incb" opcode_inherent 0x5c
    ∷ one_form "tstb" opcode_inherent 0x5d
    ∷ one_form "clrb" opcode_inherent 0x5f
    ∷ opcode_row "suba" (bit_or opcode_imm8 opcode_mem) 0x80 0x90 0xa0 0xb0
    ∷ opcode_row "cmpa" (bit_or opcode_imm8 opcode_mem) 0x81 0x91 0xa1 0xb1
    ∷ opcode_row "sbca" (bit_or opcode_imm8 opcode_mem) 0x82 0x92 0xa2 0xb2
    ∷ opcode_row "subd" (bit_or opcode_imm16 opcode_mem) 0x83 0x93 0xa3 0xb3
    ∷ opcode_row "anda" (bit_or opcode_imm8 opcode_mem) 0x84 0x94 0xa4 0xb4
    ∷ opcode_row "bita" (bit_or opcode_imm8 opcode_mem) 0x85 0x95 0xa5 0xb5
    ∷ opcode_row "lda" (bit_or opcode_imm8 opcode_mem) 0x86 0x96 0xa6 0xb6
    ∷ opcode_row "ldaa" (bit_or opcode_imm8 opcode_mem) 0x86 0x96 0xa6 0xb6
    ∷ in_memory "sta" 0x97 0xa7 0xb7
    ∷ in_memory "staa" 0x97 0xa7 0xb7
    ∷ opcode_row "eora" (bit_or opcode_imm8 opcode_mem) 0x88 0x98 0xa8 0xb8
    ∷ opcode_row "adca" (bit_or opcode_imm8 opcode_mem) 0x89 0x99 0xa9 0xb9
    ∷ opcode_row "ora" (bit_or opcode_imm8 opcode_mem) 0x8a 0x9a 0xaa 0xba
    ∷ opcode_row "oraa" (bit_or opcode_imm8 opcode_mem) 0x8a 0x9a 0xaa 0xba
    ∷ opcode_row "adda" (bit_or opcode_imm8 opcode_mem) 0x8b 0x9b 0xab 0xbb
    ∷ opcode_row "cmpx" (bit_or opcode_imm16 opcode_mem) 0x8c 0x9c 0xac 0xbc
    ∷ opcode_row "cpx" (bit_or opcode_imm16 opcode_mem) 0x8c 0x9c 0xac 0xbc
    ∷ opcode_row "ldx" (bit_or opcode_imm16 opcode_mem) 0x8e 0x9e 0xae 0xbe
    ∷ in_memory "stx" 0x9f 0xaf 0xbf
    ∷ one_form "bsr" opcode_rel8 0x8d
    ∷ in_memory "jsr" 0x9d 0xad 0xbd
    ∷ opcode_row "subb" (bit_or opcode_imm8 opcode_mem) 0xc0 0xd0 0xe0 0xf0
    ∷ opcode_row "cmpb" (bit_or opcode_imm8 opcode_mem) 0xc1 0xd1 0xe1 0xf1
    ∷ opcode_row "sbcb" (bit_or opcode_imm8 opcode_mem) 0xc2 0xd2 0xe2 0xf2
    ∷ opcode_row "addd" (bit_or opcode_imm16 opcode_mem) 0xc3 0xd3 0xe3 0xf3
    ∷ opcode_row "andb" (bit_or opcode_imm8 opcode_mem) 0xc4 0xd4 0xe4 0xf4
    ∷ opcode_row "bitb" (bit_or opcode_imm8 opcode_mem) 0xc5 0xd5 0xe5 0xf5
    ∷ opcode_row "ldb" (bit_or opcode_imm8 opcode_mem) 0xc6 0xd6 0xe6 0xf6
    ∷ opcode_row "ldab" (bit_or opcode_imm8 opcode_mem) 0xc6 0xd6 0xe6 0xf6
    ∷ in_memory "stb" 0xd7 0xe7 0xf7
    ∷ in_memory "stab" 0xd7 0xe7 0xf7
    ∷ opcode_row "eorb" (bit_or opcode_imm8 opcode_mem) 0xc8 0xd8 0xe8 0xf8
    ∷ opcode_row "adcb" (bit_or opcode_imm8 opcode_mem) 0xc9 0xd9 0xe9 0xf9
    ∷ opcode_row "orb" (bit_or opcode_imm8 opcode_mem) 0xca 0xda 0xea 0xfa
    ∷ opcode_row "orab" (bit_or opcode_imm8 opcode_mem) 0xca 0xda 0xea 0xfa
    ∷ opcode_row "addb" (bit_or opcode_imm8 opcode_mem) 0xcb 0xdb 0xeb 0xfb
    ∷ opcode_row "ldd" (bit_or opcode_imm16 opcode_mem) 0xcc 0xdc 0xec 0xfc
    ∷ in_memory "std" 0xdd 0xed 0xfd
    ∷ opcode_row "ldu" (bit_or opcode_imm16 opcode_mem) 0xce 0xde 0xee 0xfe
    ∷ in_memory "stu" 0xdf 0xef 0xff
    ∷ []

-- From LBRN to CMPS, with page bytes.
abbrev pub other_pages : List Opcode
other_pages =
    one_form "lbrn" opcode_rel16 0x1021
    ∷ one_form "lbhi" opcode_rel16 0x1022
    ∷ one_form "lbls" opcode_rel16 0x1023
    ∷ one_form "lbcc" opcode_rel16 0x1024
    ∷ one_form "lbhs" opcode_rel16 0x1024
    ∷ one_form "lbcs" opcode_rel16 0x1025
    ∷ one_form "lblo" opcode_rel16 0x1025
    ∷ one_form "lbne" opcode_rel16 0x1026
    ∷ one_form "lbeq" opcode_rel16 0x1027
    ∷ one_form "lbvc" opcode_rel16 0x1028
    ∷ one_form "lbvs" opcode_rel16 0x1029
    ∷ one_form "lbpl" opcode_rel16 0x102a
    ∷ one_form "lbmi" opcode_rel16 0x102b
    ∷ one_form "lbge" opcode_rel16 0x102c
    ∷ one_form "lblt" opcode_rel16 0x102d
    ∷ one_form "lbgt" opcode_rel16 0x102e
    ∷ one_form "lble" opcode_rel16 0x102f
    ∷ one_form "swi2" opcode_inherent 0x103f
    ∷ opcode_row "cmpd" (bit_or opcode_imm16 opcode_mem) 0x1083 0x1093 0x10a3 0x10b3
    ∷ opcode_row "cmpy" (bit_or opcode_imm16 opcode_mem) 0x108c 0x109c 0x10ac 0x10bc
    ∷ opcode_row "ldy" (bit_or opcode_imm16 opcode_mem) 0x108e 0x109e 0x10ae 0x10be
    ∷ in_memory "sty" 0x109f 0x10af 0x10bf
    ∷ opcode_row "lds" (bit_or opcode_imm16 opcode_mem) 0x10ce 0x10de 0x10ee 0x10fe
    ∷ in_memory "sts" 0x10df 0x10ef 0x10ff
    ∷ one_form "swi3" opcode_inherent 0x113f
    ∷ opcode_row "cmpu" (bit_or opcode_imm16 opcode_mem) 0x1183 0x1193 0x11a3 0x11b3
    ∷ opcode_row "cmps" (bit_or opcode_imm16 opcode_mem) 0x118c 0x119c 0x11ac 0x11bc
    ∷ []
