-- ===== src/Opcode/Hd6309.antt =====
-- src/opcode.c: the table of what the HD6309 adds, in three parts.
use asm.Prelude.{[], ◌∷◌, List, bit_or}
use asm.Opcode.{
  Opcode, opcode_imm16, opcode_imm32, opcode_imm8, opcode_imm8_mem, opcode_inherent, opcode_pair,
  opcode_reg_mem, opcode_tfm,
}
use asm.Opcode.Row.{in_memory, one_form, opcode_mem, opcode_row}

-- From OIM to TSTW and CLRW.
abbrev pub on_registers : List Opcode
on_registers =
    opcode_row "oim" (bit_or opcode_imm8_mem opcode_mem) 0 0x1 0x61 0x71
    ∷ opcode_row "aim" (bit_or opcode_imm8_mem opcode_mem) 0 0x2 0x62 0x72
    ∷ opcode_row "eim" (bit_or opcode_imm8_mem opcode_mem) 0 0x5 0x65 0x75
    ∷ opcode_row "tim" (bit_or opcode_imm8_mem opcode_mem) 0 0xb 0x6b 0x7b
    ∷ one_form "sexw" opcode_inherent 0x14
    ∷ opcode_row "ldq" (bit_or opcode_imm32 opcode_mem) 0xcd 0x10dc 0x10ec 0x10fc
    ∷ one_form "addr" opcode_pair 0x1030
    ∷ one_form "adcr" opcode_pair 0x1031
    ∷ one_form "subr" opcode_pair 0x1032
    ∷ one_form "sbcr" opcode_pair 0x1033
    ∷ one_form "andr" opcode_pair 0x1034
    ∷ one_form "orr" opcode_pair 0x1035
    ∷ one_form "eorr" opcode_pair 0x1036
    ∷ one_form "cmpr" opcode_pair 0x1037
    ∷ one_form "pshsw" opcode_inherent 0x1038
    ∷ one_form "pulsw" opcode_inherent 0x1039
    ∷ one_form "pshuw" opcode_inherent 0x103a
    ∷ one_form "puluw" opcode_inherent 0x103b
    ∷ one_form "negd" opcode_inherent 0x1040
    ∷ one_form "comd" opcode_inherent 0x1043
    ∷ one_form "lsrd" opcode_inherent 0x1044
    ∷ one_form "rord" opcode_inherent 0x1046
    ∷ one_form "asrd" opcode_inherent 0x1047
    ∷ one_form "lsld" opcode_inherent 0x1048
    ∷ one_form "asld" opcode_inherent 0x1048
    ∷ one_form "rold" opcode_inherent 0x1049
    ∷ one_form "decd" opcode_inherent 0x104a
    ∷ one_form "incd" opcode_inherent 0x104c
    ∷ one_form "tstd" opcode_inherent 0x104d
    ∷ one_form "clrd" opcode_inherent 0x104f
    ∷ one_form "comw" opcode_inherent 0x1053
    ∷ one_form "lsrw" opcode_inherent 0x1054
    ∷ one_form "rorw" opcode_inherent 0x1056
    ∷ one_form "rolw" opcode_inherent 0x1059
    ∷ one_form "decw" opcode_inherent 0x105a
    ∷ one_form "incw" opcode_inherent 0x105c
    ∷ one_form "tstw" opcode_inherent 0x105d
    ∷ one_form "clrw" opcode_inherent 0x105f
    ∷ []

-- From SUBW to LDMD.
abbrev pub on_w_and_bits : List Opcode
on_w_and_bits =
    opcode_row "subw" (bit_or opcode_imm16 opcode_mem) 0x1080 0x1090 0x10a0 0x10b0
    ∷ opcode_row "cmpw" (bit_or opcode_imm16 opcode_mem) 0x1081 0x1091 0x10a1 0x10b1
    ∷ opcode_row "sbcd" (bit_or opcode_imm16 opcode_mem) 0x1082 0x1092 0x10a2 0x10b2
    ∷ opcode_row "andd" (bit_or opcode_imm16 opcode_mem) 0x1084 0x1094 0x10a4 0x10b4
    ∷ opcode_row "bitd" (bit_or opcode_imm16 opcode_mem) 0x1085 0x1095 0x10a5 0x10b5
    ∷ opcode_row "ldw" (bit_or opcode_imm16 opcode_mem) 0x1086 0x1096 0x10a6 0x10b6
    ∷ in_memory "stw" 0x1097 0x10a7 0x10b7
    ∷ opcode_row "eord" (bit_or opcode_imm16 opcode_mem) 0x1088 0x1098 0x10a8 0x10b8
    ∷ opcode_row "adcd" (bit_or opcode_imm16 opcode_mem) 0x1089 0x1099 0x10a9 0x10b9
    ∷ opcode_row "ord" (bit_or opcode_imm16 opcode_mem) 0x108a 0x109a 0x10aa 0x10ba
    ∷ opcode_row "addw" (bit_or opcode_imm16 opcode_mem) 0x108b 0x109b 0x10ab 0x10bb
    ∷ in_memory "stq" 0x10dd 0x10ed 0x10fd
    ∷ opcode_row "band" opcode_reg_mem 0 0x1130 0 0
    ∷ opcode_row "biand" opcode_reg_mem 0 0x1131 0 0
    ∷ opcode_row "bor" opcode_reg_mem 0 0x1132 0 0
    ∷ opcode_row "bior" opcode_reg_mem 0 0x1133 0 0
    ∷ opcode_row "beor" opcode_reg_mem 0 0x1134 0 0
    ∷ opcode_row "bieor" opcode_reg_mem 0 0x1135 0 0
    ∷ opcode_row "ldbt" opcode_reg_mem 0 0x1136 0 0
    ∷ opcode_row "stbt" opcode_reg_mem 0 0x1137 0 0
    ∷ one_form "tfm" opcode_tfm 0x1138
    ∷ one_form "bitmd" opcode_imm8 0x113c
    ∷ one_form "ldmd" opcode_imm8 0x113d
    ∷ []

-- From COME to ADDF.
abbrev pub on_e_and_f : List Opcode
on_e_and_f =
    one_form "come" opcode_inherent 0x1143
    ∷ one_form "dece" opcode_inherent 0x114a
    ∷ one_form "ince" opcode_inherent 0x114c
    ∷ one_form "tste" opcode_inherent 0x114d
    ∷ one_form "clre" opcode_inherent 0x114f
    ∷ one_form "comf" opcode_inherent 0x1153
    ∷ one_form "decf" opcode_inherent 0x115a
    ∷ one_form "incf" opcode_inherent 0x115c
    ∷ one_form "tstf" opcode_inherent 0x115d
    ∷ one_form "clrf" opcode_inherent 0x115f
    ∷ opcode_row "sube" (bit_or opcode_imm8 opcode_mem) 0x1180 0x1190 0x11a0 0x11b0
    ∷ opcode_row "cmpe" (bit_or opcode_imm8 opcode_mem) 0x1181 0x1191 0x11a1 0x11b1
    ∷ opcode_row "lde" (bit_or opcode_imm8 opcode_mem) 0x1186 0x1196 0x11a6 0x11b6
    ∷ in_memory "ste" 0x1197 0x11a7 0x11b7
    ∷ opcode_row "adde" (bit_or opcode_imm8 opcode_mem) 0x118b 0x119b 0x11ab 0x11bb
    ∷ opcode_row "divd" (bit_or opcode_imm8 opcode_mem) 0x118d 0x119d 0x11ad 0x11bd
    ∷ opcode_row "divq" (bit_or opcode_imm16 opcode_mem) 0x118e 0x119e 0x11ae 0x11be
    ∷ opcode_row "muld" (bit_or opcode_imm16 opcode_mem) 0x118f 0x119f 0x11af 0x11bf
    ∷ opcode_row "subf" (bit_or opcode_imm8 opcode_mem) 0x11c0 0x11d0 0x11e0 0x11f0
    ∷ opcode_row "cmpf" (bit_or opcode_imm8 opcode_mem) 0x11c1 0x11d1 0x11e1 0x11f1
    ∷ opcode_row "ldf" (bit_or opcode_imm8 opcode_mem) 0x11c6 0x11d6 0x11e6 0x11f6
    ∷ in_memory "stf" 0x11d7 0x11e7 0x11f7
    ∷ opcode_row "addf" (bit_or opcode_imm8 opcode_mem) 0x11cb 0x11db 0x11eb 0x11fb
    ∷ []
