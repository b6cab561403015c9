-- ===== src/Assemble/Instruction.antt =====
-- src/assemble.c: the encoder that a real instruction is handed to, and the pseudo-operations that emit
-- or reserve data.
use asm.Prelude.{Bool, ◌&&◌, ◌||◌, Option, none, some, List, [], ◌∷◌, ◌==◌, if◌then◌else◌}
use asm.Prelude.Int.{negsuc}
use asm.Text.{Bytes, bytes}
use asm.Error.{syntax, fatal}
use asm.Register.{reg_u, reg_s}
use asm.Node.{
  Node, node, float, string, array, Attr, attr_undef, attr_immediate, same_attr, node_attr_of,
  node_array_of, to_list, of_list,
}
use asm.Section.{Asm, section_emit_uint8}
use asm.Dict.{Dict, dict_str_equal_case, dict_insert}
use asm.Opcode.{
  Opcode, ext_type, has_mode, opcode_direct, opcode_indexed, opcode_extended, opcode_inherent,
  opcode_imm8, opcode_imm16, opcode_imm32, opcode_imm8_mem, opcode_rel8, opcode_rel16,
  opcode_stacku, opcode_stacks, opcode_pair, opcode_tfm, opcode_reg_mem,
}
use asm.Eval.{eval_int}
use asm.Instr.{complain}
use asm.Instr.Immediate.{instr_inherent, instr_immediate}
use asm.Instr.Address.{instr_address, instr_imm8_mem}
use asm.Instr.Rel.{instr_rel}
use asm.Instr.Stack.{instr_stack}
use asm.Instr.Pair.{instr_pair, instr_tfm, instr_reg_mem}
use asm.Pseudo.{verify_num_args}
use asm.Pseudo.Address.{pseudo_rzb, pseudo_fill, pseudo_rmb, pseudo_align}
use asm.Pseudo.Data.{
  pseudo_fcb, pseudo_fcc, pseudo_fcn, pseudo_fcv, pseudo_fci, pseudo_fcs, pseudo_fdb, pseudo_fqb,
}
use asm.Assemble.World.{Outside}

abbrev first_attr : List Node → Attr
first_attr [] = attr_undef
first_attr (n ∷ l) = node_attr_of n

-- arg_attr(args, 0)
abbrev pub arg_attr : Node → Attr
arg_attr args = first_attr (node_array_of args)

-- Handlers in the tables, by the names of the functions.
pub data DataOp : Type 0 where
  op_fcb op_fcc op_fcn op_fcv op_fci op_fcs op_fdb op_fqb : DataOp
  op_rzb op_fill op_rmb op_align op_includebin : DataOp

abbrev pub insert_all {ℓ} : {H : Type ℓ} → List (Bytes × H) → Dict Bytes H → Dict Bytes H
insert_all [] d = d
insert_all ((name, handler) ∷ ops) d =
    insert_all ops (dict_insert dict_str_equal_case d name handler)

abbrev pub pseudo_data_dict : Dict Bytes DataOp
pseudo_data_dict =
    insert_all
      ((bytes "fcb", op_fcb)
        ∷ (bytes "fcc", op_fcc)
        ∷ (bytes "fcn", op_fcn)
        ∷ (bytes "fcv", op_fcv)
        ∷ (bytes "fci", op_fci)
        ∷ (bytes "fcs", op_fcs)
        ∷ (bytes "fdb", op_fdb)
        ∷ (bytes "fqb", op_fqb)
        ∷ (bytes "rzb", op_rzb)
        ∷ (bytes "fzb", op_rzb)
        ∷ (bytes "zmb", op_rzb)
        ∷ (bytes "bsz", op_rzb)
        ∷ (bytes "fill", op_fill)
        ∷ (bytes "rmb", op_rmb)
        ∷ (bytes "align", op_align)
        ∷ (bytes "includebin", op_includebin)
        ∷ [])
      []

-- the loop over the bytes of a file
unfoldable pub emit_file : Bytes → Asm → Asm
emit_file [] a = a
emit_file (c ∷ s) a = emit_file s (section_emit_uint8 c a)

module _ (o : Outside) where
  abbrev float_arg : Node → Node
  float_arg (node (float v) attr) = eval_int o.machine.to_int (node (float v) attr)
  float_arg n = n

  abbrev floats_to_int : List Node → List Node
  floats_to_int [] = []
  floats_to_int (n ∷ l) = float_arg n ∷ floats_to_int l

  unfoldable pub args_float_to_int : Node → Node
  unfolding eval_int
  args_float_to_int (node (array args) attr) =
      node (array (of_list (floats_to_int (to_list args)))) attr
  args_float_to_int n = n

  abbrev binary_file : Option Bytes → Asm → Asm
  binary_file none a = complain fatal "file not found: %s" a
  binary_file (some s) a = emit_file s a

  abbrev include_bytes : List Node → Asm → Asm
  include_bytes (node (string name) attr ∷ args) a = binary_file (o.read_file name) a
  include_bytes l a = complain syntax "invalid argument to INCLUDEBIN" a

  unfoldable pub pseudo_includebin : Node → Asm → Asm
  unfolding emit_file
  pseudo_includebin args a = verify_num_args 1 (some 1) include_bytes args a

  unfoldable pub run_data_op : DataOp → Node → Asm → Asm
  unfolding pseudo_includebin
  run_data_op op_fcb args a = pseudo_fcb o.machine.to_int o.float_to_int32 args a
  run_data_op op_fcc args a = pseudo_fcc o.machine.to_int o.float_to_int32 args a
  run_data_op op_fcn args a = pseudo_fcn o.machine.to_int o.float_to_int32 args a
  run_data_op op_fcv args a = pseudo_fcv o.machine.to_int o.float_to_int32 args a
  run_data_op op_fci args a = pseudo_fci o.machine.to_int o.float_to_int32 args a
  run_data_op op_fcs args a = pseudo_fcs o.machine.to_int o.float_to_int32 args a
  run_data_op op_fdb args a = pseudo_fdb o.machine.to_int o.float_to_int32 args a
  run_data_op op_fqb args a = pseudo_fqb o.machine.to_int o.float_to_int32 args a
  run_data_op op_rzb args a = pseudo_rzb o.machine.to_int args a
  run_data_op op_fill args a = pseudo_fill o.machine.to_int args a
  run_data_op op_rmb args a = pseudo_rmb o.machine.to_int args a
  run_data_op op_align args a = pseudo_align o.machine.to_int args a
  run_data_op op_includebin args a = pseudo_includebin args a

-- op->type & OPCODE_MEM
abbrev pub takes_memory : Opcode → Bool
takes_memory op =
    has_mode opcode_direct op || has_mode opcode_indexed op || has_mode opcode_extended op

-- the encoders
pub data Encoder : Type 0 where
  inherent immediate imm8_mem address rel stack_u stack_s pair tfm reg_mem no_encoder : Encoder

-- The tests on the type of the opcode, in their order; the attribute is that of the first argument as it
-- was written.
unfoldable pub encoder_of : Opcode → Attr → Encoder
unfolding ext_type has_mode same_attr
encoder_of op attr =
    let t = ext_type op in
    if op.type == opcode_inherent
    then inherent
    else (if (t == opcode_imm8 || t == opcode_imm16 || t == opcode_imm32)
          && same_attr attr attr_immediate
        then immediate
        else (if t == opcode_imm8_mem
            then imm8_mem
            else (if takes_memory op
                then address
                else (if t == opcode_rel8 || t == opcode_rel16
                    then rel
                    else (if t == opcode_stacku
                        then stack_u
                        else (if t == opcode_stacks
                            then stack_s
                            else (if t == opcode_pair
                                then pair
                                else (if t == opcode_tfm
                                    then tfm
                                    else (if t == opcode_reg_mem
                                        then reg_mem
                                        else no_encoder)))))))))

module _ (o : Outside) where
  unfoldable pub run_encoder : Encoder → Opcode → Node → Asm → Asm
  run_encoder inherent op args a = instr_inherent op args a
  run_encoder immediate op args a = instr_immediate o.machine.to_int op args a
  run_encoder imm8_mem op args a = instr_imm8_mem o.machine.to_int op args a
  run_encoder address op args a = instr_address o.machine.to_int op args (negsuc 0) a
  run_encoder rel op args a = instr_rel op args a
  run_encoder stack_u op args a = instr_stack op args reg_u a
  run_encoder stack_s op args a = instr_stack op args reg_s a
  run_encoder pair op args a = instr_pair o.junk0 o.junk1 op args a
  run_encoder tfm op args a = instr_tfm o.junk0 o.junk1 op args a
  run_encoder reg_mem op args a = instr_reg_mem op args a
  run_encoder no_encoder op args a = complain syntax "invalid addressing mode" a

  -- An instruction, with its arguments as written and as evaluated.
  unfoldable pub run_instruction : Opcode → Node → Node → Asm → Asm
  unfolding encoder_of run_encoder args_float_to_int
  run_instruction op written args a =
      run_encoder (encoder_of op (arg_attr written)) op (args_float_to_int o args) a
