-- ===== src/Node/New.antt =====
-- src/node.c: the constructor functions of nodes.
use asm.Prelude.{ℕ, List, [], ◌∷◌}
use asm.Prelude.Int.{ℤ}
use asm.Text.{Bytes}
use asm.Register.{RegId}
use asm.Node.{
  Node, node, Content, empty, reg, string, pc, backref, fwdref, interp, id, text, oper, array, nil,
  of_list, attr_none,
}

abbrev node_new : Content → Node
node_new content = node content attr_none

unfoldable pub node_new_empty : Node
node_new_empty = node_new empty

-- The id is that of a register: REG_INVALID is not one here.
unfoldable pub node_new_reg : RegId → Node
node_new_reg r = node_new (reg r)

unfoldable pub node_new_string : Bytes → Node
node_new_string v = node_new (string v)

unfoldable pub node_new_pc : Node
node_new_pc = node_new pc

unfoldable pub node_new_backref : ℤ → Node
node_new_backref v = node_new (backref v)

unfoldable pub node_new_fwdref : ℤ → Node
node_new_fwdref v = node_new (fwdref v)

unfoldable pub node_new_interp : Bytes → Node
node_new_interp v = node_new (interp v)

unfoldable pub node_new_id : List Node → Node
node_new_id v = node_new (id (of_list v))

unfoldable pub node_new_text : List Node → Node
node_new_text v = node_new (text (of_list v))

-- node_new_oper_n, with the operands that the callers assign
abbrev node_new_oper_n : ℕ → List Node → Node
node_new_oper_n op args = node_new (oper op (of_list args))

unfoldable pub node_new_oper_1 : ℕ → Node → Node
node_new_oper_1 op a1 = node_new_oper_n op (a1 ∷ [])

unfoldable pub node_new_oper_2 : ℕ → Node → Node → Node
node_new_oper_2 op a1 a2 = node_new_oper_n op (a1 ∷ a2 ∷ [])

unfoldable pub node_new_oper_3 : ℕ → Node → Node → Node → Node
node_new_oper_3 op a1 a2 a3 = node_new_oper_n op (a1 ∷ a2 ∷ a3 ∷ [])

unfoldable pub node_new_array : Node
node_new_array = node_new (array nil)
