-- ===== src/Node/Print.antt =====
-- src/node.c, "Code exporting": the text that a node is printed as. The decimal form of a double, and
-- what is printed for a register that the instruction set does not have, are parameters.
pub mod Number
use asm.Prelude.{ℕ, ◌%◌, Option, none, some, List, [], ◌∷◌, ◌++◌, ◌==◌, if◌then◌else◌, String}
use asm.Prelude.Int.{ℤ}
use asm.Text.{Bytes, bytes}
use asm.Register.{Isa, reg_id_to_name}
use asm.Node.{
  Node, undef, node, Content, empty, int, float, reg, string, pc, backref, fwdref, interp, id, text,
  oper, array, Nodes, nil, cons, Attr, attr_5bit, attr_8bit, attr_16bit, attr_immediate,
  attr_predec, attr_predec2, attr_postinc, attr_postinc2, attr_postdec,
}
use asm.Eval.Operator.{Tokens}
use asm.Eval.Expression.{print_int}

pub record Printer : Type 0 where
  pub isa : Isa
  pub tokens : Tokens
  pub float_text : ℕ → Bytes
  pub null_text : Bytes

-- the string of one character, which is empty for the character 0
abbrev one_char : ℕ → Bytes
one_char c = if c == 0 then [] else c ∷ []

unfoldable pub opstr : Tokens → ℕ → Bytes
opstr t op =
    if op == t.shl then bytes "<<" else (if op == t.shr then bytes ">>" else one_char (op % 256))

-- the first switch on the attribute
abbrev attr_before : Attr → Bytes
attr_before attr_5bit = bytes "<<"
attr_before attr_8bit = bytes "<"
attr_before attr_16bit = bytes ">"
attr_before attr_immediate = bytes "#"
attr_before attr_predec = bytes "-"
attr_before attr_predec2 = bytes "--"
attr_before _ = []

-- the second one
abbrev attr_after : Attr → Bytes
attr_after attr_postinc = bytes "+"
attr_after attr_postinc2 = bytes "++"
attr_after attr_postdec = bytes "-"
attr_after _ = []

abbrev name_text : Bytes → Option Bytes → Bytes
name_text null_text none = null_text
name_text null_text (some name) = name

module _ (p : Printer) where
  unfoldable mutual
    unfolding opstr print_int

    pub node_print : Node → Bytes
    node_print undef = []
    node_print (node c attr) = attr_before attr ++ print_content c ++ attr_after attr

    pub print_content : Content → Bytes
    print_content empty = []
    print_content (int v) = print_int v
    print_content (float v) = p.float_text v
    print_content (reg r) = name_text p.null_text (reg_id_to_name p.isa r)
    print_content (string s) = s
    print_content pc = bytes "*"
    print_content (backref v) = print_int v ++ bytes "B"
    print_content (fwdref v) = print_int v ++ bytes "F"
    print_content (interp s) = bytes "&{" ++ s ++ bytes "}"
    print_content (id l) = print_elements l
    print_content (text l) = bytes "/" ++ print_elements l ++ bytes "/"
    print_content (oper op args) = bytes "(" ++ print_oper op args ++ bytes ")"
    print_content (array args) = bytes "[" ++ print_args args ++ bytes "]"

    -- the loop over the elements of a text
    pub print_elements : Nodes → Bytes
    print_elements nil = []
    print_elements (cons n l) = node_print n ++ print_elements l

    -- one operand or two; nothing is printed of others
    pub print_oper : ℕ → Nodes → Bytes
    print_oper op (cons a nil) = opstr p.tokens op ++ node_print a
    print_oper op (cons a (cons b nil)) = node_print a ++ opstr p.tokens op ++ node_print b
    print_oper op _ = []

    -- the loop of node_print_array
    pub print_args : Nodes → Bytes
    print_args nil = []
    print_args (cons n nil) = node_print n
    print_args (cons n (cons m l)) = node_print n ++ bytes "," ++ print_args (cons m l)

  abbrev array_text : Content → Bytes
  array_text (array args) = print_args args
  array_text _ = []

  unfoldable pub node_print_array : Node → Bytes
  unfolding node_print
  node_print_array undef = []
  node_print_array (node c attr) = array_text c
