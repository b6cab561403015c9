-- ===== src/Node.antt =====
-- src/node.c and src/node.h: the nodes that a line's label, opcode and arguments are made of.
-- A node is immutable here: reference counts and `node_free` are not modelled, and `node_ref` is
-- the identity. A null pointer is the node `undef`, as in the source's type `node_type_undef`.
-- A double is its 64-bit pattern.
pub mod New
pub mod Print
use asm.Prelude.{
  ℕ, ◌≡◌, refl, ap, Bool, true, false, List, [], ◌∷◌, ◌++◌, ◌==◌, length, if◌then◌else◌,
}
use asm.Prelude.Int.{ℤ, eqb_ℤ}
use asm.Text.{Bytes, bytes_eq}
use asm.Register.{RegId, same_reg}

-- enum node_attr
pub data Attr : Type 0 where
  attr_undef attr_none attr_5bit attr_8bit attr_16bit attr_immediate : Attr
  attr_postinc attr_postinc2 attr_predec attr_predec2 attr_postdec : Attr

-- one more than the number of the enumerator
abbrev pub attr_num : Attr → ℕ
attr_num attr_undef = 0
attr_num attr_none = 1
attr_num attr_5bit = 2
attr_num attr_8bit = 3
attr_num attr_16bit = 4
attr_num attr_immediate = 5
attr_num attr_postinc = 6
attr_num attr_postinc2 = 7
attr_num attr_predec = 8
attr_num attr_predec2 = 9
attr_num attr_postdec = 10

unfoldable pub same_attr : Attr → Attr → Bool
same_attr a b = attr_num a == attr_num b

-- enum node_type
pub data NodeType : Type 0 where
  type_undef type_empty type_int type_float type_reg type_string : NodeType
  type_pc type_backref type_fwdref type_interp type_id type_text type_oper type_array : NodeType

abbrev pub type_num : NodeType → ℕ
type_num type_undef = 0
type_num type_empty = 1
type_num type_int = 2
type_num type_float = 3
type_num type_reg = 4
type_num type_string = 5
type_num type_pc = 6
type_num type_backref = 7
type_num type_fwdref = 8
type_num type_interp = 9
type_num type_id = 10
type_num type_text = 11
type_num type_oper = 12
type_num type_array = 13

unfoldable pub same_type : NodeType → NodeType → Bool
same_type a b = type_num a == type_num b

-- struct node: its data and its attribute
mutual
  pub data Node : Type 0 where
    undef : Node
    node : Content → Attr → Node

  -- the field `type` with the member of the union `data` that belongs to it
  pub data Content : Type 0 where
    empty : Content
    int : ℤ → Content
    float : ℕ → Content
    reg : RegId → Content
    string : Bytes → Content
    pc : Content
    backref fwdref : ℤ → Content
    interp : Bytes → Content
    id text : Nodes → Content
    oper : ℕ → Nodes → Content
    array : Nodes → Content

  pub data Nodes : Type 0 where
    nil : Nodes
    cons : Node → Nodes → Nodes

abbrev pub to_list : Nodes → List Node
to_list nil = []
to_list (cons n ns) = n ∷ to_list ns

abbrev pub of_list : List Node → Nodes
of_list [] = nil
of_list (n ∷ ns) = cons n (of_list ns)

pub to_list-of_list : (l : List Node) → to_list (of_list l) ≡ l
to_list-of_list [] = refl
to_list-of_list (n ∷ ns) = ap (◌∷◌ n) (to_list-of_list ns)

abbrev pub content_type : Content → NodeType
content_type empty = type_empty
content_type (int v) = type_int
content_type (float v) = type_float
content_type (reg r) = type_reg
content_type (string s) = type_string
content_type pc = type_pc
content_type (backref v) = type_backref
content_type (fwdref v) = type_fwdref
content_type (interp s) = type_interp
content_type (id l) = type_id
content_type (text l) = type_text
content_type (oper o args) = type_oper
content_type (array args) = type_array

abbrev pub node_type_of : Node → NodeType
node_type_of undef = type_undef
node_type_of (node c a) = content_type c

abbrev pub node_attr_of : Node → Attr
node_attr_of undef = attr_undef
node_attr_of (node c a) = a

abbrev pub array_content : Content → List Node
array_content (array args) = to_list args
array_content _ = []

-- the arguments of an array; of any other node there are none
abbrev pub node_array_of : Node → List Node
node_array_of undef = []
node_array_of (node c a) = array_content c

abbrev pub node_array_count : Node → ℕ
node_array_count n = length (node_array_of n)

abbrev pub node_set_attr : Node → Attr → Node
node_set_attr undef attr = undef
node_set_attr (node c a) attr = node c attr

-- the `switch` on the old attribute
abbrev keeps_attr : Attr → Bool
keeps_attr attr_postinc = true
keeps_attr attr_postinc2 = true
keeps_attr attr_predec = true
keeps_attr attr_predec2 = true
keeps_attr attr_postdec = true
keeps_attr _ = false

unfoldable pub node_set_attr_if : Node → Attr → Node
unfolding same_attr
node_set_attr_if undef attr = undef
node_set_attr_if (node c a) attr =
    if same_attr attr attr_none
    then (if keeps_attr a then node c a else node c attr)
    else node c attr

-- The comparison of two doubles is a parameter.
unfoldable pub node_equal : (ℕ → ℕ → Bool) → Node → Node → Bool
unfolding same_reg
node_equal float_eq (node (float x) _) (node (float y) _) = float_eq x y
node_equal float_eq (node (int x) _) (node (int y) _) = eqb_ℤ x y
node_equal float_eq (node (reg x) _) (node (reg y) _) = same_reg x y
node_equal float_eq (node (string x) _) (node (string y) _) = bytes_eq x y
node_equal float_eq _ _ = false

-- `node_array_push`; a null array is a new one
unfoldable pub node_array_push : Node → Node → Node
node_array_push undef n = node (array (cons n nil)) attr_none
node_array_push (node (array args) a) n = node (array (of_list (to_list args ++ n ∷ []))) a
node_array_push (node c a) n = node c a
