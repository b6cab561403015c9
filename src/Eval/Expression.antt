-- ===== src/Eval/Expression.antt =====
-- eval_node and eval_string. What they read of the rest of the program is an `Env`: the current section
-- (its program counter and local labels), the symbols and the positional variables. Values are copies:
-- that an evaluated node may be shared with the table it came from is not modelled.
use asm.Prelude.{
  ℕ, zero, suc, ◌+◌, ◌-◌, ◌*◌, ◌/◌, ◌%◌, Bool, true, false, ◌&&◌, Option, none, some, List, [], ◌∷◌,
  ◌++◌, ltb, leb, ◌==◌, if◌then◌else◌,
}
use asm.Prelude.Int.{ℤ, pos, negsuc}
use asm.Text.{Bytes}
use asm.Error.{Errors, error, fatal}
use asm.Register.{Isa, reg_id_to_name}
use asm.Node.{
  Node, undef, node, Nodes, nil, cons, Content, int, reg, string, pc, backref, fwdref, interp, id,
  text, oper, array, Attr, attr_none, to_list, node_set_attr, node_set_attr_if, node_array_push,
}
use asm.Eval.Number.{Machine, is_true}
use asm.Eval.Operator.{
  Tokens, Oper1, Oper2, eval_int_free, is_string, number_if, number_of, oper1_of, oper2_of,
  apply_oper1, apply_oper2,
}

abbrev pub Result : Type 0
Result = Node × Errors

-- What an evaluation reads. `shared` tells of the condition of a `?` whether other references to its
-- value are held, since the count decides how a string is cast there.
pub record Env : Type 0 where
  pub machine : Machine
  pub tokens : Tokens
  pub isa : Isa
  pub section_pc : ℤ
  pub symbol_get : Bytes → Errors → Result
  pub interp_get : ℤ → Errors → Result
  pub local_backref : ℤ → Errors → Result
  pub local_fwdref : ℤ → Errors → Result
  pub shared : Node → Bool

-- strtol(s, NULL, 10), of the decimal digits at the start
abbrev pub decimal_from : ℕ → Bytes → ℕ
decimal_from value [] = value
decimal_from value (c ∷ s) =
    let rest = decimal_from (value * 10 + (c - b'0')) s in
    if leb b'0' c && leb c b'9' then rest else value

-- "%" PRId64: the digits of a number below 2 ^ 64 are at most twenty.
unfoldable pub digits : ℕ → ℕ → Bytes → Bytes
digits zero n s = s
digits (suc fuel) n s =
    let rest = digits fuel (n / 10) ((b'0' + n % 10) ∷ s) in
    if ltb n 10 then (b'0' + n) ∷ s else rest

unfoldable pub print_int : ℤ → Bytes
unfolding digits
print_int (pos n) = digits 20 n []
print_int (negsuc n) = b'-' ∷ digits 20 (n + 1) []

-- One element of a text: the bytes that are added, or none where the text is given up. The name of a
-- register is missing only where it is not in the instruction set.
abbrev pub element_text : Isa → Node → Option Bytes
element_text isa (node (string s) attr) = some s
element_text isa (node (int v) attr) = some (print_int v)
element_text isa (node (reg r) attr_none) = reg_id_to_name isa r
element_text isa _ = none

abbrev append_text : Option Bytes → Option Bytes → Option Bytes
append_text none more = none
append_text (some s) none = none
append_text (some s) (some t) = some (s ++ t)

abbrev pub string_of : Attr → Option Bytes → Node
string_of attr none = undef
string_of attr (some s) = node (string s) attr

abbrev pub is_undef : Node → Bool
is_undef undef = true
is_undef (node c attr) = false

-- A name that is a single positional variable.
abbrev pub single_interp : Nodes → Option Node
single_interp (cons (node (interp s) attr) nil) = some (node (interp s) attr)
single_interp _ = none

-- the code of '?'
abbrev pub question : ℕ
question = b'?'

-- The evaluation of a node, by that of the nodes below it and of the values of symbols.
module _ (env : Env) (eval : Node → Errors → Result) where
  abbrev machine : Machine
  machine = env.machine

  -- the loop of eval_string
  unfoldable pub eval_texts : List Node → Bytes → Errors → Option Bytes × Errors
  unfolding print_int
  eval_texts [] out e = (some out, e)
  eval_texts (elem ∷ l) out e = elim (element_text env.isa (eval elem e).0) [
    | none ↦ (none, (eval elem e).1)
    | some addtext ↦ eval_texts l (out ++ addtext) (eval elem e).1
  ]

  abbrev pub eval_string_of : Attr → Nodes → Errors → Result
  eval_string_of attr l e =
      let (out, after) = eval_texts (to_list l) [] e in (string_of attr out, after)

  abbrev pub eval_string_content : Content → Attr → Errors → Result
  eval_string_content (string s) attr e = (node (string s) attr, e)
  eval_string_content (id l) attr e = eval_string_of attr l e
  eval_string_content (text l) attr e = eval_string_of attr l e
  eval_string_content _ attr e = (undef, e)

  unfoldable pub eval_string : Node → Errors → Result
  unfolding eval_texts
  eval_string undef e = (undef, e)
  eval_string (node c attr) e = eval_string_content c attr e

  -- The value of the symbol whose name is given, evaluated.
  abbrev pub symbol_value : Option Bytes → Errors → Result
  symbol_value (some name) e = let (value, after) = env.symbol_get name e in eval value after
  symbol_value none e = (undef, e)

  abbrev pub with_attr_if : Attr → Result → Result
  with_attr_if attr (n, e) = (node_set_attr_if n attr, e)

  abbrev pub id_by : Option Node → Nodes → Attr → Errors → Result
  id_by (some arg) l attr e = with_attr_if attr (eval arg e)
  id_by none l attr e =
      let (name, named) = eval_texts (to_list l) [] e in with_attr_if attr (symbol_value name named)

  abbrev pub eval_id : Nodes → Attr → Errors → Result
  eval_id l attr e = id_by (single_interp l) l attr e

  abbrev pub unary_by : Option Oper1 → Node → Errors → Result
  unary_by (some o) arg e = (apply_oper1 machine o arg, e)
  unary_by none arg e = (undef, error fatal "internal: unknown 1-arg operator %d" e)

  abbrev pub unary : Option Oper1 → Node → Errors → Result
  unary o arg e = if is_undef arg then (undef, e) else unary_by o arg e

  abbrev pub eval_node_oper_1 : ℕ → Node → Errors → Result
  eval_node_oper_1 op arg e = let (v, after) = eval arg e in unary (oper1_of op) v after

  abbrev pub binary_by : Option Oper2 → Node → Node → Errors → Result
  binary_by (some o) l r e = (apply_oper2 machine o l r, e)
  binary_by none l r e =
      if is_string l && is_string r
      then (undef, e)
      else (undef, error fatal "internal: unknown 2-arg operator %d" e)

  -- The right operand is evaluated only where the left one is defined.
  abbrev pub binary : Option Oper2 → Node → Result → Result
  binary o l (r, e) = if is_undef r then (undef, e) else binary_by o l r e

  abbrev pub eval_node_oper_2 : ℕ → Node → Node → Errors → Result
  eval_node_oper_2 op arg0 arg1 e =
      let (l, after) = eval arg0 e in
      if is_undef l then (undef, after) else binary (oper2_of env.tokens op) l (eval arg1 after)

  abbrev pub choose : Option ℤ → Node → Node → Errors → Result
  choose (some v) arg1 arg2 e = eval (if is_true v then arg1 else arg2) e
  choose none arg1 arg2 e = (undef, e)

  abbrev pub eval_node_oper_3 : ℕ → Node → Node → Node → Errors → Result
  eval_node_oper_3 op arg0 arg1 arg2 e =
      if op == question
      then (let (cond, after) = eval arg0 e in
          choose
            (eval_int_free machine
              (number_of (number_if machine (is_string cond && env.shared arg0) cond)))
            arg1 arg2 after)
      else (undef, error fatal "internal: unknown 2-arg operator %d" e)

  abbrev pub eval_oper : ℕ → Nodes → Errors → Result
  eval_oper op (cons a nil) e = eval_node_oper_1 op a e
  eval_oper op (cons a (cons b nil)) e = eval_node_oper_2 op a b e
  eval_oper op (cons a (cons b (cons c nil))) e = eval_node_oper_3 op a b c e
  eval_oper op _ e = (undef, error fatal "internal: bad number of args (%d) for operator" e)

  -- the loop over the elements of an array
  unfoldable pub eval_elements : List Node → Node → Errors → Result
  eval_elements [] new e = (new, e)
  eval_elements (arg ∷ args) new e =
      let (v, after) = eval arg e in eval_elements args (node_array_push new v) after

  abbrev pub with_attr : Attr → Result → Result
  with_attr attr (n, e) = (node_set_attr n attr, e)

  abbrev pub eval_content : Content → Attr → Errors → Result
  eval_content pc attr e = (node (int env.section_pc) attr, e)
  eval_content (backref v) attr e = with_attr attr (env.local_backref v e)
  eval_content (fwdref v) attr e = with_attr attr (env.local_fwdref v e)
  eval_content (interp s) attr e = env.interp_get (pos (decimal_from 0 s)) e
  eval_content (id l) attr e = eval_id l attr e
  eval_content (text l) attr e = with_attr attr (eval_string_of attr l e)
  eval_content (oper op args) attr e = with_attr attr (eval_oper op args e)
  eval_content (array args) attr e = with_attr attr (eval_elements (to_list args) undef e)
  eval_content c attr e = (node c attr, e)

-- Each call spends one unit of fuel; see Eval.Value for how much is enough.
unfoldable pub eval_node : Env → ℕ → Node → Errors → Result
unfolding eval_texts eval_elements
eval_node env zero n e = (undef, e)
eval_node env (suc fuel) undef e = (undef, e)
eval_node env (suc fuel) (node c attr) e = eval_content env (eval_node env fuel) c attr e
