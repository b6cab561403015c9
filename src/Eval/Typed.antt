-- ===== src/Eval/Typed.antt =====
-- Every evaluation returns a value.
use asm.Prelude.{
  ℕ, zero, suc, ◌≡◌, refl, Bool, true, false, ◌&&◌, List, [], ◌∷◌, ◌++◌, arith, if◌then◌else◌,
  and_left, and_right, ◌==◌, Option, none, some,
}
use asm.Prelude.Int.{ℤ, pos}
use asm.Text.{Bytes}
use asm.Error.{Errors}
use asm.Node.{
  Node, undef, node, Nodes, nil, cons, Content, empty, int, float, reg, string, pc, backref, fwdref,
  interp, id, text, oper, array, Attr, attr_none, to_list, of_list, to_list-of_list,
  node_array_push,
}
use asm.Eval.Number.{is_true}
use asm.Eval.Operator.{Oper1, Oper2, oper1_of, oper2_of, is_string}
use asm.Eval.Expression.{
  Env, Result, string_of, eval_elements, eval_texts, eval_node, unary, binary, binary_by, choose,
  eval_oper, eval_content, id_by, is_undef, question, single_interp, decimal_from, symbol_value,
}
use asm.Eval.Value.{is_value, are_values}
use asm.Eval.Applied.{set_attr-value, set_attr_if-value, oper1-value, oper2-value}

-- A function whose results are values, whatever it is given.
abbrev pub Gives {ℓ} : {A : Type ℓ} → (A → Errors → Result) → Type ℓ
Gives {A = A} f = (a : A) (e : Errors) → is_value (f a e).0 ≡ true

-- The tables that an evaluation reads hold values.
pub record HoldsValues (env : Env) : Type 0 where
  pub symbols : Gives env.symbol_get
  pub arguments : Gives env.interp_get
  pub backrefs : Gives env.local_backref
  pub fwdrefs : Gives env.local_fwdref

are_values-append :
    (xs : List Node) (n : Node)
    → are_values (of_list xs) ≡ true
    → is_value n ≡ true
    → are_values (of_list (xs ++ n ∷ [])) ≡ true
unfolding is_value
are_values-append [] n vs v = ground (arith, v)
are_values-append (x ∷ xs) n vs v =
    rw (and_left (is_value x) (are_values (of_list xs)) vs)
      (are_values-append xs n (and_right (is_value x) (are_values (of_list xs)) vs) v)

array-of_list :
    (x : Node) (xs : List Node) (attr : Attr)
    → are_values (of_list (x ∷ xs)) ≡ true
    → is_value (node (array (of_list (x ∷ xs))) attr) ≡ true
unfolding is_value
array-of_list x xs attr h = h

module _ (env : Env) (holds : HoldsValues env) (eval : Node → Errors → Result)
    (gives : Gives eval) where
  elements-values :
      (l : List Node) (x : Node) (xs : List Node) (attr : Attr) (e : Errors)
      → are_values (of_list (x ∷ xs)) ≡ true
      → is_value (eval_elements env eval l (node (array (of_list (x ∷ xs))) attr) e).0 ≡ true
  unfolding eval_elements node_array_push
  elements-values [] x xs attr e vs = array-of_list x xs attr vs
  elements-values (n ∷ l) x xs attr e vs =
      rw (eval_elements, to_list-of_list xs)
        (elements-values l x (xs ++ (eval n e).0 ∷ []) attr (eval n e).1
          (are_values-append (x ∷ xs) (eval n e).0 vs (gives n e)))

  array-values : (l : List Node) (e : Errors) → is_value (eval_elements env eval l undef e).0 ≡ true
  unfolding eval_elements node_array_push
  array-values [] e = unfold is_value in refl
  array-values (n ∷ l) e =
      elements-values l (eval n e).0 [] attr_none (eval n e).1
        (are_values-append [] (eval n e).0 (unfold is_value in refl) (gives n e))

  string-value : (attr : Attr) (s : Option Bytes) → is_value (string_of attr s) ≡ true
  unfolding is_value
  string-value attr none = refl
  string-value attr (some s) = refl

  symbol-value : (n : Option Bytes) (e : Errors) → is_value (symbol_value env eval n e).0 ≡ true
  symbol-value (some name) e = gives (env.symbol_get name e).0 (env.symbol_get name e).1
  symbol-value none e = unfold is_value in refl

  id-value :
      (o : Option Node) (l : Nodes) (attr : Attr) (e : Errors)
      → is_value (id_by env eval o l attr e).0 ≡ true
  id-value (some arg) l attr e = set_attr_if-value (eval arg e).0 attr (gives arg e)
  id-value none l attr e =
      let texts = eval_texts env eval (to_list l) [] e in
      set_attr_if-value (symbol_value env eval texts.0 texts.1).0 attr
        (symbol-value texts.0 texts.1)

  unary-value :
      (o : Option Oper1) (n : Node) (e : Errors)
      → is_value n ≡ true
      → is_value (unary env eval o n e).0 ≡ true
  unary-value (some o) undef e v = unfold is_value in refl
  unary-value (some o) (node c attr) e v = oper1-value env.machine o (node c attr) v
  unary-value none undef e v = unfold is_value in refl
  unary-value none (node c attr) e v = unfold is_value in refl

  if-value :
      (b : Bool) (r s : Result)
      → is_value r.0 ≡ true
      → is_value s.0 ≡ true
      → is_value (if b then r else s).0 ≡ true
  if-value true r s h k = h
  if-value false r s h k = k

  undef-value : is_value undef ≡ true
  unfolding is_value
  undef-value = refl

  binary-value :
      (o : Option Oper2) (l : Node) (r : Result) → is_value (binary env eval o l r).0 ≡ true
  binary-value (some o) l (r, e) =
      if-value (is_undef r) (undef, e) (binary_by env eval (some o) l r e) undef-value
        (oper2-value env.machine o l r)
  binary-value none l (r, e) =
      if-value (is_undef r) (undef, e) (binary_by env eval none l r e) undef-value
        (if-value (is_string l && is_string r) (undef, e) _ undef-value undef-value)

  choose-value :
      (v : Option ℤ) (n m : Node) (e : Errors) → is_value (choose env eval v n m e).0 ≡ true
  choose-value (some v) n m e = gives (if is_true v then n else m) e
  choose-value none n m e = undef-value

  oper-value : (op : ℕ) (l : Nodes) (e : Errors) → is_value (eval_oper env eval op l e).0 ≡ true
  oper-value op nil e = undef-value
  oper-value op (cons a nil) e = unary-value (oper1_of op) (eval a e).0 (eval a e).1 (gives a e)
  oper-value op (cons a (cons b nil)) e =
      if-value (is_undef (eval a e).0) (undef, (eval a e).1) _ undef-value
        (binary-value (oper2_of env.tokens op) (eval a e).0 (eval b (eval a e).1))
  oper-value op (cons a (cons b (cons c nil))) e =
      if-value (op == question) _ _ (choose-value _ b c (eval a e).1) undef-value
  oper-value op (cons a (cons b (cons c (cons d l)))) e = undef-value

  content-value :
      (c : Content) (attr : Attr) (e : Errors) → is_value (eval_content env eval c attr e).0 ≡ true
  content-value empty attr e = unfold is_value in refl
  content-value (int v) attr e = unfold is_value in refl
  content-value (float v) attr e = unfold is_value in refl
  content-value (reg r) attr e = unfold is_value in refl
  content-value (string s) attr e = unfold is_value in refl
  content-value pc attr e = unfold is_value in refl
  content-value (backref v) attr e =
      set_attr-value (env.local_backref v e).0 attr (holds.backrefs v e)
  content-value (fwdref v) attr e = set_attr-value (env.local_fwdref v e).0 attr (holds.fwdrefs v e)
  content-value (interp s) attr e = holds.arguments (pos (decimal_from 0 s)) e
  content-value (id l) attr e = id-value (single_interp l) l attr e
  content-value (text l) attr e =
      let texts = eval_texts env eval (to_list l) [] e in
      set_attr-value (string_of attr texts.0) attr (string-value attr texts.0)
  content-value (oper op l) attr e =
      set_attr-value (eval_oper env eval op l e).0 attr (oper-value op l e)
  content-value (array l) attr e =
      set_attr-value (eval_elements env eval (to_list l) undef e).0 attr
        (array-values (to_list l) e)

-- Whatever node is evaluated, with whatever fuel, the result is undefined or a value: where the tables
-- hold values, no operator, name or reference is left in it, at any depth.
pub eval_node-IsValue :
    (env : Env) (fuel : ℕ)
    → HoldsValues env
    → (n : Node) (e : Errors) → is_value (eval_node env fuel n e).0 ≡ true
unfolding eval_node
eval_node-IsValue env zero holds n e = unfold is_value in refl
eval_node-IsValue env (suc fuel) holds undef e = unfold is_value in refl
eval_node-IsValue env (suc fuel) holds (node c attr) e =
    content-value env holds (eval_node env fuel) (eval_node-IsValue env fuel holds) c attr e
