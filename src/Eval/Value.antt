-- ===== src/Eval/Value.antt =====
-- Values: the nodes that an evaluation returns. They are its fixed points.
use asm.Prelude.{
  ℕ, zero, suc, ◌≤◌, ◌≡◌, refl, ap, ◌∙◌, Bool, true, false, ◌&&◌, List, [], ◌∷◌, ◌++◌, append_assoc,
  append-nil, arith, ltb, if◌then◌else◌, and_left, and_right,
}
use asm.Error.{Errors}
use asm.Node.{
  Node, undef, node, Nodes, nil, cons, Content, empty, int, float, reg, string, pc, backref, fwdref,
  interp, id, text, oper, array, Attr, attr_none, to_list, of_list, to_list-of_list,
  node_array_push,
}
use asm.Eval.Expression.{Env, Result, eval_elements, eval_node, with_attr}

unfoldable mutual
  pub is_value : Node → Bool
  is_value undef = true
  is_value (node c attr) = is_value_content c

  pub is_value_content : Content → Bool
  is_value_content empty = true
  is_value_content (int v) = true
  is_value_content (float v) = true
  is_value_content (reg r) = true
  is_value_content (string s) = true
  is_value_content (array (cons n l)) = is_value n && are_values l
  is_value_content _ = false

  pub are_values : Nodes → Bool
  are_values nil = true
  are_values (cons n l) = is_value n && are_values l

abbrev pub larger : ℕ → ℕ → ℕ
larger a b = if ltb a b then b else a

-- How deeply a node is nested.
unfoldable mutual
  pub height : Node → ℕ
  height undef = 0
  height (node c attr) = suc (height_content c)

  pub height_content : Content → ℕ
  height_content (id l) = height_all l
  height_content (text l) = height_all l
  height_content (oper op l) = height_all l
  height_content (array l) = height_all l
  height_content _ = 0

  pub height_all : Nodes → ℕ
  height_all nil = 0
  height_all (cons n l) = larger (height n) (height_all l)

of_list-to_list : (l : Nodes) → of_list (to_list l) ≡ l
of_list-to_list nil = refl
of_list-to_list (cons n l) = ap (cons n) (of_list-to_list l)

larger_le : (a b n : ℕ) → larger a b ≤ n → (a ≤ n) × (b ≤ n)
larger_le a b n h = ground arith

-- A function that leaves the values up to a height alone.
abbrev Fixes : ℕ → (Node → Errors → Result) → Type 0
Fixes f eval = (n : Node) (e : Errors) → is_value n ≡ true → height n ≤ f → eval n e ≡ (n, e)

module _ (env : Env) where
  -- Elements that evaluate to themselves are pushed one after the other.
  elements-value :
      (f : ℕ) (eval : Node → Errors → Result)
      → Fixes f eval
      → (l : Nodes) (xs : List Node) (attr : Attr) (e : Errors) → are_values l ≡ true
      → height_all l ≤ f
      → eval_elements env eval (to_list l) (node (array (of_list xs)) attr) e
        ≡ (node (array (of_list (xs ++ to_list l))) attr, e)
  unfolding eval_elements are_values node_array_push height_all
  elements-value f eval h nil xs attr e v low = rw (append-nil xs) refl
  elements-value f eval h (cons n l) xs attr e v low =
      let (here, rest) = larger_le (height n) (height_all l) f low in
      rw (h n e (and_left (is_value n) (are_values l) v) here, eval_elements, to_list-of_list xs)
        (elements-value f eval h l (xs ++ n ∷ []) attr e (and_right (is_value n) (are_values l) v)
            rest
          ∙ ap (λ ys. (node (array (of_list ys)) attr, e)) (append_assoc xs (n ∷ []) (to_list l)))

  -- An array of values is built again from its first element on.
  array-value :
      (f : ℕ) (eval : Node → Errors → Result)
      → Fixes f eval
      → (n : Node) (l : Nodes) (attr : Attr) (e : Errors) → is_value n ≡ true
      → are_values l ≡ true
      → height n ≤ f
      → height_all l ≤ f
      → with_attr env eval attr (eval_elements env eval (to_list (cons n l)) undef e)
        ≡ (node (array (cons n l)) attr, e)
  unfolding eval_elements node_array_push
  array-value f eval h n l attr e v vs here rest =
      rw (h n e v here, eval_elements)
        (ap (with_attr env eval attr) (elements-value f eval h l (n ∷ []) attr_none e vs rest)
          ∙ ap (λ m. (node (array (cons n m)) attr, e)) (of_list-to_list l))

  -- With fuel for its height, a value (a number, register, string or empty node, an array of values that
  -- has an element, or undefined) evaluates to itself and nothing is reported.
  pub eval_node-value :
      (f : ℕ) (n : Node) (e : Errors)
      → is_value n ≡ true
      → height n ≤ f
      → eval_node env f n e ≡ (n, e)
  unfolding eval_node is_value height
  eval_node-value zero undef e v low = refl
  eval_node-value zero (node c attr) e v low = absurd (omega (arith, low))
  eval_node-value (suc f) undef e v low = refl
  eval_node-value (suc f) (node empty attr) e v low = refl
  eval_node-value (suc f) (node (int x) attr) e v low = refl
  eval_node-value (suc f) (node (float x) attr) e v low = refl
  eval_node-value (suc f) (node (reg r) attr) e v low = refl
  eval_node-value (suc f) (node (string s) attr) e v low = refl
  eval_node-value (suc f) (node pc attr) e v low = cc
  eval_node-value (suc f) (node (backref x) attr) e v low = cc
  eval_node-value (suc f) (node (fwdref x) attr) e v low = cc
  eval_node-value (suc f) (node (interp s) attr) e v low = cc
  eval_node-value (suc f) (node (id l) attr) e v low = cc
  eval_node-value (suc f) (node (text l) attr) e v low = cc
  eval_node-value (suc f) (node (oper op l) attr) e v low = cc
  eval_node-value (suc f) (node (array nil) attr) e v low = cc
  eval_node-value (suc f) (node (array (cons n l)) attr) e v low =
      let (here, rest) = larger_le (height n) (height_all l) f (omega (arith, low)) in
      array-value f (eval_node env f) (eval_node-value f) n l attr e
        (and_left (is_value n) (are_values l) v) (and_right (is_value n) (are_values l) v) here rest
