-- ===== src/Tests/Worlds.antt =====
-- A small machine and its lists, and the states of an assembly on which the examples run.
use mathlib.Core.List.{Memᴰ}
use mathlib.Core.List.Memᴰ
use asm.Prelude.{
  all, ℕ, zero, suc, ◌≡◌, refl, Bool, true, false, Option, none, some, List, [], ◌∷◌, ◌++◌, ◌==◌,
  if◌then◌else◌, get_or, Bool-cases, inl, inr, and_left, and_right,
}
use asm.Prelude.Int.{ℤ, pos, ltb_ℤ}
use asm.Text.{Bytes, bytes}
use asm.Error.{no_errors}
use asm.Register.{isa_6809}
use asm.Node.{Node, node, int, string, id, cons, nil, array, attr_none}
use asm.Section.{Section}
use asm.Eval.Number.{Machine}
use asm.Eval.Operator.{Tokens}
use asm.Symbol.Local.{SymbolLocal, GlList, find}
use asm.Tests.Fixtures.{lda, bra}
use asm.Assemble.World.{Outside, World, ProgLine}

abbrev pub integers_only : Machine
integers_only = record {
  of_int = λ v. 0;
  to_int = λ v. pos 0;
  neg = λ a. a;
  add = λ a b. a;
  sub = λ a b. a;
  mul = λ a b. a;
  div = λ a b. a;
  less = λ a b. false;
  less_eq = λ a b. true;
  equal = λ a b. a == b;
  undefined = λ a b. pos 0;
}

abbrev tokens : Tokens
tokens = record {
  shl = 300;
  shr = 301;
  le = 302;
  ge = 303;
  eq = 304;
  ne = 305;
  lor = 306;
  land = 307;
}

-- A list that is searched from its start.
abbrev pub compared : (SymbolLocal → ℤ) → List SymbolLocal → List SymbolLocal
compared c [] = []
compared c (v ∷ l) = let rest = compared c l in if ltb_ℤ (c v) (pos 0) then v ∷ rest else v ∷ []

abbrev pub search_from :
    ℕ → (SymbolLocal → SymbolLocal → Bool) → List SymbolLocal → SymbolLocal → Option ℕ
search_from i equals [] x = none
search_from i equals (v ∷ l) x =
    let rest = search_from (suc i) equals l x in if equals v x then some i else rest

abbrev pub remove_at : List SymbolLocal → ℕ → List SymbolLocal
remove_at [] i = []
remove_at (v ∷ l) zero = l
remove_at (v ∷ l) (suc i) = v ∷ remove_at l i

abbrev pub add_sorted :
    (SymbolLocal → SymbolLocal → ℤ) → List SymbolLocal → SymbolLocal → List SymbolLocal
add_sorted compar [] x = x ∷ []
add_sorted compar (v ∷ l) x =
    let rest = add_sorted compar l x in if ltb_ℤ (compar v x) (pos 0) then v ∷ rest else x ∷ v ∷ l

abbrev pub plain_list : GlList
plain_list = record {
  compared = compared;
  search = search_from 0;
  node_value = λ l i. get_or l i (find 0);
  remove_node = remove_at;
  sortedlist_add = add_sorted;
}

only : (v x : SymbolLocal) (l : List SymbolLocal) → Memᴰ v (x ∷ []) → Memᴰ v (x ∷ l)
only v x l (Memᴰ.head e) = Memᴰ.head e
only v x l (Memᴰ.tail n) = absurd (Memᴰ.not-nil n)

further :
    (v x : SymbolLocal) (k l : List SymbolLocal)
    → (Memᴰ v k → Memᴰ v l)
    → Memᴰ v (x ∷ k)
    → Memᴰ v (x ∷ l)
further v x k l f (Memᴰ.head e) = Memᴰ.head e
further v x k l f (Memᴰ.tail n) = Memᴰ.tail (f n)

pub compared-within :
    (c : SymbolLocal → ℤ) (l : List SymbolLocal) (v : SymbolLocal)
    → Memᴰ v (compared c l)
    → Memᴰ v l
compared-within c [] v m = m
compared-within c (x ∷ l) v m = elim (Bool-cases (ltb_ℤ (c x) (pos 0))) [
  | inl t ↦ further v x (compared c l) l (compared-within c l v) (rw (t, compared) at m)
  | inr f ↦ only v x l (rw (f, compared) at m)
]

first_compared :
    (c : SymbolLocal → ℤ) (x : SymbolLocal) (l : List SymbolLocal) (b : Bool)
    → Memᴰ x (if b then x ∷ compared c l else x ∷ [])
first_compared c x l true = Memᴰ.head refl
first_compared c x l false = Memᴰ.head refl

pub compared-meets :
    (c : SymbolLocal → ℤ) (pre : List SymbolLocal) (x : SymbolLocal) (post : List SymbolLocal)
    → all (λ v. ltb_ℤ (c v) (pos 0)) pre ≡ true
    → all (λ v. ltb_ℤ (pos 0) (c v)) post ≡ true
    → Memᴰ x (compared c (pre ++ x ∷ post))
compared-meets c [] x post h k = first_compared c x post (ltb_ℤ (c x) (pos 0))
compared-meets c (v ∷ pre) x post h k =
    rw (and_left (ltb_ℤ (c v) (pos 0)) _ h, compared)
      (Memᴰ.tail (compared-meets c pre x post (and_right (ltb_ℤ (c v) (pos 0)) _ h) k))

abbrev pub small : Outside
small = record {
  machine = integers_only;
  tokens = tokens;
  shared = λ n. true;
  float_to_int32 = λ v. pos 0;
  gl = plain_list;
  grammar_parse_file = λ name e. (none, e);
  read_file = λ name. none;
  opcodes =
      record { key = bytes "lda"; value = lda } ∷ record { key = bytes "bra"; value = bra } ∷ [];
  junk0 = record { nibble = pos 0; size = pos 0 };
  junk1 = record { nibble = pos 0; size = pos 0 };
  eval_fuel = 20;
}

abbrev empty_section : Section
empty_section = record {
  closed = [];
  span = none;
  pass = 4294967295;
  line_number = 0;
  pc = pos 0;
  put = 0;
  dp = 0;
  last_pc = pos 0;
  last_put = 0;
}

abbrev pub start : World
start = record {
  asm = record {
    cur = empty_section;
    span_sequence = 0;
    errors = no_errors;
    isa = isa_6809;
    setdp = 0;
  };
  current = bytes "CODE";
  sections = [];
  locals = [];
  symbols = [];
  interp_stack = [];
  macros = [];
  files = [];
  exports = [];
  asm_pass = 0;
  symbol_ignore_undefined = false;
  defining_macro_level = 0;
  defining_macro_ctx = none;
}

abbrev pub name : Bytes → Node
name s = node (id (cons (node (string s) attr_none) nil)) attr_none

abbrev pub args_of : Node → Node
args_of n = node (array (cons n nil)) attr_none

abbrev pub number : ℕ → Node
number v = node (int (pos v)) attr_none

abbrev pub code : Node → Bytes → Node → ProgLine
code label opcode args = record { label = label; opcode = name opcode; args = args }
