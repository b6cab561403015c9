-- ===== src/Dict/Laws.antt =====
-- Lookup after the operations, for an equality of keys that decides one.
use asm.Prelude.{
  ◌≡◌, ◌↔◌, refl, sym, ap, ◌∙◌, Bool, true, false, ◌&&◌, Option, none, some, [], ◌∷◌, Bool-cases,
  inl, inr, if◌then◌else◌,
}
use asm.Dict.{
  Entry, Dict, dict_find_ent, dict_lookup, overwrite, overwrite_ent, dict_add_ent, dict_insert,
}

module _ {ℓ κ} {K : Type ℓ} {V : Type κ} (key_equal : K → K → Bool) where
  pub lookup-cons :
      (x : Entry K V) (d : Dict K V) (i : K)
      → dict_lookup key_equal (x ∷ d) i
        ≡ (if key_equal x.key i then some x.value else dict_lookup key_equal d i)
  unfolding dict_lookup dict_find_ent
  lookup-cons x d i = elim (Bool-cases (key_equal x.key i)) [
    | inl t ↦ rw t refl
    | inr f ↦ rw f refl
  ]

-- An equality of keys that need not be theirs: it holds of a key and itself, and keys that are equal are
-- so to the same ones.
module _ {ℓ} {K : Type ℓ} (key_equal : K → K → Bool)
    (same : (j k i : K) → key_equal j k ≡ true → key_equal j i ≡ key_equal k i)
    (self : (k : K) → key_equal k k ≡ true) where
  one_key : (x k i : K) → key_equal x k ≡ false → key_equal x i && key_equal k i ≡ false
  one_key x k i h = elim (Bool-cases (key_equal x i)) [
    | inl t ↦ elim (Bool-cases (key_equal k i)) [
      | inl u ↦
          let clash : true ≡ false = sym (same x i k t ∙ sym (same k i k u) ∙ self k) ∙ h in cc
      | inr u ↦ rw (t, u) refl
    ]
    | inr f ↦ rw f refl
  ]

if_again {ℓ} :
    {A : Type ℓ} (p : Bool) (a b c : A)
    → (if p then a else c) ≡ (if p then a else (if p then b else c))
if_again true a b c = refl
if_again false a b c = refl

if_swap {ℓ} :
    {A : Type ℓ} (p q : Bool) (a b c : A)
    → p && q ≡ false
    → (if p then a else (if q then b else c)) ≡ (if q then b else (if p then a else c))
if_swap true true a b c h = cc
if_swap true false a b c h = refl
if_swap false q a b c h = refl

module _ {ℓ κ} {K : Type ℓ} {V : Type κ} (key_equal : K → K → Bool)
    (same : (j k i : K) → key_equal j k ≡ true → key_equal j i ≡ key_equal k i)
    (self : (k : K) → key_equal k k ≡ true) where
  overwritten :
      (replace : Bool) (x : Entry K V) (k i : K) (v : V)
      → key_equal x.key k ≡ true
      → key_equal (overwrite key_equal replace k v x).key i ≡ key_equal k i
  overwritten true x k i v h = refl
  overwritten false x k i v h = same x.key k i h

  lookup-overwrite :
      (replace : Bool) (d : Dict K V) (k i : K) (v : V) (ent : Entry K V)
      → dict_find_ent key_equal d k ≡ some ent
      → dict_lookup key_equal (overwrite_ent key_equal replace d k v) i
        ≡ (if key_equal k i then some v else dict_lookup key_equal d i)
  unfolding dict_find_ent overwrite_ent
  lookup-overwrite replace [] k i v ent h = cc
  lookup-overwrite replace (x ∷ d) k i v ent h = elim (Bool-cases (key_equal x.key k)) [
    | inl t ↦
        rw (t, overwrite_ent, lookup-cons key_equal x d i, same x.key k i t)
          (lookup-cons key_equal (overwrite key_equal replace k v x) d i
            ∙ ap (λ b. if b then some v else dict_lookup key_equal d i)
                (overwritten replace x k i v t)
            ∙ if_again (key_equal k i) (some v) (some x.value) (dict_lookup key_equal d i))
    | inr f ↦
        rw (f, overwrite_ent, lookup-cons key_equal x d i)
          (lookup-cons key_equal x (overwrite_ent key_equal replace d k v) i
            ∙ ap (λ r. if key_equal x.key i then some x.value else r)
                (lookup-overwrite replace d k i v ent (rw f at h))
            ∙ if_swap (key_equal x.key i) (key_equal k i) (some x.value) (some v)
                (dict_lookup key_equal d i) (one_key key_equal same self x.key k i f))
  ]

  -- A value is looked up as it was added last, and the other keys keep theirs.
  pub lookup-dict_add_same :
      (replace : Bool) (d : Dict K V) (k i : K) (v : V)
      → dict_lookup key_equal (dict_add_ent key_equal replace d k v) i
        ≡ (if key_equal k i then some v else dict_lookup key_equal d i)
  lookup-dict_add_same replace d k i v = go (dict_find_ent key_equal d k) refl
    where
      go :
          (o : Option (Entry K V))
          → dict_find_ent key_equal d k ≡ o
          → dict_lookup key_equal (dict_add_ent key_equal replace d k v) i
            ≡ (if key_equal k i then some v else dict_lookup key_equal d i)
      go none h =
          unfold dict_add_ent in rw h (lookup-cons key_equal (record { key = k; value = v }) d i)
      go (some ent) h = unfold dict_add_ent in rw h (lookup-overwrite replace d k i v ent h)

  pub lookup-dict_insert_same :
      (d : Dict K V) (k i : K) (v : V)
      → dict_lookup key_equal (dict_insert key_equal d k v) i
        ≡ (if key_equal k i then some v else dict_lookup key_equal d i)
  unfolding dict_insert
  lookup-dict_insert_same d k i v = lookup-dict_add_same false d k i v

-- The test of an equality that decides that of the keys.
module _ {ℓ} {K : Type ℓ} (key_equal : K → K → Bool)
    (key_iff : (j k : K) → (key_equal j k ≡ true) ↔ (j ≡ k)) where
  same_test : (j k i : K) → key_equal j k ≡ true → key_equal j i ≡ key_equal k i
  same_test j k i h = rw ((key_iff j k).0 h) refl

  same_self : (k : K) → key_equal k k ≡ true
  same_self k = (key_iff k k).1 refl

module _ {ℓ κ} {K : Type ℓ} {V : Type κ} (key_equal : K → K → Bool)
    (key_iff : (j k : K) → (key_equal j k ≡ true) ↔ (j ≡ k)) where
  pub lookup-dict_insert :
      (d : Dict K V) (k i : K) (v : V)
      → dict_lookup key_equal (dict_insert key_equal d k v) i
        ≡ (if key_equal k i then some v else dict_lookup key_equal d i)
  lookup-dict_insert d k i v =
      lookup-dict_insert_same key_equal (same_test key_equal key_iff) (same_self key_equal key_iff)
        d k i v
