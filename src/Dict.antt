-- ===== src/Dict.antt =====
-- dt101/dict.c: a dictionary, as the list of its entries in the order in which they are visited.
-- The hash table below it is another project's: it holds entries that are distinct under the equality
-- of keys. No theorem depends on where it puts a new one; here that is in front.
pub mod Laws
use asm.Prelude.{Bool, true, false, Option, none, some, List, [], ◌∷◌, if◌then◌else◌}
use asm.Text.{Bytes, bytes_eq, strcasecmp_eq}

-- struct dict_ent
pub record Entry {ℓ κ} (K : Type ℓ) (V : Type κ) : Type (ℓ ⊔ κ) where
  pub key : K
  pub value : V

-- struct dict
abbrev pub Dict {ℓ κ} : Type ℓ → Type κ → Type (ℓ ⊔ κ)
Dict K V = List (Entry K V)

abbrev pub dict_str_equal : Bytes → Bytes → Bool
dict_str_equal k1 k2 = bytes_eq k1 k2

abbrev pub dict_str_equal_case : Bytes → Bytes → Bool
dict_str_equal_case k1 k2 = strcasecmp_eq k1 k2

-- The entry's key is left of `key_equal`.
module _ {ℓ κ} {K : Type ℓ} {V : Type κ} (key_equal : K → K → Bool) where
  unfoldable pub dict_find_ent : Dict K V → K → Option (Entry K V)
  dict_find_ent [] k = none
  dict_find_ent (ent ∷ d) k =
      let rest = dict_find_ent d k in if key_equal ent.key k then some ent else rest

  abbrev value_of : Option (Entry K V) → Option V
  value_of none = none
  value_of (some ent) = some ent.value

  unfoldable pub dict_lookup : Dict K V → K → Option V
  unfolding dict_find_ent
  dict_lookup d k = value_of (dict_find_ent d k)

  -- the assignments to an entry that is found
  abbrev overwrite : Bool → K → V → Entry K V → Entry K V
  overwrite replace_key k v ent = record { key = if replace_key then k else ent.key; value = v }

  unfoldable pub overwrite_ent : Bool → Dict K V → K → V → Dict K V
  overwrite_ent replace_key [] k v = []
  overwrite_ent replace_key (ent ∷ d) k v =
      let rest = overwrite_ent replace_key d k v in
      if key_equal ent.key k then overwrite replace_key k v ent ∷ d else ent ∷ rest

  abbrev add_by : Bool → Dict K V → K → V → Option (Entry K V) → Dict K V
  add_by replace_key d k v none = record { key = k; value = v } ∷ d
  add_by replace_key d k v (some ent) = overwrite_ent replace_key d k v

  unfoldable pub dict_add_ent : Bool → Dict K V → K → V → Dict K V
  unfolding dict_find_ent overwrite_ent
  dict_add_ent replace_key d k v = add_by replace_key d k v (dict_find_ent d k)

  unfoldable pub dict_insert : Dict K V → K → V → Dict K V
  unfolding dict_add_ent
  dict_insert d k v = dict_add_ent false d k v

  unfoldable pub dict_replace : Dict K V → K → V → Dict K V
  unfolding dict_add_ent
  dict_replace d k v = dict_add_ent true d k v

  -- The entries without the one that is found, and whether there was one.
  unfoldable pub dict_remove : Dict K V → K → Dict K V × Bool
  dict_remove [] k = ([], false)
  dict_remove (ent ∷ d) k =
      let (rest, found) = dict_remove d k in
      if key_equal ent.key k then (d, true) else (ent ∷ rest, found)

module _ {ℓ κ} {K : Type ℓ} {V : Type κ} (key_equal : K → K → Bool) where
  -- Unlike dict_remove it frees neither the key nor the value.
  unfoldable pub dict_steal : Dict K V → K → Dict K V × Bool
  unfolding dict_remove
  dict_steal d k = dict_remove key_equal d k

-- the key is the value
unfoldable pub dict_add {ℓ} : {K : Type ℓ} → (K → K → Bool) → Dict K K → K → Dict K K
unfolding dict_add_ent
dict_add key_equal d k = dict_add_ent key_equal true d k k

-- dict_foreach with a function that changes a state
unfoldable pub dict_foreach {ℓ κ μ} :
    {K : Type ℓ} {V : Type κ} {S : Type μ} → Dict K V → (K → V → S → S) → S → S
dict_foreach [] func s = s
dict_foreach (ent ∷ d) func s = dict_foreach d func (func ent.key ent.value s)

unfoldable pub dict_get_keys {ℓ κ} : {K : Type ℓ} {V : Type κ} → Dict K V → List K
unfolding dict_foreach
dict_get_keys d = dict_foreach d (λ k v l. k ∷ l) []

unfoldable pub dict_get_values {ℓ κ} : {K : Type ℓ} {V : Type κ} → Dict K V → List V
unfolding dict_foreach
dict_get_values d = dict_foreach d (λ k v l. v ∷ l) []
