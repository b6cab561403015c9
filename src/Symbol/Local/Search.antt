-- ===== src/Symbol/Local/Search.antt =====
-- A search that notes the best element it meets.
use mathlib.Core.List.{Memᴰ}
use mathlib.Core.List.Memᴰ
use asm.Prelude.{
  ◌≡◌, refl, sym, ap, ◌∙◌, Bool, true, false, Option, none, some, List, [], ◌∷◌, ◌++◌,
  if◌then◌else◌, and_left, and_right, all, all-mem, Bool-cases, ◌⊎◌, inl, inr,
}

pub data Place {ℓ} {A : Type ℓ} (p q : A → Bool) (x v : A) : Type ℓ where
  before : p v ≡ true → Place p q x v
  here : v ≡ x → Place p q x v
  after : q v ≡ true → Place p q x v

-- An element of a list is before another one, that one, or after it.
pub place {ℓ} :
    {A : Type ℓ} (p q : A → Bool) (pre : List A) (x : A) (post : List A) (v : A)
    → all p pre ≡ true
    → all q post ≡ true
    → Memᴰ v (pre ++ x ∷ post)
    → Place p q x v
place p q [] x post v h k (Memᴰ.head e) = here e
place p q [] x post v h k (Memᴰ.tail m) = after (all-mem q post v k m)
place p q (a ∷ pre) x post v h k (Memᴰ.head e) = before (ap p e ∙ and_left (p a) (all p pre) h)
place p q (a ∷ pre) x post v h k (Memᴰ.tail m) =
    place p q pre x post v (and_right (p a) (all p pre) h) k m

-- What an element of the search is to the best one: passed over, the same, or worse.
pub data Standing {ℓ} {A : Type ℓ} (ok : A → Bool) (better : A → A → Bool) (x v : A) : Type ℓ where
  passed : ok v ≡ false → Standing ok better x v
  same : v ≡ x → Standing ok better x v
  worse : better v x ≡ false → better x v ≡ true → Standing ok better x v

module _ {ℓ} {A : Type ℓ} (ok : A → Bool) (better : A → A → Bool) where
  -- The better one of an element and of what was found.
  abbrev pub prefer : A → Option A → Option A
  prefer v none = some v
  prefer v (some found) = if better v found then some v else some found

  -- The best of the elements that are not passed over.
  abbrev pub note : List A → Option A → Option A
  note [] found = found
  note (v ∷ vs) found = note vs (if ok v then prefer v found else found)

  -- What was found is worse than the best.
  abbrev Behind : A → Option A → Type 0
  Behind x none = true ≡ true
  Behind x (some y) = better x y ≡ true

  pub note-passed :
      (vs : List A)
      → ((v : A) → Memᴰ v vs → ok v ≡ false)
      → (found : Option A) → note vs found ≡ found
  note-passed [] h found = refl
  note-passed (v ∷ vs) h found =
      rw (h v (Memᴰ.head refl)) (note-passed vs (λ w m. h w (Memᴰ.tail m)) found)

  kept_if :
      (x v : A) (b : Bool) → better v x ≡ false → (if b then prefer v (some x) else some x) ≡ some x
  kept_if x v true w = rw w refl
  kept_if x v false w = refl

  kept_one :
      (x v : A)
      → better x x ≡ false
      → Standing ok better x v
      → (if ok v then prefer v (some x) else some x) ≡ some x
  kept_one x v i (passed n) = rw n refl
  kept_one x v i (same e) = kept_if x v (ok v) (ap (λ z. better z x) e ∙ i)
  kept_one x v i (worse n w) = kept_if x v (ok v) n

  -- The best one stays.
  note-kept :
      (x : A) (vs : List A)
      → better x x ≡ false
      → ((v : A) → Memᴰ v vs → Standing ok better x v)
      → note vs (some x) ≡ some x
  note-kept x [] i h = refl
  note-kept x (v ∷ vs) i h =
      ap (note vs) (kept_one x v i (h v (Memᴰ.head refl)))
      ∙ note-kept x vs i (λ w m. h w (Memᴰ.tail m))

  still_ahead :
      (x v : A) (found : Option A) (b : Bool)
      → better x v ≡ true
      → Behind x found
      → Behind x (if b then prefer v found else found)
  still_ahead x v found false w h = h
  still_ahead x v none true w h = w
  still_ahead x v (some y) true w h = elim (Bool-cases (better v y)) [
    | inl t ↦ rw t w
    | inr f ↦ rw f h
  ]

  prefer-best :
      (x : A) (found : Option A) → (better_than : Behind x found) → prefer x found ≡ some x
  prefer-best x none h = refl
  prefer-best x (some y) h = rw h refl

  one_ahead :
      (x v : A) (found : Option A)
      → better x v ≡ true ⊎ (ok v ≡ false)
      → Behind x found
      → Behind x (if ok v then prefer v found else found)
  one_ahead x v found (inl w) h = still_ahead x v found (ok v) w h
  one_ahead x v found (inr n) h = rw n h

  -- the best one, or one that leaves it ahead
  same_or_not :
      (x v : A) → Standing ok better x v → (v ≡ x) ⊎ ((better x v ≡ true) ⊎ (ok v ≡ false))
  same_or_not x v (passed n) = inr (inr n)
  same_or_not x v (same e) = inl e
  same_or_not x v (worse n w) = inr (inl w)

  first_or_later : (x v : A) (vs : List A) → Memᴰ x (v ∷ vs) → (v ≡ x) ⊎ Memᴰ x vs
  first_or_later x v vs (Memᴰ.head e) = inl (sym e)
  first_or_later x v vs (Memᴰ.tail n) = inr n

  note-now :
      (x v : A) (vs : List A) (found : Option A)
      → ok x ≡ true
      → Behind x found
      → note vs (some x) ≡ some x
      → v ≡ x
      → note (v ∷ vs) found ≡ some x
  note-now x v vs found k b kept e =
      ap (λ z. note vs (if ok z then prefer z found else found)) e
      ∙ rw k (ap (note vs) (prefer-best x found b) ∙ kept)

  -- The best one is found wherever it stands.
  pub note-best :
      (x : A) (vs : List A)
      → ok x ≡ true
      → better x x ≡ false
      → ((v : A) → Memᴰ v vs → Standing ok better x v)
      → Memᴰ x vs
      → (found : Option A) → Behind x found
      → note vs found ≡ some x
  note-best x [] k i h m found b = absurd (Memᴰ.not-nil m)
  note-best x (v ∷ vs) k i h m found b =
      let kept = note-kept x vs i (λ w n. h w (Memᴰ.tail n)) in
      elim (same_or_not x v (h v (Memᴰ.head refl))) [
        | inl e ↦ note-now x v vs found k b kept e
        | inr away ↦ elim (first_or_later x v vs m) [
          | inl e ↦ note-now x v vs found k b kept e
          | inr n ↦
              note-best x vs k i (λ w l. h w (Memᴰ.tail l)) n
                (if ok v then prefer v found else found) (one_ahead x v found away b)
        ]
      ]
