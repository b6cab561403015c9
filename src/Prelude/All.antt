-- ===== src/Prelude/All.antt =====
-- Tests of all elements of a list.
use mathlib.Core.List.{Memᴰ}
use mathlib.Core.List.Memᴰ
use mathlib.Core.Path.{◌≡◌, refl, ap, ◌∙◌}
use mathlib.Core.Bool.{Bool, true, ◌&&◌}
use mathlib.Core.List.{List, [], ◌∷◌, ◌++◌}
use asm.Prelude.Tests.{and_left, and_right}

-- A test of all elements.
abbrev pub all {ℓ} : {A : Type ℓ} → (A → Bool) → List A → Bool
all p [] = true
all p (a ∷ l) = p a && all p l

pub all-mem {ℓ} :
    {A : Type ℓ} (q : A → Bool) (l : List A) (v : A) → all q l ≡ true → Memᴰ v l → q v ≡ true
all-mem q [] v h m = absurd (Memᴰ.not-nil m)
all-mem q (a ∷ l) v h (Memᴰ.head e) = ap q e ∙ and_left (q a) (all q l) h
all-mem q (a ∷ l) v h (Memᴰ.tail m) = all-mem q l v (and_right (q a) (all q l) h) m

pub all-weaken {ℓ} :
    {A : Type ℓ} (p q : A → Bool) (l : List A)
    → ((v : A) → p v ≡ true → q v ≡ true)
    → all p l ≡ true
    → all q l ≡ true
all-weaken p q [] f h = refl
all-weaken p q (v ∷ l) f h =
    rw (f v (and_left (p v) (all p l) h), all-weaken p q l f (and_right (p v) (all p l) h)) refl

pub all-append {ℓ} :
    {A : Type ℓ} (p : A → Bool) (l m : List A)
    → all p l ≡ true
    → all p m ≡ true
    → all p (l ++ m) ≡ true
all-append p [] m h k = k
all-append p (v ∷ l) m h k =
    rw (and_left (p v) (all p l) h, all-append p l m (and_right (p v) (all p l) h) k) refl
