-- ===== src/Slist/Cells/Insert.antt =====
-- dt101/slist.c: slist_insert_before, and with it slist_append and slist_prepend.
use asm.Prelude.{
  ℕ, zero, suc, ◌≤◌, ◌≡◌, ◌≢◌, refl, ap, true, false, ◌||◌, List, [], ◌∷◌, ◌++◌, ◌==◌, and_left,
  arith, if◌then◌else◌, ==_ne, ==_refl, length, Bool-cases, inl, inr,
}
use asm.Slist.Cells.{Memory, set_next, link_before, inserted, slist_new, slist_insert_before}
use asm.Slist.Cells.Links.{Links, absent, distinct, Links-set_next, next-set_next}
use asm.Slist.Cells.Link.{first, Links-link_before, not_yet}

Links-next :
    (m n : Memory) (p : ℕ) (cells : List ℕ) → n.next ≡ m.next → Links m p cells → Links n p cells
Links-next m n p [] e l = l
Links-next m n p (a ∷ cells) e (h, (k, l)) =
    (h, (k, Links-next m n (n.next a) cells e (rw (ap (λ f. f a) e) l)))

-- A list keeps its cells when another one is allocated.
Links-slist_new :
    (m : Memory) (item p : ℕ) (cells : List ℕ)
    → absent m.unused cells ≡ true
    → Links m p cells
    → Links (slist_new item m).1 p cells
unfolding slist_new
Links-slist_new m item p cells h l =
    Links-next (set_next m.unused 0 m) (slist_new item m).1 p cells refl
      (Links-set_next m m.unused 0 p cells h l)

data_of-link_before :
    (fuel p before ent : ℕ) (m : Memory) → (link_before fuel p before ent m).data_of ≡ m.data_of
unfolding link_before
data_of-link_before zero p before ent m = refl
data_of-link_before (suc fuel) p before ent m = elim (Bool-cases (p == 0)) [
  | inl t ↦ rw t refl
  | inr f ↦ elim (Bool-cases (m.next p == 0 || m.next p == before)) [
    | inl u ↦ rw (f, u) refl
    | inr g ↦ rw (f, g) (data_of-link_before fuel (m.next p) before ent m)
  ]
]

Links-result :
    (r s : ℕ × Memory) (cells : List ℕ) → r ≡ s → Links s.1 s.0 cells → Links r.1 r.0 cells
Links-result r s cells e l = rw e l

inserted-front :
    (fuel list ent c : ℕ) (m : Memory)
    → list ≡ c
    → c ≢ 0
    → inserted fuel list c (ent, m) ≡ (ent, set_next ent c m)
unfolding inserted
inserted-front fuel list ent c m e n = rw (e, ==_ne c 0 n, ==_refl c) refl

inserted-within :
    (fuel list ent a before : ℕ) (m : Memory)
    → list ≡ a
    → a ≢ 0
    → (before == a) ≡ false
    → inserted fuel list before (ent, m)
      ≡ (list, link_before fuel list before ent (set_next ent before m))
unfolding inserted
inserted-within fuel list ent a before m e n h = rw (e, ==_ne a 0 n, h) refl

inserted-none :
    (fuel list ent before : ℕ) (m : Memory)
    → list ≡ 0
    → inserted fuel list before (ent, m) ≡ (ent, m)
unfolding inserted
inserted-none fuel list ent before m e = rw e refl

first_differs :
    (a : ℕ) (pre post : List ℕ) → a ≢ 0 → absent a (pre ++ post) ≡ true → (first post == a) ≡ false
first_differs a pre post n h = flip a (first post) (not_yet a pre post n h)
  where
    flip : (a b : ℕ) → (a == 0 || a == b) ≡ false → (b == a) ≡ false
    flip a b h = ground (arith, h)

-- The new cell, when it was allocated.
Links-inserted :
    (fuel list ent : ℕ) (m : Memory) (pre post : List ℕ)
    → length pre ≤ fuel
    → ent ≢ 0
    → m.next ent ≡ 0
    → absent ent (pre ++ post) ≡ true
    → distinct (pre ++ post) ≡ true
    → Links m list (pre ++ post)
    → Links
        (inserted fuel list (first post) (ent, m)).1
        (inserted fuel list (first post) (ent, m)).0
        (pre ++ ent ∷ post)
Links-inserted fuel list ent m [] [] f n x h d l =
    Links-result (inserted fuel list 0 (ent, m)) (ent, m) (ent ∷ [])
      (inserted-none fuel list ent 0 m l) (refl, (n, x))
Links-inserted fuel list ent m [] (c ∷ post) f n x h d (e, (k, l)) =
    Links-result (inserted fuel list c (ent, m)) (ent, set_next ent c m) (ent ∷ c ∷ post)
      (inserted-front fuel list ent c m e k)
      (
        refl,
        (
          n,
          Links-set_next m ent c ((set_next ent c m).next ent) (c ∷ post) h
              (next-set_next m ent c, (k, l)),
        ),
      )
Links-inserted fuel list ent m (a ∷ pre) post f n x h d (e, (k, l)) =
    Links-result (inserted fuel list (first post) (ent, m))
      (list, link_before fuel list (first post) ent (set_next ent (first post) m))
      (a ∷ pre ++ ent ∷ post)
      (inserted-within fuel list ent a (first post) m e k
        (first_differs a pre post k (and_left (absent a (pre ++ post)) (distinct (pre ++ post)) d)))
      (Links-link_before fuel (set_next ent (first post) m) ent list a pre post f n
        (next-set_next m ent (first post)) h d
        (Links-set_next m ent (first post) list (a ∷ pre ++ post) h (e, (k, l))))

data_of-inserted :
    (fuel list before ent : ℕ) (m : Memory)
    → (inserted fuel list before (ent, m)).1.data_of ≡ m.data_of
unfolding inserted
data_of-inserted fuel list before ent m = elim (Bool-cases (list == 0)) [
  | inl t ↦ rw t refl
  | inr f ↦ elim (Bool-cases (before == list)) [
    | inl u ↦ rw (f, u) refl
    | inr g ↦ rw (f, g) (data_of-link_before fuel list before ent (set_next ent before m))
  ]
]

-- A new cell is linked in before the given one, at the end of the list where that is NULL: the pointer
-- that is returned leads through the cells before it, the new one and those behind, in their order. The
-- new cell has the data, and no other cell's data has changed. The cells are distinct, and as much fuel as
-- there are cells before the new one is enough.
pub Links-slist_insert_before :
    (fuel : ℕ) (m : Memory) (list item : ℕ) (pre post : List ℕ)
    → length pre ≤ fuel
    → m.unused ≢ 0
    → absent m.unused (pre ++ post) ≡ true
    → distinct (pre ++ post) ≡ true
    → Links m list (pre ++ post)
    → Links
        (slist_insert_before fuel list (first post) item m).1
        (slist_insert_before fuel list (first post) item m).0
        (pre ++ m.unused ∷ post)
      × ((p : ℕ)
          → (slist_insert_before fuel list (first post) item m).1.data_of p
            ≡ (if p == m.unused then item else m.data_of p))
unfolding slist_insert_before slist_new
Links-slist_insert_before fuel m list item pre post f n h d l = (
  Links-inserted fuel list m.unused (slist_new item m).1 pre post f n (ground arith) h d
      (Links-slist_new m item list (pre ++ post) h l),
  λ p. ap (λ g. g p) (data_of-inserted fuel list (first post) m.unused (slist_new item m).1),
)
