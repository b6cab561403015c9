-- ===== src/Slist/Cells/Link.antt =====
-- dt101/slist.c: the loop of slist_insert_before, which links a new cell into a list.
use asm.Prelude.{
  ℕ, zero, suc, ◌≤◌, ◌≡◌, ◌≢◌, ◌∙◌, refl, sym, ap, Bool, true, false, not, ◌||◌, List, [], ◌∷◌,
  ◌++◌, ◌==◌, and_left, and_right, arith, if◌then◌else◌, ==_ne, length,
}
use asm.Slist.Cells.{Memory, set_next, link_before}
use asm.Slist.Cells.Links.{Links, absent, distinct, Links-set_next, next-set_next, other_cell}

-- the first cell, or 0
abbrev pub first : List ℕ → ℕ
first [] = 0
first (a ∷ cells) = a

Links-first : (m : Memory) (p : ℕ) (cells : List ℕ) → Links m p cells → p ≡ first cells
Links-first m p [] l = l
Links-first m p (a ∷ cells) l = l.0

-- The loop changes what is next of a cell of the list only.
next-link_before :
    (fuel : ℕ) (m : Memory) (p before ent a : ℕ) (cells : List ℕ)
    → absent a cells ≡ true
    → Links m p cells
    → (link_before fuel p before ent m).next a ≡ m.next a
unfolding link_before
next-link_before zero m p before ent a cells h l = refl
next-link_before (suc fuel) m p before ent a [] h l = rw l refl
next-link_before (suc fuel) m p before ent a (b ∷ cells) h (e, (n, l)) =
    rw (e, ==_ne b 0 n)
      (at_cell (m.next b == 0 || m.next b == before) (
        next-link_before fuel m (m.next b) before ent a cells
          (and_right (not (b == a)) (absent a cells) h) l))
  where
    at_cell :
        (q : Bool)
        → (link_before fuel (m.next b) before ent m).next a ≡ m.next a
        → (if q then set_next b ent m else link_before fuel (m.next b) before ent m).next a
          ≡ m.next a
    at_cell true k = ground (arith, and_left (not (b == a)) (absent a cells) h)
    at_cell false k = k

-- The next cell is not the one that is looked for, as long as that is further on.
pub not_yet :
    (b : ℕ) (pre post : List ℕ)
    → b ≢ 0
    → absent b (pre ++ post) ≡ true
    → (b == 0 || b == first post) ≡ false
not_yet b pre [] n h = ground (arith, n)
not_yet b [] (c ∷ post) n h = ground (arith, n, h)
not_yet b (d ∷ pre) (c ∷ post) n h =
    not_yet b pre (c ∷ post) n (and_right (not (d == b)) (absent b (pre ++ c ∷ post)) h)

found : (m : Memory) (p : ℕ) (post : List ℕ) → Links m p post → (p == 0 || p == first post) ≡ true
found m p [] l = rw l refl
found m p (c ∷ post) l = ground (arith, l.0)

pub Links-same : (m n : Memory) (p : ℕ) (cells : List ℕ) → m ≡ n → Links n p cells → Links m p cells
Links-same m n p cells e l = rw e l

-- One round of the loop, at a cell: it ends, or goes on.
link_before-ends :
    (fuel : ℕ) (m : Memory) (p a before ent : ℕ)
    → p ≡ a
    → a ≢ 0
    → (m.next a == 0 || m.next a == before) ≡ true
    → link_before (suc fuel) p before ent m ≡ set_next a ent m
unfolding link_before
link_before-ends fuel m p a before ent e k h = rw (e, ==_ne a 0 k, h) refl

link_before-goes_on :
    (fuel : ℕ) (m : Memory) (p a before ent : ℕ)
    → p ≡ a
    → a ≢ 0
    → (m.next a == 0 || m.next a == before) ≡ false
    → link_before (suc fuel) p before ent m ≡ link_before fuel (m.next a) before ent m
unfolding link_before
link_before-goes_on fuel m p a before ent e k h = rw (e, ==_ne a 0 k, h) refl

-- The new cell behind a cell, before what followed it.
Links-between :
    (m : Memory) (ent p a : ℕ) (post : List ℕ)
    → ent ≢ 0
    → m.next ent ≡ first post
    → absent ent (a ∷ post) ≡ true
    → absent a post ≡ true
    → p ≡ a
    → a ≢ 0
    → Links m (m.next a) post
    → Links (set_next a ent m) p (a ∷ ent ∷ post)
Links-between m ent p a post n x h d e k l = (
  e,
  (
    k,
    (
      next-set_next m a ent,
      (
        n,
        rw (other_cell a ent (apart_from a ent (and_left (not (a == ent)) (absent ent post) h))) (
            Links-set_next m a ent (m.next ent) post d
              (rw (x ∙ sym (Links-first m (m.next a) post l)) l)),
      ),
    ),
  ),
)
  where
    apart_from : (a b : ℕ) → not (a == b) ≡ true → not (b == a) ≡ true
    apart_from a b h = ground (arith, h)

pub Links-link_before :
    (fuel : ℕ) (m : Memory) (ent p a : ℕ) (pre post : List ℕ)
    → length (a ∷ pre) ≤ fuel
    → ent ≢ 0
    → m.next ent ≡ first post
    → absent ent (a ∷ pre ++ post) ≡ true
    → distinct (a ∷ pre ++ post) ≡ true
    → Links m p (a ∷ pre ++ post)
    → Links (link_before fuel p (first post) ent m) p (a ∷ pre ++ ent ∷ post)
Links-link_before zero m ent p a pre post f n x h d l = absurd (omega (arith, f))
Links-link_before (suc fuel) m ent p a [] post f n x h d (e, (k, l)) =
    Links-same (link_before (suc fuel) p (first post) ent m) (set_next a ent m) p (a ∷ ent ∷ post)
      (link_before-ends fuel m p a (first post) ent e k (found m (m.next a) post l))
      (Links-between m ent p a post n x h (and_left (absent a post) (distinct post) d) e k l)
Links-link_before (suc fuel) m ent p a (b ∷ pre) post f n x h d (e, (k, l)) =
    let d_rest = and_right (absent a (b ∷ pre ++ post)) (distinct (b ∷ pre ++ post)) d in
    let goes_on = link_before-goes_on fuel m p a (first post) ent e k (
      ap (λ q. q == 0 || q == first post) l.0
      ∙ not_yet b pre post l.1.0
          (and_left (absent b (pre ++ post)) (distinct (pre ++ post)) d_rest)) in
    let rest =
      Links-link_before fuel m ent (m.next a) b pre post (omega (arith, f)) n x
        (and_right (not (a == ent)) (absent ent (b ∷ pre ++ post)) h) d_rest l in
    let same =
      next-link_before fuel m (m.next a) (first post) ent a (b ∷ pre ++ post)
        (and_left (absent a (b ∷ pre ++ post)) (distinct (b ∷ pre ++ post)) d) l in
    Links-same (link_before (suc fuel) p (first post) ent m)
      (link_before fuel (m.next a) (first post) ent m) p (a ∷ b ∷ pre ++ ent ∷ post) goes_on
      (e, (k, rw same rest))
