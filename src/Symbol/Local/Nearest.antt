-- ===== src/Symbol/Local/Nearest.antt =====
-- Which label a reference to a local label reaches.
use mathlib.Core.List.{Memᴰ}
use asm.Prelude.{
  all, all-mem, all-weaken, ℕ, ◌≡◌, refl, ap, Bool, true, not, Option, none, some, List, [], ◌∷◌,
  ◌++◌, ltb, leb, Bool-cases, inl, inr, arith,
}
use asm.Prelude.Int.{ℤ, pos, eqb_ℤ, ltb_ℤ}
use asm.Error.{Errors, error, inconsistent}
use asm.Node.{undef}
use asm.Dict.{dict_lookup}
use asm.Symbol.Local.{
  SymbolLocal, GlList, LocalLabels, later, earlier, find, found_after, sym_local_compar_backref,
  sym_local_compar_fwdref, gl_sortedlist_search, symbol_local_backref, symbol_local_fwdref,
}
use asm.Symbol.Local.Search.{
  Place, before, here, after, place, Standing, passed, same, worse, note, note-best, note-passed,
}

-- the lines that a backward and a forward reference may reach
abbrev back : ℕ → SymbolLocal → Bool
back n v = not (ltb n v.line_number)

abbrev fwd : ℕ → SymbolLocal → Bool
fwd n v = not (leb v.line_number n)

found-backref :
    (l : List SymbolLocal) (n : ℕ) (f : Option SymbolLocal)
    → found_after sym_local_compar_backref (find n) l f ≡ note (back n) later l f
unfolding found_after sym_local_compar_backref
found-backref [] n f = refl
found-backref (v ∷ l) n f = elim (Bool-cases (ltb n v.line_number)) [
  | inl t ↦ rw t (found-backref l n f)
  | inr h ↦ rw h (found-backref l n _)
]

found-fwdref :
    (l : List SymbolLocal) (n : ℕ) (f : Option SymbolLocal)
    → found_after sym_local_compar_fwdref (find n) l f ≡ note (fwd n) earlier l f
unfolding found_after sym_local_compar_fwdref
found-fwdref [] n f = refl
found-fwdref (v ∷ l) n f = elim (Bool-cases (leb v.line_number n)) [
  | inl t ↦ rw t (found-fwdref l n f)
  | inr h ↦ rw h (found-fwdref l n _)
]

-- the results of the comparisons
abbrev back_order : ℕ → SymbolLocal → ℤ
back_order n v = (sym_local_compar_backref v (find n) none).0

abbrev fwd_order : ℕ → SymbolLocal → ℤ
fwd_order n v = (sym_local_compar_fwdref v (find n) none).0

back_below :
    (n m : ℕ) (v : SymbolLocal)
    → leb m n ≡ true
    → ltb v.line_number m ≡ true
    → ltb_ℤ (back_order n v) (pos 0) ≡ true
unfolding sym_local_compar_backref
back_below n m v h k = ground arith

back_above :
    (n : ℕ) (v : SymbolLocal) → ltb n v.line_number ≡ true → ltb_ℤ (pos 0) (back_order n v) ≡ true
unfolding sym_local_compar_backref
back_above n v h = rw (h, back_order) refl

fwd_below :
    (n : ℕ) (v : SymbolLocal) → leb v.line_number n ≡ true → ltb_ℤ (fwd_order n v) (pos 0) ≡ true
unfolding sym_local_compar_fwdref
fwd_below n v h = rw (h, fwd_order) refl

fwd_above :
    (n m : ℕ) (v : SymbolLocal)
    → ltb n m ≡ true
    → ltb m v.line_number ≡ true
    → ltb_ℤ (pos 0) (fwd_order n v) ≡ true
unfolding sym_local_compar_fwdref
fwd_above n m v h k = ground arith

back-Standing :
    (n : ℕ) (x v : SymbolLocal)
    → Place (λ y. ltb y.line_number x.line_number) (λ y. ltb n y.line_number) x v
    → Standing (back n) later x v
back-Standing n x v (before h) = worse (ground arith) h
back-Standing n x v (here e) = same e
back-Standing n x v (after h) = passed (rw h refl)

fwd-Standing :
    (n : ℕ) (x v : SymbolLocal)
    → Place (λ y. leb y.line_number n) (λ y. ltb x.line_number y.line_number) x v
    → Standing (fwd n) earlier x v
fwd-Standing n x v (before h) = passed (rw h refl)
fwd-Standing n x v (here e) = same e
fwd-Standing n x v (after h) = worse (ground arith) h

-- A search compares elements of its list only; where the comparison is negative on all elements before
-- one and positive on all after it, it compares that one.
module _ (gl : GlList)
    (within : (c : SymbolLocal → ℤ) (l : List SymbolLocal) (v : SymbolLocal)
      → Memᴰ v (gl.compared c l)
      → Memᴰ v l)
    (meets : (c : SymbolLocal → ℤ) (pre : List SymbolLocal) (x : SymbolLocal)
        (post : List SymbolLocal)
      → all (λ v. ltb_ℤ (c v) (pos 0)) pre ≡ true
      → all (λ v. ltb_ℤ (pos 0) (c v)) post ≡ true
      → Memᴰ x (gl.compared c (pre ++ x ∷ post))) where
  -- Where the list of a local label has one on a line not above the current one, those before it stand
  -- on smaller lines and those after it beyond the current one, a backward reference evaluates to the
  -- value of that one and reports nothing. It is supposed of the search that it compares elements of
  -- the list only, and the one before which the comparison is negative and after which it is positive.
  pub symbol_local_backref-last :
      (table : LocalLabels) (key : ℤ) (n : ℕ) (e : Errors) (pre : List SymbolLocal)
      (x : SymbolLocal) (post : List SymbolLocal)
      → dict_lookup eqb_ℤ table key ≡ some (pre ++ x ∷ post)
      → all (λ v. ltb v.line_number x.line_number) pre ≡ true
      → leb x.line_number n ≡ true
      → all (λ v. ltb n v.line_number) post ≡ true
      → symbol_local_backref gl table key n e ≡ (x.node, e)
  unfolding symbol_local_backref gl_sortedlist_search
  symbol_local_backref-last table key n e pre x post look low at high =
      let below =
        all-weaken (λ v. ltb v.line_number x.line_number) (λ v. ltb_ℤ (back_order n v) (pos 0)) pre
          (λ v h. back_below n x.line_number v at h) low in
      let above =
        all-weaken (λ v. ltb n v.line_number) (λ v. ltb_ℤ (pos 0) (back_order n v)) post
          (λ v h. back_above n v h) high in
      let best =
        note-best (back n) later x (gl.compared (back_order n) (pre ++ x ∷ post)) (ground arith)
          (ground arith)
          (λ v m.
            back-Standing n x v (place _ _ pre x post v low high (within (back_order n) _ v m)))
          (meets (back_order n) pre x post below above) none refl in
      rw (look, found-backref (gl.compared (back_order n) (pre ++ x ∷ post)) n none, best) refl

  -- Where the list of a local label has one on a line above the current one, those before it stand on
  -- lines not above the current one and those after it on greater lines than its own, a forward
  -- reference evaluates to the value of that one and reports nothing. It is supposed of the search that
  -- it compares elements of the list only, and the one before which the comparison is negative and
  -- after which it is positive.
  pub symbol_local_fwdref-next :
      (table : LocalLabels) (key : ℤ) (n : ℕ) (e : Errors) (pre : List SymbolLocal)
      (x : SymbolLocal) (post : List SymbolLocal)
      → dict_lookup eqb_ℤ table key ≡ some (pre ++ x ∷ post)
      → all (λ v. leb v.line_number n) pre ≡ true
      → ltb n x.line_number ≡ true
      → all (λ v. ltb x.line_number v.line_number) post ≡ true
      → symbol_local_fwdref gl table key n e ≡ (x.node, e)
  unfolding symbol_local_fwdref gl_sortedlist_search
  symbol_local_fwdref-next table key n e pre x post look low at high =
      let below =
        all-weaken (λ v. leb v.line_number n) (λ v. ltb_ℤ (fwd_order n v) (pos 0)) pre
          (λ v h. fwd_below n v h) low in
      let above =
        all-weaken (λ v. ltb x.line_number v.line_number) (λ v. ltb_ℤ (pos 0) (fwd_order n v)) post
          (λ v h. fwd_above n x.line_number v at h) high in
      let best =
        note-best (fwd n) earlier x (gl.compared (fwd_order n) (pre ++ x ∷ post)) (ground arith)
          (ground arith)
          (λ v m. fwd-Standing n x v (place _ _ pre x post v low high (within (fwd_order n) _ v m)))
          (meets (fwd_order n) pre x post below above) none refl in
      rw (look, found-fwdref (gl.compared (fwd_order n) (pre ++ x ∷ post)) n none, best) refl

  -- With no label up to the current line, a backward reference is reported as an inconsistency.
  pub symbol_local_backref-none :
      (table : LocalLabels) (key : ℤ) (n : ℕ) (e : Errors) (l : List SymbolLocal)
      → dict_lookup eqb_ℤ table key ≡ some l
      → all (λ v. ltb n v.line_number) l ≡ true
      → symbol_local_backref gl table key n e
        ≡ (undef, error inconsistent "backref '%ld' not defined" e)
  unfolding symbol_local_backref gl_sortedlist_search
  symbol_local_backref-none table key n e l look high =
      let nothing =
        note-passed (back n) later (gl.compared (back_order n) l)
          (λ v m.
            ap not (all-mem (λ y. ltb n y.line_number) l v high (within (back_order n) l v m)))
          none in
      rw (look, found-backref (gl.compared (back_order n) l) n none, nothing) refl
