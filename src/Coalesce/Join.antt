-- ===== src/Coalesce/Join.antt =====
-- Joining spans that do not overlap: no byte is lost or moved, and what can be joined is.
use asm.Prelude.{
  ℕ, ◌+◌, ◌≤◌, ◌<◌, ◌≡◌, ◌≢◌, refl, ap, ◌∙◌, false, List, [], ◌∷◌, ◌++◌, append_assoc, arith,
  length-append, ltb, ◌==◌, ==_iff, Bool-cases, inl, inr,
}
use asm.Error.{Errors}
use asm.Section.{Span, size, next_put}
use asm.Section.Emit.{writes, writes-append, span_image, image}
use asm.Coalesce.{extend, coalesce_from}

-- The spans follow one another in the address space: each ends where the next begins, or before.
abbrev pub IsLaid : Span → List Span → Type 0
IsLaid s [] = s.put + size s < 4294967296
IsLaid s (n ∷ rest) = (s.put + size s < 4294967296) × (s.put + size s ≤ n.put) × IsLaid n rest

-- Between the spans there are gaps.
abbrev pub IsSeparated : List Span → Type 0
IsSeparated [] = Unit
IsSeparated (s ∷ []) = Unit
IsSeparated (s ∷ n ∷ rest) = (s.put + size s < n.put) × IsSeparated (n ∷ rest)

abbrev pub StartsAt : ℕ → List Span → Type 0
StartsAt p [] = ⊥
StartsAt p (s ∷ l) = s.put ≡ p

pub record Joined (s : Span) (rest : List Span) (e : Errors) (r : List Span × Errors) : Type 0 where
  pub same_image : image r.0 ≡ image (s ∷ rest)
  pub separated : IsSeparated r.0
  pub starts : StartsAt s.put r.0
  pub quiet : r.1 ≡ e

IsSeparated-cons :
    (s : Span) (p : ℕ) (l : List Span)
    → s.put + size s < p
    → StartsAt p l
    → IsSeparated l
    → IsSeparated (s ∷ l)
IsSeparated-cons s p [] h at sep = tt
IsSeparated-cons s p (n ∷ l) h at sep = (omega (arith, at), sep)

image-extend :
    (s n : Span) (rest : List Span)
    → s.put + size s ≡ n.put
    → image (extend n.data_bytes s ∷ rest) ≡ image (s ∷ n ∷ rest)
unfolding image span_image
image-extend s n rest h =
    ap (λ t. t ++ image rest)
      (writes-append s.put s.data_bytes n.data_bytes
        ∙ ap (λ p. writes s.put s.data_bytes ++ writes p n.data_bytes) h)
    ∙ append_assoc (writes s.put s.data_bytes) (writes n.put n.data_bytes) (image rest)

IsLaid-extend :
    (s n : Span) (rest : List Span)
    → s.put + size s ≡ n.put
    → IsLaid n rest
    → IsLaid (extend n.data_bytes s) rest
IsLaid-extend s n [] h laid = omega (arith, length-append s.data_bytes n.data_bytes)
IsLaid-extend s n (m ∷ rest) h laid = (
  omega (arith, length-append s.data_bytes n.data_bytes, laid.0),
  omega (arith, length-append s.data_bytes n.data_bytes, laid.1),
  laid.2,
)

==_apart : (a b : ℕ) → (a == b) ≡ false → a ≢ b
==_apart a b h = ground arith

pub coalesce_from-Joined :
    (rest : List Span) (s : Span) (e : Errors)
    → IsLaid s rest
    → Joined s rest e (coalesce_from false s rest e)
unfolding coalesce_from image span_image
coalesce_from-Joined [] s e laid = record {
  same_image = refl;
  separated = tt;
  starts = refl;
  quiet = refl;
}
coalesce_from-Joined (n ∷ rest) s e laid =
    let below : (next_put s ≡ s.put + size s) = omega (arith, laid.0) in
    let over : (ltb n.put (next_put s) ≡ false) = ground (arith, below, laid.1) in
    elim (Bool-cases (next_put s == n.put)) [
      | inl touch ↦
          rw (over, touch, coalesce_from)
            let meet : (s.put + size s ≡ n.put) =
                omega (arith, below, (==_iff (next_put s) n.put).0 touch) in
              let ih =
                coalesce_from-Joined rest (extend n.data_bytes s) e
                  (IsLaid-extend s n rest meet laid.2) in
              record {
                same_image = ih.same_image ∙ image-extend s n rest meet;
                separated = ih.separated;
                starts = ih.starts;
                quiet = ih.quiet;
              }
      | inr gap ↦
          rw (over, gap, coalesce_from)
            let apart : (s.put + size s ≢ n.put) =
                λ meet. ==_apart (next_put s) n.put gap (omega (arith, below, meet)) in
              let ih = coalesce_from-Joined rest n e laid.2 in
              record {
                same_image = ap (λ t. writes s.put s.data_bytes ++ t) ih.same_image;
                separated =
                    IsSeparated-cons s n.put (coalesce_from false n rest e).0
                      (omega (arith, apart, laid.1)) ih.starts ih.separated;
                starts = refl;
                quiet = ih.quiet;
              }
    ]
