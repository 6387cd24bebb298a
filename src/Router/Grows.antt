-- ===== src/Router/Grows.antt =====
-- `insert` of core/router.go at a text that goes on behind the end of a node, by a mark or by plain
-- text: the calls that `Add` makes. No node then loses its shape.
use thinkgo.Base.{
  ℕ, ◌<◌, true, ◌==◌, ◌≡◌, ◌≢◌, refl, ap, sym, ◌∙◌, inl, inr, arith, Bytes, [], ◌∷◌, ◌++◌, length,
  lcp, append-nil, Bool-cases,
}
use thinkgo.Router.Tree.{Kind, skind, same_kind, Info, Node, Nodes, node, nil, cons, label_of, info}
use thinkgo.Router.Insert.{Write, split, overwrite, insert_node, insert_below}
use thinkgo.Router.Content.{IsSound, AllSound, IsSound-lcp}
use thinkgo.Router.Rounds.{Round, splits, deepens, finds, round}
use thinkgo.Router.Writes.{split-here, split-below}
use thinkgo.Router.Shaped.{is_plain, is_plain-append, is_piece, fits, IsShaped, AllShaped}

long_piece :
    (t : Kind) (q : Bytes) (c : ℕ) (s : Bytes)
    → 0 < length q
    → is_piece t (q ++ (c ∷ s)) ≡ true
    → (same_kind t skind ≡ true) × (is_plain q ≡ true) × (is_plain (c ∷ s) ≡ true)
long_piece t [] c s p h = elim p [ ]
long_piece t (x ∷ []) c s p h = ground arith
long_piece t (x ∷ y ∷ q) c s p h = ground (arith, is_plain-append q (c ∷ s))

pub length_pos : (p : Bytes) → p ≢ [] → 0 < length p
length_pos [] ne = absurd (ne refl)
length_pos (c ∷ p) ne = omega arith

module _ {H E : Type 0} (w : Write H E) where
  split-IsShaped :
      (q : Bytes) (y : ℕ) (r s : Bytes) (i : Info H E) (cs : Nodes H E)
      → 0 < length q
      → i.prefix ≡ q ++ (y ∷ r)
      → fits i ≡ true
      → AllShaped cs
      → is_piece w.kind (q ++ s) ≡ true
      → IsShaped (split w (q ++ s) (length q) i cs)
  split-IsShaped q y r [] i cs p e f h k =
      let (t, a, b) = long_piece i.kind q y r p (ap (is_piece i.kind) (sym e) ∙ f) in
      let k' : is_piece w.kind q ≡ true = ap (is_piece w.kind) (sym (append-nil q)) ∙ k in
      rw append-nil (rw (split-here w q (y ∷ r) i cs e) (ground (arith, t, b, k', h)))
  split-IsShaped q y r (c ∷ s) i cs p e f h k =
      let (t, a, b) = long_piece i.kind q y r p (ap (is_piece i.kind) (sym e) ∙ f) in
      let (u, _, d) = long_piece w.kind q c s p k in
      rw (split-below w q (y ∷ r) c s i cs e) (ground (arith, t, a, b, u, d, h))

  round-IsShaped :
      (search : Bytes) (i : Info H E) (cs : Nodes H E)
      → Round w search i cs
      → i.prefix ≢ []
      → IsShaped (node i cs)
      → is_piece w.kind search ≡ true
      → ((c : ℕ) (s : Bytes)
          → is_piece w.kind (c ∷ s) ≡ true
          → AllShaped (insert_below w (c ∷ s) cs))
      → IsShaped (insert_node w search (node i cs))
  unfolding overwrite
  round-IsShaped search i cs (splits q y r s p a e d x) ne (f, h) k ih =
      rw x (split-IsShaped q y r s i cs p e f h (ap (is_piece w.kind) (sym a) ∙ k))
  round-IsShaped search i cs (deepens c s a x) ne (f, h) k ih =
      let (t, _, b) =
        long_piece w.kind i.prefix c s (length_pos i.prefix ne)
          (ap (is_piece w.kind) (sym a) ∙ k) in
      rw x (f, ih c s (ground (arith, t, b)))
  round-IsShaped search i cs (finds a x) ne (f, h) k ih = rw x (ground arith)

  mutual
    unfolding insert_node

    pub insert_node-IsShaped :
        (n : Node H E) (search : Bytes)
        → IsSound n
        → IsShaped n
        → 0 < lcp search (info n).prefix
        → is_piece w.kind search ≡ true
        → IsShaped (insert_node w search n)
    insert_node-IsShaped (node i cs) search (l, ne, ss) h p k =
        round-IsShaped search i cs (round w search i cs p) ne h k
          (λ c s. insert_below-AllShaped cs c s ss h.1)

    pub insert_below-AllShaped :
        (cs : Nodes H E) (c : ℕ) (s : Bytes)
        → AllSound cs
        → AllShaped cs
        → is_piece w.kind (c ∷ s) ≡ true
        → AllShaped (insert_below w (c ∷ s) cs)
    insert_below-AllShaped nil c s ss h k = ground (arith, k)
    insert_below-AllShaped (cons d ds) c s (sd, ss) (h, hs) k =
        elim (Bool-cases (label_of d == c)) [
          | inl here ↦
              let p : 0 < lcp (c ∷ s) (info d).prefix =
                IsSound-lcp d (c ∷ s) sd (ground arith) (ground arith) in
              rw here (insert_node-IsShaped d (c ∷ s) sd h p k, hs)
          | inr later ↦ rw later (h, insert_below-AllShaped ds c s ss hs k)
        ]
