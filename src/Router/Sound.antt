-- ===== src/Router/Sound.antt =====
-- `insert` of core/router.go keeps every node's label equal to the first byte of its prefix, and no
-- prefix empty; so the descent by labels never compares in vain.
use thinkgo.Base.{
  ℕ, ◌<◌, ◌==◌, ◌≡◌, refl, ap, inl, inr, arith, Bytes, [], ◌∷◌, ◌++◌, length, first, lcp,
  append-nil, Bool-cases,
}
use thinkgo.Router.Tree.{Info, Node, Nodes, node, nil, cons, label_of, info}
use thinkgo.Router.Insert.{Write, split, overwrite, insert_node, insert_below}
use thinkgo.Router.Content.{IsSound, AllSound, IsSound-lcp}
use thinkgo.Router.Rounds.{Round, splits, deepens, finds, round}
use thinkgo.Router.Writes.{split-here, split-below}

first-append : (q r : Bytes) → 0 < length q → first (q ++ r) ≡ first q
first-append [] r h = elim h [ ]
first-append (x ∷ q) r h = refl

module _ {H E : Type 0} (w : Write H E) where
  split-IsSound :
      (q : Bytes) (y : ℕ) (r s : Bytes) (i : Info H E) (cs : Nodes H E)
      → 0 < length q
      → i.prefix ≡ q ++ (y ∷ r)
      → AllSound cs
      → IsSound (split w (q ++ s) (length q) i cs)
  split-IsSound (x ∷ q) y r [] i cs p e h =
      rw append-nil (rw (split-here w (x ∷ q) (y ∷ r) i cs e) (ground (arith, ap first e)))
  split-IsSound (x ∷ q) y r (c ∷ s) i cs p e h =
      rw (split-below w (x ∷ q) (y ∷ r) c s i cs e) (ground (arith, ap first e))
  split-IsSound [] y r s i cs p e h = elim p [ ]

  round-IsSound :
      (search : Bytes) (i : Info H E) (cs : Nodes H E)
      → Round w search i cs
      → IsSound (node i cs)
      → ((c : ℕ) (s : Bytes) → AllSound (insert_below w (c ∷ s) cs))
      → IsSound (insert_node w search (node i cs))
  unfolding overwrite
  round-IsSound search i cs (splits q y r s p a e d x) h ih =
      rw x (split-IsSound q y r s i cs p e h.2)
  round-IsSound search i cs (deepens c s a x) h ih = rw x (h.0, h.1, ih c s)
  round-IsSound search i cs (finds a x) h ih = rw x (ground arith)

  mutual
    unfolding insert_node

    pub insert_node-IsSound :
        (n : Node H E) (search : Bytes)
        → IsSound n
        → 0 < lcp search (info n).prefix
        → IsSound (insert_node w search n)
    insert_node-IsSound (node i cs) search h p =
        round-IsSound search i cs (round w search i cs p) h
          (λ c s. insert_below-AllSound cs c s h.2)

    pub insert_below-AllSound :
        (cs : Nodes H E) (c : ℕ) (s : Bytes) → AllSound cs → AllSound (insert_below w (c ∷ s) cs)
    insert_below-AllSound nil c s h = ground arith
    insert_below-AllSound (cons d ds) c s (h, hs) = elim (Bool-cases (label_of d == c)) [
      | inl here ↦
          let p : 0 < lcp (c ∷ s) (info d).prefix =
            IsSound-lcp d (c ∷ s) h (ground arith) (ground arith) in
          rw here (insert_node-IsSound d (c ∷ s) h p, hs)
      | inr later ↦ rw later (h, insert_below-AllSound ds c s hs)
    ]
