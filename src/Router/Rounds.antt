-- ===== src/Router/Rounds.antt =====
-- One round of the loop of `insert` in core/router.go, by where the search and the prefix of the node
-- part: it splits the node, goes below it, or finds it.
use thinkgo.Base.{
  ℕ, ◌<◌, true, false, ◌==◌, ltb, ◌≡◌, ◌≢◌, ◌⊎◌, sym, ap, ◌∙◌, arith, Bytes, [], ◌∷◌, ◌++◌, length,
  lcp, first, shared, append-nil, length-append, drop-append,
}
use thinkgo.Router.Tree.{Info, Node, Nodes, node, info, label_of}
use thinkgo.Router.Insert.{Write, split, overwrite, insert_node, insert_below}

module _ {H E : Type 0} (w : Write H E) (i : Info H E) (cs : Nodes H E) (q : Bytes)
    (p : 0 < length q) where
  nonzero : (length q == 0) ≡ false
  nonzero = ground arith

  insert_node-split :
      (y : ℕ) (r s : Bytes)
      → i.prefix ≡ q ++ (y ∷ r)
      → lcp (q ++ s) i.prefix ≡ length q
      → insert_node w (q ++ s) (node i cs) ≡ split w (q ++ s) (length q) i cs
  unfolding insert_node
  insert_node-split y r s e l =
      let t : ltb (length q) (length i.prefix) ≡ true =
        ground (arith, length-append q (y ∷ r), ap length e) in
      rw (l, nonzero, t)

  pub insert_node-deeper :
      (c : ℕ) (s : Bytes)
      → i.prefix ≡ q
      → lcp (q ++ (c ∷ s)) i.prefix ≡ length q
      → insert_node w (q ++ (c ∷ s)) (node i cs) ≡ node i (insert_below w (c ∷ s) cs)
  unfolding insert_node
  insert_node-deeper c s e l =
      let t : ltb (length q) (length i.prefix) ≡ false = ground (arith, ap length e) in
      let u : ltb (length q) (length (q ++ (c ∷ s))) ≡ true =
        ground (arith, length-append q (c ∷ s)) in
      rw (l, nonzero, t, u, drop-append q (c ∷ s))

  pub insert_node-found :
      i.prefix ≡ q
      → lcp q i.prefix ≡ length q
      → insert_node w q (node i cs) ≡ node (overwrite w i) cs
  unfolding insert_node
  insert_node-found e l =
      let t : ltb (length q) (length i.prefix) ≡ false = ground (arith, ap length e) in
      let u : ltb (length q) (length q) ≡ false = ground arith in rw (l, nonzero, t, u)

module _ {H E : Type 0} (w : Write H E) (search : Bytes) (i : Info H E) (cs : Nodes H E) where
  pub data Round : Type 0 where
    splits :
        (q : Bytes) (y : ℕ) (r s : Bytes)
        → 0 < length q
        → search ≡ q ++ s
        → i.prefix ≡ q ++ (y ∷ r)
        → (s ≡ []) ⊎ (first s ≢ y)
        → insert_node w search (node i cs) ≡ split w (q ++ s) (length q) i cs
        → Round
    deepens :
        (c : ℕ) (s : Bytes)
        → search ≡ i.prefix ++ (c ∷ s)
        → insert_node w search (node i cs) ≡ node i (insert_below w (c ∷ s) cs)
        → Round
    finds : search ≡ i.prefix → insert_node w search (node i cs) ≡ node (overwrite w i) cs → Round

  round_at :
      (q r s : Bytes)
      → 0 < length q
      → search ≡ q ++ s
      → i.prefix ≡ q ++ r
      → (s ≡ []) ⊎ (r ≡ []) ⊎ (first s ≢ first r)
      → lcp search i.prefix ≡ length q
      → Round
  round_at q (y ∷ r) s p a e d l =
      splits q y r s p a e (ground arith) (rw a (insert_node-split w i cs q p y r s e (rw a at l)))
  round_at q [] (c ∷ s) p a e d l =
      let e' : i.prefix ≡ q = e ∙ append-nil q in
      let a' : search ≡ i.prefix ++ (c ∷ s) = a ∙ ap (λ (z : Bytes). z ++ (c ∷ s)) (sym e') in
      deepens c s a' (rw a (insert_node-deeper w i cs q p c s e' (rw a at l)))
  round_at q [] [] p a e d l =
      let a' : search ≡ q = a ∙ append-nil q in
      let e' : i.prefix ≡ q = e ∙ append-nil q in
      finds (a' ∙ sym e') (rw a' (insert_node-found w i cs q p e' (rw a' at l)))

  -- The three ways of a round on a node that shares a byte with the search.
  pub round : 0 < lcp search i.prefix → Round
  round p =
      let s = shared search i.prefix in
      round_at s.common s.rest_b s.rest_a (omega (arith, s.length_is)) s.split_a s.split_b s.apart
        s.length_is

module _ {H E : Type 0} where
  -- A split, a descent and a write in place all keep the label of the node.
  label-round :
      (w : Write H E) (search : Bytes) (i : Info H E) (cs : Nodes H E)
      → i.label ≡ first i.prefix
      → Round w search i cs
      → label_of (insert_node w search (node i cs)) ≡ i.label
  unfolding split overwrite
  label-round w search i cs h (splits q y r s p a e d x) = rw x (ground arith)
  label-round w search i cs h (deepens c s a x) = rw x
  label-round w search i cs h (finds a x) = rw x (ground arith)

  pub label-insert_node :
      (w : Write H E) (search : Bytes) (n : Node H E)
      → label_of n ≡ first (info n).prefix
      → 0 < lcp search (info n).prefix
      → label_of (insert_node w search n) ≡ label_of n
  label-insert_node w search (node i cs) h p = label-round w search i cs h (round w search i cs p)
