-- ===== src/Router/Refines.antt =====
-- `insert` of core/router.go writes one key of the map, whatever the shape of the tree.
use thinkgo.Base.{
  ℕ, ◌<◌, ◌==◌, ◌≡◌, refl, inl, inr, if◌then◌else◌, Bytes, [], ◌∷◌, ◌++◌, Option, none, some, strip,
  lcp, equal, arith, equal-append, Bool-cases,
}
use thinkgo.Router.Method.{Method}
use thinkgo.Router.Tree.{Info, Node, Nodes, node, nil, cons, label_of, info}
use thinkgo.Router.Insert.{Write, insert_node, insert_below}
use thinkgo.Router.Content.{
  handler_at, handler_below, written, IsSound, AllSound, IsSound-label, IsSound-lcp,
}
use thinkgo.Router.Rounds.{Round, splits, deepens, finds, round, label-insert_node}
use thinkgo.Router.Writes.{handler_at-leaf, handler_at-overwrite, handler_at-split}

module _ {H E : Type 0} (w : Write H E) (m : Method) where
  -- `old` and `new` agree but at the key that is written.
  abbrev Writes : Bytes → Bytes → Option H → Option H → Type 0
  Writes k search old new = new ≡ (if equal k search then written w m old else old)

  abbrev BelowWrites : Nodes H E → Type 0
  BelowWrites cs =
      (x : ℕ) (k : Bytes) (c : ℕ) (s : Bytes)
      → Writes (x ∷ k) (c ∷ s) (handler_below m (x ∷ k) cs)
          (handler_below m (x ∷ k) (insert_below w (c ∷ s) cs))

  -- Below a node that the search passes, only keys that pass it too are written.
  deepens-Writes :
      (k : Bytes) (c : ℕ) (s : Bytes) (i : Info H E) (cs : Nodes H E)
      → BelowWrites cs
      → (o : Option Bytes) → strip i.prefix k ≡ o
      → Writes k
          (i.prefix ++ (c ∷ s))
          (handler_at m k (node i cs))
          (handler_at m k (node i (insert_below w (c ∷ s) cs)))
  unfolding handler_at equal
  deepens-Writes k c s i cs ih none o = ground (arith, equal-append i.prefix (c ∷ s) k)
  deepens-Writes k c s i cs ih (some []) o = ground (arith, equal-append i.prefix (c ∷ s) k)
  deepens-Writes k c s i cs ih (some (x ∷ k')) o =
      ground (arith, equal-append i.prefix (c ∷ s) k, ih x k' c s)

  round-Writes :
      (k search : Bytes) (i : Info H E) (cs : Nodes H E)
      → Round w search i cs
      → BelowWrites cs
      → Writes k search
          (handler_at m k (node i cs))
          (handler_at m k (insert_node w search (node i cs)))
  round-Writes k search i cs (splits q y r s p a e d x) ih =
      rw (x, a)
        (handler_at-split w m k q (y ∷ r) s i cs e (ground arith) (ground arith) (ground arith))
  round-Writes k search i cs (deepens c s a x) ih =
      rw (x, a) (deepens-Writes k c s i cs ih (strip i.prefix k) refl)
  round-Writes k search i cs (finds a x) ih = rw (x, a) (handler_at-overwrite w m k i cs)

  mutual
    unfolding insert_node handler_at equal

    pub insert_node-Writes :
        (n : Node H E) (k search : Bytes)
        → IsSound n
        → 0 < lcp search (info n).prefix
        → Writes k search (handler_at m k n) (handler_at m k (insert_node w search n))
    insert_node-Writes (node i cs) k search (_, _, h) p =
        round-Writes k search i cs (round w search i cs p)
          (λ x k c s. insert_below-Writes cs x k c s h)

    insert_below-Writes :
        (cs : Nodes H E) (x : ℕ) (k : Bytes) (c : ℕ) (s : Bytes)
        → AllSound cs
        → Writes
            (x ∷ k)
            (c ∷ s)
            (handler_below m (x ∷ k) cs)
            (handler_below m (x ∷ k) (insert_below w (c ∷ s) cs))
    insert_below-Writes nil x k c s h = ground (arith, handler_at-leaf w m (x ∷ k) (c ∷ s))
    insert_below-Writes (cons d ds) x k c s (h, hs) = elim (Bool-cases (label_of d == c)) [
      | inl here ↦
          let p : 0 < lcp (c ∷ s) (info d).prefix =
            IsSound-lcp d (c ∷ s) h (ground arith) (ground arith) in
          ground (
            arith,
            insert_node-Writes d (x ∷ k) (c ∷ s) h p,
            label-insert_node w (c ∷ s) d (IsSound-label d h) p,
          )
      | inr later ↦ ground (arith, insert_below-Writes ds x k c s hs)
    ]
