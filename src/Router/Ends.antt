-- ===== src/Router/Ends.antt =====
-- Where the nodes of core/router.go end: the texts that the prefixes from the root to a node spell out.
-- `Add` writes at such a text before it goes on behind it.
use thinkgo.Base.{
  strip_self, ℕ, ◌<◌, Bool, true, false, ◌==◌, ◌≡◌, ◌≢◌, ap, sym, ◌∙◌, ◌⊎◌, inl, inr, arith, Bytes,
  [], ◌∷◌, ◌++◌, none, some, length, first, lcp, strip, append-nil, Bool-cases, if◌then◌else◌,
}
use thinkgo.Router.Tree.{Info, Node, Nodes, node, nil, cons, label_of, info}
use thinkgo.Router.Insert.{Write, split, overwrite, insert_node, insert_below}
use thinkgo.Router.Content.{IsSound, AllSound, IsSound-lcp, IsSound-label}
use thinkgo.Router.Rounds.{Round, splits, deepens, finds, round, label-insert_node}
use thinkgo.Router.Writes.{split-here, split-below}

module _ {H E : Type 0} where
  -- A node ends at the key.
  unfoldable mutual
    pub ends_at : Bytes → Node H E → Bool
    ends_at key (node i cs) = elim (strip i.prefix key) [
      | none ↦ false
      | some rest ↦ elim rest [ [] ↦ true | c ∷ r ↦ ends_below (c ∷ r) cs ]
    ]

    pub ends_below : Bytes → Nodes H E → Bool
    ends_below key nil = false
    ends_below key (cons c cs) =
        if label_of c == first key then ends_at key c else ends_below key cs

pub strip_itself : (p : Bytes) → strip p p ≡ some []
strip_itself p = ap (strip p) (sym (append-nil p)) ∙ strip_self p []

module _ {H E : Type 0} (w : Write H E) where
  ends_at-split :
      (q : Bytes) (y : ℕ) (r s : Bytes) (i : Info H E) (cs : Nodes H E)
      → i.prefix ≡ q ++ (y ∷ r)
      → (s ≡ []) ⊎ (first s ≢ y)
      → ends_at (q ++ s) (split w (q ++ s) (length q) i cs) ≡ true
  unfolding ends_at
  ends_at-split q y r [] i cs e d =
      rw append-nil (rw (split-here w q (y ∷ r) i cs e) (ground (arith, strip_itself q)))
  ends_at-split q y r (c ∷ s) i cs e d =
      rw (split-below w q (y ∷ r) c s i cs e)
        (ground (arith, strip_self q (c ∷ s), strip_itself (c ∷ s)))

  ends_at-round :
      (search : Bytes) (i : Info H E) (cs : Nodes H E)
      → Round w search i cs
      → ((c : ℕ) (s : Bytes) → ends_below (c ∷ s) (insert_below w (c ∷ s) cs) ≡ true)
      → ends_at search (insert_node w search (node i cs)) ≡ true
  unfolding ends_at overwrite
  ends_at-round search i cs (splits q y r s p a e d x) ih =
      rw x (rw a (ends_at-split q y r s i cs e d))
  ends_at-round search i cs (deepens c s a x) ih =
      rw x (ground (arith, strip_self i.prefix (c ∷ s), a, ih c s))
  ends_at-round search i cs (finds a x) ih = rw x (ground (arith, strip_itself i.prefix, a))

  mutual
    unfolding insert_node ends_at

    -- After a write, a node ends at the text that was written at.
    pub ends_at-insert_node :
        (n : Node H E) (search : Bytes)
        → IsSound n
        → 0 < lcp search (info n).prefix
        → ends_at search (insert_node w search n) ≡ true
    ends_at-insert_node (node i cs) search h p =
        ends_at-round search i cs (round w search i cs p)
          (λ c s. ends_below-insert_below cs c s h.2)

    pub ends_below-insert_below :
        (cs : Nodes H E) (c : ℕ) (s : Bytes)
        → AllSound cs
        → ends_below (c ∷ s) (insert_below w (c ∷ s) cs) ≡ true
    ends_below-insert_below nil c s h = ground (arith, strip_itself (c ∷ s))
    ends_below-insert_below (cons d ds) c s (h, hs) = elim (Bool-cases (label_of d == c)) [
      | inl here ↦
          let p : 0 < lcp (c ∷ s) (info d).prefix =
            IsSound-lcp d (c ∷ s) h (ground arith) (ground arith) in
          rw here (
            ground (
              arith,
              label-insert_node w (c ∷ s) d (IsSound-label d h) p,
              ends_at-insert_node d (c ∷ s) h p,
            ))
      | inr later ↦ rw later (ground (arith, later, ends_below-insert_below ds c s hs))
    ]
