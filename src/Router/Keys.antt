-- ===== src/Router/Keys.antt =====
-- The texts that the nodes of core/router.go stand at: they only start what was written.
use thinkgo.Base.{
  ℕ, ◌<◌, ◌==◌, ◌≡◌, ap, sym, ◌∙◌, subst, ◌⊎◌, inl, inr, arith, Bytes, [], ◌∷◌, ◌++◌, some, length,
  first, lcp, ltb, if◌then◌else◌, append-nil, append_assoc, Bool-cases,
}
use thinkgo.Router.Tree.{Info, Node, Nodes, node, nil, cons, label_of, info}
use thinkgo.Router.Insert.{
  Write, split, overwrite, write_root, insert_node, insert_below, Router, insert,
}
use thinkgo.Router.Content.{IsSound, AllSound, IsSound-lcp}
use thinkgo.Router.Rounds.{Round, splits, deepens, finds, round}
use thinkgo.Router.Writes.{split-here, split-below}
use thinkgo.Router.Rooted.{
  IsFresh, IsRooted, insert_node-fresh, insert_node-IsRooted, IsSound-shares,
}

-- What starts a text of the predicate is one.
abbrev pub IsClosed : (Bytes → Type 0) → Type 0
IsClosed p = (a b : Bytes) → p (a ++ b) → p a

pub below_closed : (p : Bytes → Type 0) (q : Bytes) → IsClosed p → IsClosed (λ k. p (q ++ k))
below_closed p q cl a b h = cl (q ++ a) b (subst p (sym (append_assoc q a b)) h)

module _ {H E : Type 0} where
  -- The texts of all nodes have the predicate.
  abbrev mutual
    pub HasKeys : (Bytes → Type 0) → Node H E → Type 0
    HasKeys p (node i cs) = p i.prefix × AllKeys (λ k. p (i.prefix ++ k)) cs

    pub AllKeys : (Bytes → Type 0) → Nodes H E → Type 0
    AllKeys p nil = Unit
    AllKeys p (cons c cs) = HasKeys p c × AllKeys p cs

  mutual
    HasKeys-map :
        (p q : Bytes → Type 0) (n : Node H E)
        → ((k : Bytes) → p k → q k)
        → HasKeys p n
        → HasKeys q n
    HasKeys-map p q (node i cs) f (h, hs) = (
      f i.prefix h,
      AllKeys-map (λ k. p (i.prefix ++ k)) (λ k. q (i.prefix ++ k)) cs (λ k. f (i.prefix ++ k)) hs,
    )

    pub AllKeys-map :
        (p q : Bytes → Type 0) (cs : Nodes H E)
        → ((k : Bytes) → p k → q k)
        → AllKeys p cs
        → AllKeys q cs
    AllKeys-map p q nil f h = tt
    AllKeys-map p q (cons c cs) f (h, hs) = (HasKeys-map p q c f h, AllKeys-map p q cs f hs)

  module _ (w : Write H E) where
    split-HasKeys :
        (p : Bytes → Type 0) (q : Bytes) (y : ℕ) (r s : Bytes) (i : Info H E) (cs : Nodes H E)
        → IsClosed p
        → i.prefix ≡ q ++ (y ∷ r)
        → p (q ++ s)
        → HasKeys p (node i cs)
        → HasKeys p (split w (q ++ s) (length q) i cs)
    split-HasKeys p q y r [] i cs cl e k (h, hs) =
        let h' : p (q ++ (y ∷ r)) = subst p e h in
        let hs' : AllKeys (λ t. p (q ++ ((y ∷ r) ++ t))) cs =
          AllKeys-map (λ t. p (i.prefix ++ t)) (λ t. p (q ++ ((y ∷ r) ++ t))) cs
            (λ t. subst p (ap (λ (z : Bytes). z ++ t) e ∙ append_assoc q (y ∷ r) t)) hs in
        rw append-nil (rw (split-here w q (y ∷ r) i cs e) (cl q (y ∷ r) h', ((h', hs'), tt)))
    split-HasKeys p q y r (c ∷ s) i cs cl e k (h, hs) =
        let h' : p (q ++ (y ∷ r)) = subst p e h in
        let hs' : AllKeys (λ t. p (q ++ ((y ∷ r) ++ t))) cs =
          AllKeys-map (λ t. p (i.prefix ++ t)) (λ t. p (q ++ ((y ∷ r) ++ t))) cs
            (λ t. subst p (ap (λ (z : Bytes). z ++ t) e ∙ append_assoc q (y ∷ r) t)) hs in
        rw (split-below w q (y ∷ r) c s i cs e) (cl q (y ∷ r) h', ((h', hs'), ((k, tt), tt)))

    keeps_keys :
        (p : Bytes → Type 0) (i : Info H E) (cs : Nodes H E)
        → HasKeys p (node i cs)
        → HasKeys p (node (overwrite w i) cs)
    unfolding overwrite
    keeps_keys p i cs h =
        let e : i.prefix ≡ (overwrite w i).prefix = ground arith in
        subst (λ z. p z × AllKeys (λ k. p (z ++ k)) cs) e h

    round-HasKeys :
        (p : Bytes → Type 0) (search : Bytes) (i : Info H E) (cs : Nodes H E)
        → Round w search i cs
        → IsClosed p
        → p search
        → HasKeys p (node i cs)
        → ((c : ℕ) (s : Bytes)
            → p (i.prefix ++ (c ∷ s))
            → AllKeys (λ k. p (i.prefix ++ k)) (insert_below w (c ∷ s) cs))
        → HasKeys p (insert_node w search (node i cs))
    unfolding overwrite
    round-HasKeys p search i cs (splits q y r s l a e d x) cl k h ih =
        rw x (split-HasKeys p q y r s i cs cl e (subst p a k) h)
    round-HasKeys p search i cs (deepens c s a x) cl k h ih = rw x (h.0, ih c s (subst p a k))
    round-HasKeys p search i cs (finds a x) cl k h ih = rw x (keeps_keys p i cs h)

    mutual
      unfolding insert_node

      pub insert_node-HasKeys :
          (p : Bytes → Type 0) (n : Node H E) (search : Bytes)
          → IsClosed p
          → IsSound n
          → 0 < lcp search (info n).prefix
          → p search
          → HasKeys p n
          → HasKeys p (insert_node w search n)
      insert_node-HasKeys p (node i cs) search cl so l k h =
          round-HasKeys p search i cs (round w search i cs l) cl k h (λ c s k'.
            insert_below-AllKeys (λ t. p (i.prefix ++ t)) cs c s (below_closed p i.prefix cl) so.2
              k' h.1)

      insert_below-AllKeys :
          (p : Bytes → Type 0) (cs : Nodes H E) (c : ℕ) (s : Bytes)
          → IsClosed p
          → AllSound cs
          → p (c ∷ s)
          → AllKeys p cs
          → AllKeys p (insert_below w (c ∷ s) cs)
      insert_below-AllKeys p nil c s cl so k h = ((k, tt), tt)
      insert_below-AllKeys p (cons d ds) c s cl (sd, so) k (h, hs) =
          elim (Bool-cases (label_of d == c)) [
            | inl here ↦
                let l : 0 < lcp (c ∷ s) (info d).prefix =
                  IsSound-lcp d (c ∷ s) sd (ground arith) (ground arith) in
                rw here (insert_node-HasKeys p d (c ∷ s) cl sd l k h, hs)
            | inr later ↦ rw later (h, insert_below-AllKeys p ds c s cl so k hs)
          ]

    root_keys :
        (p : Bytes → Type 0) (i : Info H E)
        → p w.path
        → HasKeys p (node (write_root w w.path i) nil)
    unfolding write_root
    root_keys p i k =
        let e : w.path ≡ (write_root w w.path i).prefix = ground arith in (subst p e k, tt)

    tree-HasKeys :
        (p : Bytes → Type 0) (n : Node H E)
        → IsClosed p
        → IsFresh n ⊎ (IsSound n × (first (info n).prefix ≡ b'/'))
        → first w.path ≡ b'/'
        → p w.path
        → HasKeys p n
        → HasKeys p (insert_node w w.path n)
    tree-HasKeys p (node i cs) cl (inl f) r k h = rw (insert_node-fresh w i cs f) (root_keys p i k)
    tree-HasKeys p n cl (inr (so, q)) r k h =
        insert_node-HasKeys p n w.path cl so (IsSound-shares n w.path so q r) k h

    -- A write at a text of the predicate keeps it for the nodes of a router.
    pub insert-HasKeys :
        (p : Bytes → Type 0) (r : Router H E)
        → IsClosed p
        → IsRooted r
        → first w.path ≡ b'/'
        → p w.path
        → HasKeys p r.tree
        → (r' : Router H E) × (insert w r ≡ some r') × IsRooted r' × HasKeys p r'.tree
    unfolding insert
    insert-HasKeys p r cl s f k h = (
      record {
        tree = insert_node w w.path r.tree;
        max_param = if ltb r.max_param (length w.pnames) then length w.pnames else r.max_param;
      },
      ground arith,
      inr (insert_node-IsRooted w r.tree s f),
      tree-HasKeys p r.tree cl s f k h,
    )
