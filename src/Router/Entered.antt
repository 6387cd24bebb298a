-- ===== src/Router/Entered.antt =====
-- `insert` of core/router.go on a whole router: with no handler it leaves every entry as it is, and
-- with one it enters the path, the names and the Echo instance.
use thinkgo.Base.{
  ℕ, true, false, ◌≡◌, ◌≢◌, refl, ap, sym, ◌∙◌, ◌⊎◌, inl, inr, arith, if◌then◌else◌, Bytes, [], ◌∷◌,
  Option, none, some, first, ltb, length, strip, equal, equal_iff, Bool-cases,
}
use thinkgo.Router.Tree.{Info, Node, Nodes, node, nil, cons, info}
use thinkgo.Router.Insert.{Write, write_root, insert_node, Router, insert}
use thinkgo.Router.Content.{IsSound}
use thinkgo.Router.Rooted.{
  IsFresh, IsRooted, insert_node-fresh, insert_node-IsRooted, IsSound-shares,
}
use thinkgo.Router.Ends.{ends_at, ends_below, strip_itself}
use thinkgo.Router.Entries.{NodeEntry, entry_at, entry_below, entered, insert_node-Enters}

module _ {H E : Type 0} where
  entry_at-ends_on :
      (i : Info H E) (cs : Nodes H E) (k : Bytes) (o : NodeEntry E)
      → ((c : ℕ) (r : Bytes) (o : NodeEntry E)
          → entry_below (c ∷ r) cs ≡ some o
          → ends_below (c ∷ r) cs ≡ true)
      → (p : Option Bytes) → strip i.prefix k ≡ p
      → entry_at k (node i cs) ≡ some o
      → ends_at k (node i cs) ≡ true
  unfolding ends_at entry_at
  entry_at-ends_on i cs k o ih none p h = ground (arith, p, h)
  entry_at-ends_on i cs k o ih (some []) p h = ground (arith, p, h)
  entry_at-ends_on i cs k o ih (some (c ∷ r)) p h = ground (arith, p, h, ih c r o)

  mutual
    unfolding ends_at entry_at

    entry_at-ends_at :
        (n : Node H E) (k : Bytes) (o : NodeEntry E) → entry_at k n ≡ some o → ends_at k n ≡ true
    entry_at-ends_at (node i cs) k o h =
        entry_at-ends_on i cs k o (entry_below-ends_below cs) (strip i.prefix k) refl h

    entry_below-ends_below :
        (cs : Nodes H E) (c : ℕ) (k : Bytes) (o : NodeEntry E)
        → entry_below (c ∷ k) cs ≡ some o
        → ends_below (c ∷ k) cs ≡ true
    entry_below-ends_below nil c k o h = cc
    entry_below-ends_below (cons d ds) c k o h =
        ground (arith, entry_at-ends_at d (c ∷ k) o, entry_below-ends_below ds c k o)

  -- The write has no handler, or is at another key.
  abbrev pub Spares : Write H E → Bytes → Type 0
  Spares w k = (w.handler ≡ none) ⊎ (equal k w.path ≡ false)

  stays :
      (w : Write H E) (n : Node H E) (k : Bytes) (o : NodeEntry E)
      → ends_at k n ≡ true
      → Spares w k
      → entry_at k n ≡ some o
      → (if equal k w.path then entered w (ends_at w.path n) (entry_at k n) else entry_at k n)
        ≡ some o
  stays w n k o there (inr other) h = rw other h
  stays w n k o there (inl silent) h = elim (Bool-cases (equal k w.path)) [
    | inr other ↦ rw other h
    | inl e ↦
        let at : k ≡ w.path = (equal_iff k w.path).0 e in
        let t : ends_at w.path n ≡ true = ap (λ z. ends_at z n) (sym at) ∙ there in
        rw (e, t, silent) h
  ]

  tree_stays :
      (w : Write H E) (n : Node H E) (k : Bytes) (o : NodeEntry E)
      → IsFresh n ⊎ (IsSound n × (first (info n).prefix ≡ b'/'))
      → first w.path ≡ b'/'
      → k ≢ []
      → Spares w k
      → entry_at k n ≡ some o
      → entry_at k (insert_node w w.path n) ≡ some o
  unfolding entry_at strip
  tree_stays w n [] o s p ne sp h = absurd (ne refl)
  tree_stays w (node i cs) (c ∷ k) o (inl f) p ne sp h =
      absurd (ground (arith, f.no_prefix, f.no_children, h))
  tree_stays w n (c ∷ k) o (inr (so, q)) p ne sp h =
      let law = insert_node-Enters w n (c ∷ k) w.path so (IsSound-shares n w.path so q p) in
      law ∙ stays w n (c ∷ k) o (entry_at-ends_at n (c ∷ k) o h) sp h

  -- The entry is that of the write; its path is the one that the write is at, or the one that it
  -- carries.
  abbrev pub Puts : Write H E → Option (NodeEntry E) → Type 0
  Puts w new =
      (o : NodeEntry E) × (new ≡ some o)
      × (o.names ≡ w.pnames)
      × (o.echo ≡ w.echo)
      × ((o.path ≡ w.path) ⊎ (o.path ≡ w.ppath))

  tree-Puts :
      (w : Write H E) (n : Node H E) (h : H)
      → IsFresh n ⊎ (IsSound n × (first (info n).prefix ≡ b'/'))
      → first w.path ≡ b'/'
      → w.handler ≡ some h
      → Puts w (entry_at w.path (insert_node w w.path n))
  unfolding entry_at write_root
  tree-Puts w (node i cs) h (inl f) p e = rw (insert_node-fresh w i cs f) (
    record { path = w.ppath; names = w.pnames; echo = w.echo },
    ground (arith, e, strip_itself w.path),
    refl,
    refl,
    inr refl,
  )
  tree-Puts w n h (inr (so, q)) p e =
      let law = insert_node-Enters w n w.path w.path so (IsSound-shares n w.path so q p) in
      let same_path : equal w.path w.path ≡ true = (equal_iff w.path w.path).1 refl in
      elim (Bool-cases (ends_at w.path n)) [
        | inl t ↦ (
          record { path = w.path; names = w.pnames; echo = w.echo },
          law ∙ rw (same_path, t, e) refl,
          refl,
          refl,
          inl refl,
        )
        | inr t ↦ (
          record { path = w.ppath; names = w.pnames; echo = w.echo },
          law ∙ rw (same_path, t) refl,
          refl,
          refl,
          inr refl,
        )
      ]

  -- What a write does to the entries of a router
  abbrev pub Enters : Write H E → Router H E → Router H E → Type 0
  Enters w r r' =
      ((k : Bytes) (o : NodeEntry E)
        → k ≢ []
        → Spares w k
        → entry_at k r.tree ≡ some o
        → entry_at k r'.tree ≡ some o)
      × ((h : H) → w.handler ≡ some h → Puts w (entry_at w.path r'.tree))

  -- A write ends well; it leaves the entry of every key that it spares, and with a handler it puts its own.
  pub insert-Enters :
      (w : Write H E) (r : Router H E)
      → IsRooted r
      → first w.path ≡ b'/'
      → (r' : Router H E) × (insert w r ≡ some r') × IsRooted r' × Enters w r r'
  unfolding insert
  insert-Enters w r s p = (
    record {
      tree = insert_node w w.path r.tree;
      max_param = if ltb r.max_param (length w.pnames) then length w.pnames else r.max_param;
    },
    ground arith,
    inr (insert_node-IsRooted w r.tree s p),
    (λ k o ne sp h. tree_stays w r.tree k o s p ne sp h, λ h e. tree-Puts w r.tree h s p e),
  )
