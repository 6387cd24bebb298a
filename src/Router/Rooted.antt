-- ===== src/Router/Rooted.antt =====
-- `insert` of core/router.go on a whole router, the fresh one included.
use thinkgo.Base.{
  ◌<◌, ltb, ◌≡◌, refl, ap, ◌∙◌, sym, ◌⊎◌, inl, inr, arith, Bytes, [], ◌∷◌, length, first, lcp,
  if◌then◌else◌, Option, some, equal, equal-strip, strip,
}
use thinkgo.Router.Method.{Method, no_handlers}
use thinkgo.Router.Tree.{Info, Node, Nodes, node, nil, info, children}
use thinkgo.Router.Insert.{Write, write_root, insert_node, Router, new_router, insert}
use thinkgo.Router.Content.{
  IsSound, IsSound-label, IsSound-lcp, handler_at, written, find_handler-no_handlers,
  find_handler-add_handler,
}
use thinkgo.Router.Sound.{insert_node-IsSound}
use thinkgo.Router.Rounds.{label-insert_node}
use thinkgo.Router.Refines.{insert_node-Writes}

lcp-nil : (s : Bytes) → lcp s [] ≡ 0
unfolding lcp
lcp-nil [] = refl
lcp-nil (x ∷ s) = refl

module _ {H E : Type 0} where
  pub IsSound-shares :
      (n : Node H E) (s : Bytes)
      → IsSound n
      → first (info n).prefix ≡ b'/'
      → first s ≡ b'/'
      → 0 < lcp s (info n).prefix
  IsSound-shares n s h e f = IsSound-lcp n s h (ground arith) (IsSound-label n h ∙ e ∙ sym f)

  -- The root of `NewRouter`, before any route is there.
  pub record IsFresh (n : Node H E) : Type 0 where
    pub no_prefix : (info n).prefix ≡ []
    pub no_children : children n ≡ nil
    pub nothing : (info n).handlers ≡ no_handlers

  -- The tree is fresh, or sound with a root that starts with a slash.
  abbrev pub IsRooted : Router H E → Type 0
  IsRooted r = IsFresh r.tree ⊎ (IsSound r.tree × (first (info r.tree).prefix ≡ b'/'))

  -- What a lookup of `core/router.go`'s handlers at an exact key gives.
  abbrev pub registered : Router H E → Method → Bytes → Option H
  registered r m k = handler_at m k r.tree

  pub new_router-IsRooted : IsRooted (new_router {H = H} {E = E})
  new_router-IsRooted = inl (record { no_prefix = refl; no_children = refl; nothing = refl })

  module _ (w : Write H E) where
    pub insert_node-fresh :
        (i : Info H E) (cs : Nodes H E)
        → IsFresh (node i cs)
        → insert_node w w.path (node i cs) ≡ node (write_root w w.path i) nil
    unfolding insert_node
    insert_node-fresh i cs f = ground (arith, ap (lcp w.path) f.no_prefix, lcp-nil w.path)

    write_root-Writes :
        (i : Info H E) (cs : Nodes H E) (m : Method) (k : Bytes)
        → IsFresh (node i cs)
        → handler_at m k (node (write_root w w.path i) nil) ≡ (
            if equal k w.path
            then written w m (handler_at m k (node i cs))
            else handler_at m k (node i cs))
    unfolding handler_at write_root strip
    write_root-Writes i cs m k f = ground (
      arith,
      f.no_prefix,
      f.no_children,
      f.nothing,
      equal-strip w.path k,
      find_handler-add_handler m w.method w.handler no_handlers,
      find_handler-no_handlers {H = H} m,
    )

    insert_node-Written :
        (n : Node H E) (m : Method) (k : Bytes)
        → IsFresh n ⊎ (IsSound n × (first (info n).prefix ≡ b'/'))
        → first w.path ≡ b'/'
        → handler_at m k (insert_node w w.path n)
          ≡ (if equal k w.path then written w m (handler_at m k n) else handler_at m k n)
    insert_node-Written (node i cs) m k (inl f) h =
        rw (insert_node-fresh i cs f) (write_root-Writes i cs m k f)
    insert_node-Written n m k (inr (s, e)) h =
        insert_node-Writes w m n k w.path s (IsSound-shares n w.path s e h)

    pub insert_node-IsRooted :
        (n : Node H E)
        → IsFresh n ⊎ (IsSound n × (first (info n).prefix ≡ b'/'))
        → first w.path ≡ b'/'
        → IsSound (insert_node w w.path n) × (first (info (insert_node w w.path n)).prefix ≡ b'/')
    unfolding write_root
    insert_node-IsRooted (node i cs) (inl f) h = rw (insert_node-fresh i cs f) (ground arith)
    insert_node-IsRooted n (inr (s, e)) h =
        let p : 0 < lcp w.path (info n).prefix = IsSound-shares n w.path s e h in
        let t = insert_node-IsSound w n w.path s p in
        (
          t,
          ground (
            arith,
            IsSound-label _ t,
            IsSound-label n s,
            label-insert_node w w.path n (IsSound-label n s) p,
          ),
        )

    -- On a rooted tree, a write at a path from the root succeeds, keeps the tree rooted, and sets the
    -- handler of that path and method alone.
    pub insert-registered :
        (r : Router H E)
        → IsRooted r
        → first w.path ≡ b'/'
        → (r' : Router H E) × (insert w r ≡ some r')
          × IsRooted r'
          × ((m : Method) (k : Bytes)
              → registered r' m k
                ≡ (if equal k w.path then written w m (registered r m k) else registered r m k))
    unfolding insert
    insert-registered r s h = (
      record {
        tree = insert_node w w.path r.tree;
        max_param = if ltb r.max_param (length w.pnames) then length w.pnames else r.max_param;
      },
      ground arith,
      inr (insert_node-IsRooted r.tree s h),
      λ m k. insert_node-Written r.tree m k s h,
    )
