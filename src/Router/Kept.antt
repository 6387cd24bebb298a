-- ===== src/Router/Kept.antt =====
-- `Add` of core/router.go keeps the shape of the nodes: every call of `insert` that it makes goes on
-- behind the end of a node by one mark, or by plain text for a static node.
use thinkgo.Base.{
  ℕ, true, false, ◌==◌, ◌≡◌, refl, ap, sym, ◌∙◌, subst, ◌⊎◌, inl, inr, arith, Bytes, List, [], ◌∷◌,
  ◌++◌, Option, none, some, length, first, ltb, strip, if◌then◌else◌, append_assoc, Bool-cases,
  codes,
}
use thinkgo.Router.Tree.{Kind, same_kind, skind, pkind, mkind, Info, Node, Nodes, node, nil, info}
use thinkgo.Router.Insert.{
  Write, write_root, insert_node, Router, insert, Registration, static_write, route_write, add_from,
  add, ◌>>=◌, new_router,
}
use thinkgo.Router.Content.{IsSound}
use thinkgo.Router.Rooted.{
  IsFresh, IsRooted, new_router-IsRooted, insert_node-fresh, insert_node-IsRooted, IsSound-shares,
}
use thinkgo.Router.Routes.{first-concat}
use thinkgo.Router.Shaped.{is_mark, is_plain, is_plain-append, fits, IsShaped}
use thinkgo.Router.Ends.{ends_at, ends_at-insert_node, strip_itself}
use thinkgo.Router.Shaped.{is_piece}
use thinkgo.Router.Grows.{insert_node-IsShaped}
use thinkgo.Router.Behind.{behind-IsShaped}

-- A node ends at the text, or the text is empty.
abbrev pub IsBoundary : {H E : Type 0} → Bytes → Node H E → Type 0
IsBoundary b n = (b ≡ []) ⊎ (ends_at b n ≡ true)

-- The router with its shape: what `Add` keeps.
abbrev pub IsKept : {H E : Type 0} → Router H E → Type 0
IsKept r = IsRooted r × IsShaped r.tree

static_piece : (s : Bytes) → is_piece skind s ≡ is_plain s
static_piece [] = refl
static_piece (c ∷ []) = refl
static_piece (c ∷ d ∷ s) = refl

pub rooted_piece :
    (t : Kind) (s : Bytes)
    → first s ≡ b'/'
    → is_piece t s ≡ true
    → (same_kind t skind ≡ true) × (is_plain s ≡ true)
rooted_piece t [] h k = cc
rooted_piece skind (c ∷ s) h k = ground arith
rooted_piece pkind (c ∷ []) h k = ground arith
rooted_piece mkind (c ∷ []) h k = ground arith
rooted_piece t (c ∷ d ∷ s) h k = ground arith

module _ {H E : Type 0} where
  -- The run ends well in a router that keeps both.
  abbrev pub Keeps : Option (Router H E) → Type 0
  Keeps result = (r : Router H E) × (result ≡ some r) × IsKept r

  fresh_boundary :
      (b : Bytes) (i : Info H E) (cs : Nodes H E)
      → IsFresh (node i cs)
      → ends_at b (node i cs) ≡ true
      → b ≡ []
  unfolding ends_at strip
  fresh_boundary [] i cs f h = refl
  fresh_boundary (c ∷ b) i cs f h = ground (arith, f.no_prefix, f.no_children, h)

  module _ (w : Write H E) where
    fresh_kept :
        (i : Info H E) (cs : Nodes H E)
        → IsFresh (node i cs)
        → IsShaped (node i cs)
        → first w.path ≡ b'/'
        → is_piece w.kind w.path ≡ true
        → IsShaped (node (write_root w w.path i) nil)
          × (ends_at w.path (node (write_root w w.path i) nil) ≡ true)
    unfolding write_root ends_at
    fresh_kept i cs f h p k =
        let z : fits i ≡ true = h.0 in
        let (t, a) = rooted_piece w.kind w.path p k in
        ground (arith, f.no_prefix, z, t, a, strip_itself w.path)

    -- A write keeps the shape, and a node ends at its path.
    node_kept :
        (n : Node H E) (b s : Bytes)
        → IsFresh n ⊎ (IsSound n × (first (info n).prefix ≡ b'/'))
        → IsShaped n
        → first w.path ≡ b'/'
        → w.path ≡ b ++ s
        → is_piece w.kind s ≡ true
        → IsBoundary b n
        → IsShaped (insert_node w w.path n) × (ends_at w.path (insert_node w w.path n) ≡ true)
    node_kept (node i cs) b s (inl f) h p e k (inl z) =
        rw (insert_node-fresh w i cs f) (fresh_kept i cs f h p (ground (arith, z, e, k)))
    node_kept (node i cs) b s (inl f) h p e k (inr z) =
        let y : b ≡ [] = fresh_boundary b i cs f z in
        rw (insert_node-fresh w i cs f) (fresh_kept i cs f h p (ground (arith, y, e, k)))
    node_kept n b s (inr (so, q)) h p e k (inl z) =
        let l = IsSound-shares n w.path so q p in
        (
          insert_node-IsShaped w n w.path so h l (ground (arith, z, e, k)),
          ends_at-insert_node w n w.path so l,
        )
    node_kept n b s (inr (so, q)) h p e k (inr z) =
        let l = IsSound-shares n w.path so q p in
        (
          subst (λ x. IsShaped (insert_node w x n)) (sym e) (behind-IsShaped w n b s so h k z),
          ends_at-insert_node w n w.path so l,
        )

    -- A call of `insert` of the kind that `Add` makes ends well; then a node ends at its path.
    pub insert-IsKept :
        (r : Router H E) (b s : Bytes)
        → IsKept r
        → first w.path ≡ b'/'
        → w.path ≡ b ++ s
        → is_piece w.kind s ≡ true
        → IsBoundary b r.tree
        → (r' : Router H E) × (insert w r ≡ some r') × IsKept r' × (ends_at w.path r'.tree ≡ true)
    unfolding insert
    insert-IsKept r b s (h, k) p e c z =
        let (k', z') = node_kept r.tree b s h k p e c z in
        (
          record {
            tree = insert_node w w.path r.tree;
            max_param = if ltb r.max_param (length w.pnames) then length w.pnames else r.max_param;
          },
          ground arith,
          (inr (insert_node-IsRooted w r.tree h p), k'),
          z',
        )

-- What stands between the end of a node and the end of what `Add` has read is a piece of the kind: plain text, or
-- the mark of the parameter whose name is being read.
abbrev IsReady : {H E : Type 0} → Kind → Bytes → Router H E → Type 0
IsReady t read r =
    (b : Bytes) × (s : Bytes) × (read ≡ b ++ s) × (is_piece t s ≡ true) × IsBoundary b r.tree

abbrev reading : Option Bytes → Kind
reading none = skind
reading (some name) = pkind

module _ {H E : Type 0} (a : Registration H E) where
  -- A write where a node ends after it, and a run that goes on from there
  Keeps-after :
      (w : Write H E) (r : Router H E) (f : Router H E → Option (Router H E))
      → IsKept r
      → first w.path ≡ b'/'
      → IsReady w.kind w.path r
      → ((r' : Router H E) → IsKept r' → ends_at w.path r'.tree ≡ true → Keeps (f r'))
      → Keeps (insert w r >>= f)
  Keeps-after w r f h p (b, s, e, c, z) go =
      let (r1, x, h1, z1) = insert-IsKept w r b s h p e c z in rw x (go r1 h1 z1)

  Keeps-last :
      (w : Write H E) (r : Router H E)
      → IsKept r
      → first w.path ≡ b'/'
      → IsReady w.kind w.path r
      → Keeps (insert w r)
  Keeps-last w r h p (b, s, e, c, z) =
      let (r1, x, h1, z1) = insert-IsKept w r b s h p e c z in (r1, x, h1)

  plain_on :
      (read : Bytes) (c : ℕ) (r : Router H E)
      → is_mark c ≡ false
      → IsReady skind read r
      → IsReady skind (read ++ c ∷ []) r
  plain_on read c r m (b, s, e, k, z) = (
    b,
    s ++ c ∷ [],
    ap (λ (x : Bytes). x ++ c ∷ []) e ∙ append_assoc b s (c ∷ []),
    static_piece (s ++ c ∷ [])
        ∙ is_plain-append s (c ∷ [])
        ∙ ground (arith, m, sym (static_piece s) ∙ k),
    z,
  )

  add_from-Keeps :
      (rest : Bytes) (name : Option Bytes) (read : Bytes) (pnames : List Bytes) (r : Router H E)
      → first read ≡ b'/'
      → IsKept r
      → IsReady (reading name) read r
      → Keeps (add_from a name read pnames rest r)
  unfolding add_from
  add_from-Keeps [] none read pnames r p h k =
      Keeps-last (route_write a read a.handler skind pnames) r h p k
  add_from-Keeps [] (some name) read pnames r p h k =
      Keeps-last (route_write a read a.handler pkind (pnames ++ name ∷ [])) r h p k
  add_from-Keeps (c ∷ rest) none read pnames r p h k = elim (Bool-cases (c == b':')) [
    | inl colon ↦ rw colon (
        Keeps-after (static_write a read) r _ h p k (λ r' h' z.
          add_from-Keeps rest (some []) (read ++ c ∷ []) pnames r' (first-concat read c p) h'
            (read, c ∷ [], refl, ground arith, inr z)))
    | inr not_colon ↦ elim (Bool-cases (c == b'*')) [
      | inl star ↦
          rw (not_colon, star)
            (Keeps-after (static_write a read) r _ h p k (λ r' h' z.
              Keeps-last
                (route_write a (read ++ c ∷ []) a.handler mkind (pnames ++ codes "_*" ∷ [])) r' h'
                (first-concat read c p) (read, c ∷ [], refl, ground arith, inr z)))
      | inr plain ↦
          rw (not_colon, plain)
            (add_from-Keeps rest none (read ++ c ∷ []) pnames r (first-concat read c p) h
              (plain_on read c r (ground arith) k))
    ]
  ]
  add_from-Keeps (c ∷ rest) (some name) read pnames r p h k = elim (Bool-cases (c == b'/')) [
    | inl slash ↦ rw slash (
        Keeps-after (route_write a read none pkind (pnames ++ name ∷ [])) r _ h p k (λ r' h' z.
          add_from-Keeps rest none (read ++ c ∷ []) (pnames ++ name ∷ []) r' (first-concat read c p)
            h' (read, c ∷ [], refl, ground arith, inr z)))
    | inr other ↦ rw other (add_from-Keeps rest (some (name ++ c ∷ [])) read pnames r p h k)
  ]

  add_from_slash :
      (path : Bytes) (r : Router H E)
      → IsKept r
      → first path ≡ b'/'
      → Keeps (add_from a none [] [] path r)
  unfolding add_from
  add_from_slash [] r h p = cc
  add_from_slash (c ∷ rest) r h p =
      rw p (add_from-Keeps rest none (b'/' ∷ []) [] r refl h ([], b'/' ∷ [], refl, refl, inl refl))

  -- Adding a route at a path that starts with a slash ends well, and the tree stays rooted with every
  -- mark in a node of its own and plain text in static nodes.
  pub add-Keeps : (r : Router H E) → IsKept r → first a.path ≡ b'/' → Keeps (add a r)
  unfolding add
  add-Keeps r h p = add_from_slash a.path r h p

pub new_router-IsKept : {H E : Type 0} → IsKept (new_router {H = H} {E = E})
new_router-IsKept = (new_router-IsRooted, ground arith)
