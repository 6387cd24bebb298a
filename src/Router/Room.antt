-- ===== src/Router/Room.antt =====
-- The counter `maxParam` of core/router.go: no node has more names than it says, so a context that is
-- made when the routes are there has room for the values of each of them.
use thinkgo.Base.{
  ℕ, ◌≤◌, ◌==◌, ltb, ◌≡◌, refl, sym, Bytes, List, [], ◌∷◌, Option, none, some, length, lcp, drop,
  first, subst, inl, inr, Bool-cases, ◌&&◌, arith, if◌then◌else◌,
}
use thinkgo.Router.Tree.{
  Info, Node, Nodes, node, nil, cons, label_of, info, children, find_child, find_child_by_kind,
  Kind, skind, pkind, mkind, same_kind, kind_of,
}
use thinkgo.Router.Insert.{
  Write, split, overwrite, write_root, insert_node, insert_below, Router, insert, add, Registration,
  ◌>>=◌,
}
use thinkgo.Router.Calls.{insert_all, add-Calls}
use thinkgo.Router.Table.{AllRooted, add_routes}
use thinkgo.Router.Leads.{Leads, here, by_static, by_param, by_any}

module _ {H E : Type 0} where
  -- No node of the tree has more names than the bound.
  abbrev mutual
    pub IsBounded : ℕ → Node H E → Type 0
    IsBounded b (node i cs) = (length i.pnames ≤ b) × AllBounded b cs

    pub AllBounded : ℕ → Nodes H E → Type 0
    AllBounded b nil = Unit
    AllBounded b (cons c cs) = IsBounded b c × AllBounded b cs

  mutual
    IsBounded-le : (a b : ℕ) (n : Node H E) → a ≤ b → IsBounded a n → IsBounded b n
    IsBounded-le a b (node i cs) l (h, hs) = (omega (arith, h), AllBounded-le a b cs l hs)

    AllBounded-le : (a b : ℕ) (cs : Nodes H E) → a ≤ b → AllBounded a cs → AllBounded b cs
    AllBounded-le a b nil l h = tt
    AllBounded-le a b (cons c cs) l (h, hs) = (IsBounded-le a b c l h, AllBounded-le a b cs l hs)

  module _ (w : Write H E) (b : ℕ) where
    split-IsBounded :
        (search : Bytes) (l : ℕ) (i : Info H E) (cs : Nodes H E)
        → length w.pnames ≤ b
        → IsBounded b (node i cs)
        → IsBounded b (split w search l i cs)
    unfolding split
    split-IsBounded search l i cs k (h, hs) = ground (arith, k, h, hs)

    overwrite-IsBounded :
        (i : Info H E) (cs : Nodes H E)
        → length w.pnames ≤ b
        → IsBounded b (node i cs)
        → IsBounded b (node (overwrite w i) cs)
    unfolding overwrite
    overwrite-IsBounded i cs k (h, hs) = ground (arith, k, h, hs)

    write_root-IsBounded :
        (search : Bytes) (i : Info H E) (cs : Nodes H E)
        → length w.pnames ≤ b
        → IsBounded b (node i cs)
        → IsBounded b (node (write_root w search i) cs)
    unfolding write_root
    write_root-IsBounded search i cs k (h, hs) = ground (arith, k, h, hs)

    mutual
      unfolding insert_node

      pub insert_node-IsBounded :
          (n : Node H E) (search : Bytes)
          → length w.pnames ≤ b
          → IsBounded b n
          → IsBounded b (insert_node w search n)
      insert_node-IsBounded (node i cs) search k (h, hs) = ground (
        arith,
        write_root-IsBounded search i cs k (h, hs),
        split-IsBounded search (lcp search i.prefix) i cs k (h, hs),
        overwrite-IsBounded i cs k (h, hs),
        insert_below-AllBounded cs (drop (lcp search i.prefix) search) k hs,
      )

      insert_below-AllBounded :
          (cs : Nodes H E) (search : Bytes)
          → length w.pnames ≤ b
          → AllBounded b cs
          → AllBounded b (insert_below w search cs)
      insert_below-AllBounded nil search k h = ground (arith, k)
      insert_below-AllBounded (cons c cs) search k (h, hs) =
          ground (arith, insert_node-IsBounded c search k h, insert_below-AllBounded cs search k hs)

  -- `maxParam` bounds the names of every node.
  abbrev pub HasRoom : Router H E → Type 0
  HasRoom r = IsBounded r.max_param r.tree

  unfoldable pub AllRoom : Option (Router H E) → Type 0
  AllRoom none = Unit
  AllRoom (some r) = HasRoom r

  insert_as :
      (w : Write H E) (r : Router H E)
      → IsBounded
          (if ltb r.max_param (length w.pnames) then length w.pnames else r.max_param)
          (insert_node w w.path r.tree)
      → (p : Bytes) → w.path ≡ p
      → AllRoom (insert w r)
  unfolding insert AllRoom
  insert_as w r t [] e = ground (arith, e)
  insert_as w r t (c ∷ p) e = ground (arith, e, t)

  insert-AllRoom : (w : Write H E) (r : Router H E) → HasRoom r → AllRoom (insert w r)
  insert-AllRoom w r h =
      let b = if ltb r.max_param (length w.pnames) then length w.pnames else r.max_param in
      let k : length w.pnames ≤ b = ground arith in
      let l : r.max_param ≤ b = ground arith in
      let t = insert_node-IsBounded w b r.tree w.path k (IsBounded-le r.max_param b r.tree l h) in
      insert_as w r t w.path refl

  then_room :
      (o : Option (Router H E)) (f : Router H E → Option (Router H E))
      → AllRoom o
      → ((r : Router H E) → HasRoom r → AllRoom (f r))
      → AllRoom (o >>= f)
  unfolding AllRoom
  then_room none f h k = tt
  then_room (some r) f h k = k r h

  insert_all-AllRoom :
      (ws : List (Write H E)) (r : Router H E) → HasRoom r → AllRoom (insert_all ws r)
  unfolding insert_all AllRoom
  insert_all-AllRoom [] r h = h
  insert_all-AllRoom (w ∷ ws) r h =
      then_room (insert w r) (insert_all ws) (insert-AllRoom w r h) (insert_all-AllRoom ws)

  add-AllRoom :
      (a : Registration H E) (r : Router H E) → first a.path ≡ b'/' → HasRoom r → AllRoom (add a r)
  add-AllRoom a r p h =
      let (ws, w, _, _, e) = add-Calls a p in
      subst AllRoom (sym (e r))
        (then_room (insert_all ws r) (insert w) (insert_all-AllRoom ws r h) (insert-AllRoom w))

  pub add_routes-AllRoom :
      (routes : List (Registration H E)) (r : Router H E)
      → AllRooted routes
      → HasRoom r
      → AllRoom (add_routes routes r)
  unfolding add_routes AllRoom
  add_routes-AllRoom [] r p h = h
  add_routes-AllRoom (a ∷ routes) r (p, ps) h =
      then_room (add a r) (add_routes routes) (add-AllRoom a r p h)
        (λ r'. add_routes-AllRoom routes r' ps)

  children-AllBounded : (b : ℕ) (n : Node H E) → IsBounded b n → AllBounded b (children n)
  children-AllBounded b (node i cs) h = h.1

  names-le : (b : ℕ) (n : Node H E) → IsBounded b n → length (info n).pnames ≤ b
  names-le b (node i cs) h = h.0

  found : (x d : Node H E) → some x ≡ some d → x ≡ d
  found x d e = cc e

  find_child-IsBounded :
      (b c : ℕ) (t : Kind) (cs : Nodes H E) (d : Node H E)
      → AllBounded b cs
      → find_child c t cs ≡ some d
      → IsBounded b d
  unfolding find_child
  find_child-IsBounded b c t nil d h e = cc
  find_child-IsBounded b c t (cons x cs) d (h, hs) e =
      elim (Bool-cases (label_of x == c && same_kind (kind_of x) t)) [
        | inl y ↦ subst (IsBounded b) (found x d (rw y at e)) h
        | inr y ↦ find_child-IsBounded b c t cs d hs (rw y at e)
      ]

  kind-IsBounded :
      (b : ℕ) (t : Kind) (cs : Nodes H E) (d : Node H E)
      → AllBounded b cs
      → find_child_by_kind t cs ≡ some d
      → IsBounded b d
  unfolding find_child_by_kind
  kind-IsBounded b t nil d h e = cc
  kind-IsBounded b t (cons x cs) d (h, hs) e = elim (Bool-cases (same_kind (kind_of x) t)) [
    | inl y ↦ subst (IsBounded b) (found x d (rw y at e)) h
    | inr y ↦ kind-IsBounded b t cs d hs (rw y at e)
  ]

  pub Leads-le :
      (b : ℕ) (search : Bytes) (cn n : Node H E) (vs : List Bytes)
      → Leads search cn vs n
      → IsBounded b cn
      → length (info n).pnames ≤ b
  Leads-le b _ cn n _ here h = names-le b cn h
  Leads-le b _ cn n vs (by_static {d = d} f l s k) h =
      Leads-le b _ d n vs k
        (find_child-IsBounded b _ skind (children cn) d (children-AllBounded b cn h) f)
  Leads-le b _ cn n _ (by_param {d = d} f g l k) h =
      Leads-le b _ d n _ k (kind-IsBounded b pkind (children cn) d (children-AllBounded b cn h) g)
  Leads-le b _ cn n _ (by_any f g a) h =
      names-le b n (kind-IsBounded b mkind (children cn) n (children-AllBounded b cn h) a)
