-- ===== src/Router/StaticFirst.antt =====
-- `Find` of core/router.go on a path that the static nodes alone spell out.
use thinkgo.Base.{
  ℕ, zero, suc, ◌≤◌, false, ◌&&◌, ◌==◌, ◌≡◌, ◌≢◌, refl, ◌∙◌, ap, if◌then◌else◌, Bytes, [], ◌∷◌,
  Option, none, some, arith, Option-cases, Bool-cases, inl, inr, first, strip, lcp, length, drop,
}
use thinkgo.Router.Method.{Method, find_handler}
use thinkgo.Router.Tree.{
  Kind, skind, pkind, same_kind, Info, Node, Nodes, node, nil, cons, info, children, label_of,
  kind_of, find_child,
}
use thinkgo.Router.Find.{
  State, continue, at_end, compare_prefix, common_length, prefix_length, finish, save, static,
  step_on, run, size, done, found_at, registered, find, initial, conclude, Params,
}
use thinkgo.Router.Terminates.{after, static-size-le, size_pos}

-- A prefix that a text has is all that the two share.
lcp-strip : (p s r : Bytes) → strip p s ≡ some r → (lcp s p ≡ length p) × (drop (length p) s ≡ r)
unfolding lcp strip
lcp-strip [] [] r h = (refl, ground arith)
lcp-strip [] (y ∷ s) r h = (refl, ground arith)
lcp-strip (x ∷ p) [] r h = cc
lcp-strip (x ∷ p) (y ∷ s) r h = ground (arith, lcp-strip p s r)

module _ {H E : Type 0} where
  -- The node that a path leads to through static children, `Find`'s first choice. A node with the
  -- label ':' is passed with no comparison, so no such node counts.
  unfoldable mutual
    pub static_at : Bytes → Node H E → Option (Node H E)
    static_at key (node i cs) = if i.label == b':' then none else elim (strip i.prefix key) [
      | none ↦ none
      | some rest ↦ elim rest [ [] ↦ some (node i cs) | c ∷ r ↦ static_below (c ∷ r) cs ]
    ]

    pub static_below : Bytes → Nodes H E → Option (Node H E)
    static_below key nil = none
    static_below key (cons c cs) =
        if label_of c == first key && same_kind (kind_of c) skind
        then static_at key c
        else static_below key cs

  static_below-find_child :
      (c : ℕ) (r : Bytes) (cs : Nodes H E) (n : Node H E)
      → static_below (c ∷ r) cs ≡ some n
      → (d : Node H E) × (find_child c skind cs ≡ some d) × (static_at (c ∷ r) d ≡ some n)
  unfolding static_at find_child
  static_below-find_child c r nil n h = cc
  static_below-find_child c r (cons d ds) n h =
      elim (Bool-cases (label_of d == c && same_kind (kind_of d) skind)) [
        | inl e ↦ (d, rw e refl, rw e at h)
        | inr e ↦ rw e (static_below-find_child c r ds n (rw e at h))
      ]

  abbrev GoesOn : Node H E → Node H E → Bytes → Type 0
  GoesOn cn n [] = cn ≡ n
  GoesOn cn n (c ∷ r) = static_below (c ∷ r) (children cn) ≡ some n

  -- What `static_at` says of the first node of the way.
  abbrev Passes : Bytes → Node H E → Node H E → Type 0
  Passes key cn n =
      (rest : Bytes) × ((label_of cn == b':') ≡ false)
      × (strip (info cn).prefix key ≡ some rest)
      × GoesOn cn n rest

  static_at-rest :
      (key rest : Bytes) (i : Info H E) (cs : Nodes H E) (n : Node H E)
      → static_at key (node i cs) ≡ some n
      → strip i.prefix key ≡ some rest
      → Passes key (node i cs) n
  unfolding static_at
  static_at-rest key [] i cs n h e = ([], ground arith, e, ground arith)
  static_at-rest key (c ∷ r) i cs n h e = (c ∷ r, ground arith, e, ground arith)

  static_at-Passes : (key : Bytes) (cn n : Node H E) → static_at key cn ≡ some n → Passes key cn n
  unfolding static_at
  static_at-Passes key (node i cs) n h = elim (Option-cases (strip i.prefix key)) [
    | inl e ↦ absurd (ground arith)
    | inr (rest, e) ↦ static_at-rest key rest i cs n h e
  ]

  pub step_on-passes :
      (s : State H E) (x : ℕ) (t rest : Bytes)
      → s.search ≡ x ∷ t
      → (label_of s.cn == b':') ≡ false
      → strip (info s.cn).prefix (x ∷ t) ≡ some rest
      → step_on (x ∷ t) s ≡ static (record s { search = rest })
  unfolding step_on compare_prefix common_length prefix_length
  step_on-passes s x t rest e c h =
      let (l, d) = lcp-strip (info s.cn).prefix (x ∷ t) rest h in
      rw c (ground (arith, l, d, ap (λ z. lcp z (info s.cn).prefix) e))

  pub save-keeps :
      (k : Kind) (s : State H E) → ((save k s).search ≡ s.search) × ((save k s).pvalues ≡ s.pvalues)
  save-keeps k s = ground arith

  pub static-descends :
      (s : State H E) (c : ℕ) (r : Bytes) (d : Node H E)
      → find_child c skind (children s.cn) ≡ some d
      → static (record s { search = c ∷ r })
        ≡ continue (record (save pkind (record s { search = c ∷ r })) { cn = d })
  unfolding static
  static-descends s c r d f = rw (f, static)

  -- What `run` does once the prefix of the node is passed, with induction for the child.
  run-passes :
      (fuel : ℕ) (s : State H E) (rest : Bytes) (n : Node H E)
      → size s.cn ≤ suc fuel
      → GoesOn s.cn n rest
      → ((s' : State H E) (x : ℕ) (t : Bytes)
          → s'.search ≡ x ∷ t
          → size s'.cn ≤ fuel
          → static_at (x ∷ t) s'.cn ≡ some n
          → run fuel s' ≡ done (at_end n s'.pvalues))
      → after fuel (static (record s { search = rest })) ≡ done (at_end n s.pvalues)
  unfolding static
  run-passes fuel s [] n h g ih = ap (λ z. done (at_end z s.pvalues)) g
  run-passes fuel s (c ∷ r) n h g ih =
      let (d, f, a) = static_below-find_child c r (children s.cn) n g in
      let s1 : State H E = record s { search = c ∷ r } in
      let k = save-keeps pkind s1 in
      let le : size d ≤ fuel = omega (arith, static-size-le c (children s.cn) d f, size_pos s.cn) in
      ap (after fuel) (static-descends s c r d f)
      ∙ ih (record (save pkind s1) { cn = d }) c r k.0 le a
      ∙ ap (λ v. done (at_end n v)) k.1

  run-static :
      (fuel : ℕ) (s : State H E) (x : ℕ) (t : Bytes) (n : Node H E)
      → s.search ≡ x ∷ t
      → size s.cn ≤ fuel
      → static_at (x ∷ t) s.cn ≡ some n
      → run fuel s ≡ done (at_end n s.pvalues)
  unfolding run
  run-static zero s x t n e h a = absurd (omega (arith, size_pos s.cn))
  run-static (suc fuel) s x t n e h a =
      let (rest, c, f, g) = static_at-Passes (x ∷ t) s.cn n a in
      let p : step_on s.search s ≡ static (record s { search = rest }) =
        ap (λ z. step_on z s) e ∙ step_on-passes s x t rest e c f in
      ap (after fuel) p ∙ run-passes fuel s rest n h g (λ s' x t. run-static fuel s' x t n)

  -- Static nodes come first: where static children spell out the path and their last node has a
  -- handler for the method, `Find` returns that handler and the node's Echo, path and names, whatever
  -- parameter and match-any nodes the tree has, and leaves the parameter values alone.
  pub find-static :
      (tree : Node H E) (e : E) (m : Method) (path : Bytes) (ctx : Params) (n : Node H E) (h : H)
      → path ≢ []
      → static_at path tree ≡ some n
      → find_handler m (info n).handlers ≡ some h
      → find tree e m path ctx ≡ done (found_at e n (registered h) ctx.pvalues)
  unfolding find finish
  find-static tree e m [] ctx n h ne a f = absurd (ne refl)
  find-static tree e m (x ∷ t) ctx n h ne a f =
      ap (conclude e m ctx)
        (run-static (size tree) (initial tree (x ∷ t) ctx) x t n refl (omega arith) a)
      ∙ rw (f, finish)
