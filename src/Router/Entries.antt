-- ===== src/Router/Entries.antt =====
-- What `insert` of core/router.go leaves at a node besides the handlers: the path, the names and the
-- Echo instance, as a map on the texts where the nodes end.
use thinkgo.Base.{
  strip_self, ℕ, ◌<◌, Bool, false, ◌==◌, ◌≡◌, ◌≢◌, refl, ◌⊎◌, inl, inr, arith, if◌then◌else◌, Bytes,
  List, [], ◌∷◌, ◌++◌, Option, none, some, length, first, lcp, strip, strip-append, equal,
  equal-append, equal-strip, append-nil, Bool-cases,
}
use thinkgo.Router.Tree.{Info, Node, Nodes, node, nil, cons, label_of, info}
use thinkgo.Router.Insert.{Write, leaf, split, overwrite, insert_node, insert_below}
use thinkgo.Router.Content.{IsSound, AllSound, IsSound-lcp, IsSound-label}
use thinkgo.Router.Rounds.{Round, splits, deepens, finds, round, label-insert_node}
use thinkgo.Router.Writes.{split-here, split-below, upper, lower}
use thinkgo.Router.Ends.{ends_at, ends_below, strip_itself}

-- `ppath`, `pnames` and `echo` of a node
pub record NodeEntry (E : Type 0) : Type 0 where
  pub path : Bytes
  pub names : List Bytes
  pub echo : E

module _ {H E : Type 0} where
  -- A node that `insert` only split off has no Echo instance, and so no entry.
  abbrev pub entry_of : Info H E → Option (NodeEntry E)
  entry_of i = elim i.echo [
    | none ↦ none
    | some e ↦ some (record { path = i.ppath; names = i.pnames; echo = e })
  ]

  unfoldable mutual
    pub entry_at : Bytes → Node H E → Option (NodeEntry E)
    entry_at key (node i cs) = elim (strip i.prefix key) [
      | none ↦ none
      | some rest ↦ elim rest [ [] ↦ entry_of i | c ∷ r ↦ entry_below (c ∷ r) cs ]
    ]

    pub entry_below : Bytes → Nodes H E → Option (NodeEntry E)
    entry_below key nil = none
    entry_below key (cons c cs) =
        if label_of c == first key then entry_at key c else entry_below key cs

  -- What a write leaves at its key, where a node ended before or not: a node that is there changes only
  -- if the write has a handler.
  abbrev pub entered : Write H E → Bool → Option (NodeEntry E) → Option (NodeEntry E)
  entered w there old =
      if there
      then elim w.handler [
        | none ↦ old
        | some h ↦ some (record { path = w.path; names = w.pnames; echo = w.echo })
      ]
      else some (record { path = w.ppath; names = w.pnames; echo = w.echo })

module _ {H E : Type 0} (w : Write H E) where
  -- `new` is `old` but for the entry of the key that is written.
  abbrev Enters : Bytes → Bytes → Bool → Option (NodeEntry E) → Option (NodeEntry E) → Type 0
  Enters k search there old new = new ≡ (if equal k search then entered w there old else old)

  entry_at-leaf :
      (k s : Bytes) → entry_at k (leaf w s) ≡ (if equal k s then entered w false none else none)
  unfolding entry_at
  entry_at-leaf k s = ground (arith, equal-strip s k)

  entry_at-overwrite :
      (k : Bytes) (i : Info H E) (cs : Nodes H E)
      → Enters k i.prefix
          (ends_at i.prefix (node i cs))
          (entry_at k (node i cs))
          (entry_at k (node (overwrite w i) cs))
  unfolding entry_at ends_at overwrite
  entry_at-overwrite k i cs = ground (arith, equal-strip i.prefix k, strip_itself i.prefix)

  -- A text that is no longer than a part of the prefix ends nowhere in the node.
  ends_at-part :
      (q : Bytes) (y : ℕ) (r s : Bytes) (i : Info H E) (cs : Nodes H E)
      → i.prefix ≡ q ++ (y ∷ r)
      → (s ≡ []) ⊎ (first s ≢ y)
      → ends_at (q ++ s) (node i cs) ≡ false
  unfolding ends_at strip
  ends_at-part q y r [] i cs e d =
      ground (arith, e, strip-append q (y ∷ r) (q ++ []), strip_self q [])
  ends_at-part q y r (c ∷ s) i cs e d =
      ground (arith, e, strip-append q (y ∷ r) (q ++ (c ∷ s)), strip_self q (c ∷ s))

  entry_at-here :
      (k q : Bytes) (y : ℕ) (r : Bytes) (i : Info H E) (cs : Nodes H E)
      → i.prefix ≡ q ++ (y ∷ r)
      → (o : Option Bytes) → strip q k ≡ o
      → entry_at k (split w q (length q) i cs)
        ≡ (if equal k q then entered w false none else entry_at k (node i cs))
  unfolding entry_at strip
  entry_at-here k q y r i cs e _ o =
      rw (split-here w q (y ∷ r) i cs e)
        (ground (arith, e, strip-append q (y ∷ r) k, equal-strip q k))

  entry_at-pair :
      (k q : Bytes) (y : ℕ) (r : Bytes) (c : ℕ) (s : Bytes) (i : Info H E) (cs : Nodes H E)
      → i.prefix ≡ q ++ (y ∷ r)
      → y ≢ c
      → (o : Option Bytes) → strip q k ≡ o
      → entry_at k (node (upper w i q) (cons (lower w i (y ∷ r) cs) (cons (leaf w (c ∷ s)) nil)))
        ≡ (if equal k (q ++ (c ∷ s)) then entered w false none else entry_at k (node i cs))
  unfolding entry_at strip equal
  entry_at-pair k q y r c s i cs e d none o =
      ground (arith, strip-append q (y ∷ r) k, equal-append q (c ∷ s) k)
  entry_at-pair k q y r c s i cs e d (some []) o =
      ground (arith, strip-append q (y ∷ r) k, equal-append q (c ∷ s) k)
  entry_at-pair k q y r c s i cs e d (some (x ∷ k')) o =
      ground (arith, strip-append q (y ∷ r) k, equal-append q (c ∷ s) k, equal-strip s k')

  entry_at-split :
      (k q : Bytes) (y : ℕ) (r s : Bytes) (i : Info H E) (cs : Nodes H E)
      → i.prefix ≡ q ++ (y ∷ r)
      → (s ≡ []) ⊎ (first s ≢ y)
      → Enters k
          (q ++ s)
          (ends_at (q ++ s) (node i cs))
          (entry_at k (node i cs))
          (entry_at k (split w (q ++ s) (length q) i cs))
  entry_at-split k q y r [] i cs e d =
      rw (ends_at-part q y r [] i cs e d)
        (rw append-nil (entry_at-here k q y r i cs e (strip q k) refl))
  entry_at-split k q y r (c ∷ s) i cs e d = rw (ends_at-part q y r (c ∷ s) i cs e d) (
      rw (split-below w q (y ∷ r) c s i cs e)
        (entry_at-pair k q y r c s i cs e (ground arith) (strip q k) refl))

  abbrev BelowEnters : Nodes H E → Type 0
  BelowEnters cs =
      (x : ℕ) (k : Bytes) (c : ℕ) (s : Bytes)
      → Enters (x ∷ k) (c ∷ s) (ends_below (c ∷ s) cs) (entry_below (x ∷ k) cs)
          (entry_below (x ∷ k) (insert_below w (c ∷ s) cs))

  deepens-Enters :
      (k : Bytes) (c : ℕ) (s : Bytes) (i : Info H E) (cs : Nodes H E)
      → BelowEnters cs
      → (o : Option Bytes) → strip i.prefix k ≡ o
      → Enters k
          (i.prefix ++ (c ∷ s))
          (ends_at (i.prefix ++ (c ∷ s)) (node i cs))
          (entry_at k (node i cs))
          (entry_at k (node i (insert_below w (c ∷ s) cs)))
  unfolding entry_at ends_at equal
  deepens-Enters k c s i cs ih none o =
      ground (arith, equal-append i.prefix (c ∷ s) k, strip_self i.prefix (c ∷ s))
  deepens-Enters k c s i cs ih (some []) o =
      ground (arith, equal-append i.prefix (c ∷ s) k, strip_self i.prefix (c ∷ s))
  deepens-Enters k c s i cs ih (some (x ∷ k')) o =
      ground (arith, equal-append i.prefix (c ∷ s) k, strip_self i.prefix (c ∷ s), ih x k' c s)

  round-Enters :
      (k search : Bytes) (i : Info H E) (cs : Nodes H E)
      → Round w search i cs
      → BelowEnters cs
      → Enters k search
          (ends_at search (node i cs))
          (entry_at k (node i cs))
          (entry_at k (insert_node w search (node i cs)))
  round-Enters k search i cs (splits q y r s p a e d x) ih =
      rw (x, a) (entry_at-split k q y r s i cs e d)
  round-Enters k search i cs (deepens c s a x) ih =
      rw (x, a) (deepens-Enters k c s i cs ih (strip i.prefix k) refl)
  round-Enters k search i cs (finds a x) ih = rw (x, a) (entry_at-overwrite k i cs)

  mutual
    unfolding insert_node entry_at ends_at equal

    -- A write changes the entry of its key alone.
    pub insert_node-Enters :
        (n : Node H E) (k search : Bytes)
        → IsSound n
        → 0 < lcp search (info n).prefix
        → Enters k search (ends_at search n) (entry_at k n) (entry_at k (insert_node w search n))
    insert_node-Enters (node i cs) k search (_, _, h) p =
        round-Enters k search i cs (round w search i cs p)
          (λ x k c s. insert_below-Enters cs x k c s h)

    insert_below-Enters :
        (cs : Nodes H E) (x : ℕ) (k : Bytes) (c : ℕ) (s : Bytes)
        → AllSound cs
        → Enters
            (x ∷ k)
            (c ∷ s)
            (ends_below (c ∷ s) cs)
            (entry_below (x ∷ k) cs)
            (entry_below (x ∷ k) (insert_below w (c ∷ s) cs))
    insert_below-Enters nil x k c s h = ground (arith, entry_at-leaf (x ∷ k) (c ∷ s))
    insert_below-Enters (cons d ds) x k c s (h, hs) = elim (Bool-cases (label_of d == c)) [
      | inl here ↦
          let p : 0 < lcp (c ∷ s) (info d).prefix =
            IsSound-lcp d (c ∷ s) h (ground arith) (ground arith) in
          ground (
            arith,
            insert_node-Enters d (x ∷ k) (c ∷ s) h p,
            label-insert_node w (c ∷ s) d (IsSound-label d h) p,
          )
      | inr later ↦ ground (arith, insert_below-Enters ds x k c s hs)
    ]
