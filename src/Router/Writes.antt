-- ===== src/Router/Writes.antt =====
-- `insert` of core/router.go as a write to the map of Router/Content.
use thinkgo.Base.{
  ℕ, false, ◌==◌, ◌≡◌, ◌≢◌, refl, ◌⊎◌, if◌then◌else◌, Bytes, [], ◌∷◌, ◌++◌, Option, none, some,
  length, first, strip, equal, arith, strip-append, equal-append, equal-strip, length-append,
  take-append, drop-append, append-nil, ==_refl,
}
use thinkgo.Router.Method.{Method, no_handlers, add_handler}
use thinkgo.Router.Tree.{skind, Info, Node, Nodes, node, nil, cons}
use thinkgo.Router.Insert.{Write, leaf, split, overwrite}
use thinkgo.Router.Content.{handler_at, written, find_handler-add_handler, find_handler-no_handlers}

module _ {H E : Type 0} (w : Write H E) where
  -- The two nodes that "Split node" leaves above the old children.
  abbrev pub lower : Info H E → Bytes → Nodes H E → Node H E
  lower i r cs = node (record i { label = first r; prefix = r }) cs

  abbrev pub upper : Info H E → Bytes → Info H E
  upper i q = record {
    kind = skind;
    label = first i.prefix;
    prefix = q;
    ppath = [];
    pnames = [];
    handlers = no_handlers;
    echo = none;
  }

  pub split-here :
      (q r : Bytes) (i : Info H E) (cs : Nodes H E)
      → i.prefix ≡ q ++ r
      → split w q (length q) i cs
        ≡ node
            (record (upper i q) {
              kind = w.kind;
              handlers = add_handler w.method w.handler no_handlers;
              ppath = w.ppath;
              pnames = w.pnames;
              echo = some w.echo;
            })
            (cons (lower i r cs) nil)
  unfolding split
  split-here q r i cs e = rw ==_refl (cc (take-append q r, drop-append q r, e))

  pub split-below :
      (q r : Bytes) (c : ℕ) (s : Bytes) (i : Info H E) (cs : Nodes H E)
      → i.prefix ≡ q ++ r
      → split w (q ++ (c ∷ s)) (length q) i cs
        ≡ node (upper i q) (cons (lower i r cs) (cons (leaf w (c ∷ s)) nil))
  unfolding split
  split-below q r c s i cs e =
      let t : (length q == length (q ++ (c ∷ s))) ≡ false =
        ground (arith, length-append q (c ∷ s)) in
      rw t (cc (take-append q r, drop-append q r, drop-append q (c ∷ s), e))

module _ {H E : Type 0} (w : Write H E) (m : Method) where
  pub handler_at-leaf :
      (k s : Bytes) → handler_at m k (leaf w s) ≡ (if equal k s then written w m none else none)
  unfolding handler_at
  handler_at-leaf k s = ground (
    arith,
    equal-strip s k,
    find_handler-add_handler m w.method w.handler no_handlers,
    find_handler-no_handlers {H = H} m,
  )

  pub handler_at-overwrite :
      (k : Bytes) (i : Info H E) (cs : Nodes H E)
      → handler_at m k (node (overwrite w i) cs) ≡ (
          if equal k i.prefix
          then written w m (handler_at m k (node i cs))
          else handler_at m k (node i cs))
  unfolding handler_at overwrite
  handler_at-overwrite k i cs =
      ground
        (arith, equal-strip i.prefix k, find_handler-add_handler m w.method w.handler i.handlers)

  -- The second case of a split, by what is left of the key behind the common prefix.
  handler_at-pair :
      (k q : Bytes) (y : ℕ) (r : Bytes) (c : ℕ) (s : Bytes) (i : Info H E) (cs : Nodes H E)
      → i.prefix ≡ q ++ (y ∷ r)
      → y ≢ c
      → (o : Option Bytes) → strip q k ≡ o
      → handler_at m k
          (node (upper w i q) (cons (lower w i (y ∷ r) cs) (cons (leaf w (c ∷ s)) nil)))
        ≡ (if equal k (q ++ (c ∷ s))
            then written w m (handler_at m k (node i cs))
            else handler_at m k (node i cs))
  unfolding handler_at strip equal
  handler_at-pair k q y r c s i cs e d none o =
      ground (arith, strip-append q (y ∷ r) k, equal-append q (c ∷ s) k)
  handler_at-pair k q y r c s i cs e d (some []) o = ground (
    arith,
    strip-append q (y ∷ r) k,
    equal-append q (c ∷ s) k,
    find_handler-no_handlers {H = H} m,
  )
  handler_at-pair k q y r c s i cs e d (some (x ∷ k')) o = ground (
    arith,
    strip-append q (y ∷ r) k,
    equal-append q (c ∷ s) k,
    equal-strip s k',
    find_handler-add_handler m w.method w.handler no_handlers,
    find_handler-no_handlers {H = H} m,
  )

  pub handler_at-split :
      (k q r s : Bytes) (i : Info H E) (cs : Nodes H E)
      → i.prefix ≡ q ++ r
      → r ≢ []
      → q ≢ []
      → (s ≡ []) ⊎ (first r ≢ first s)
      → handler_at m k (split w (q ++ s) (length q) i cs) ≡ (
          if equal k (q ++ s)
          then written w m (handler_at m k (node i cs))
          else handler_at m k (node i cs))
  unfolding handler_at strip
  handler_at-split k q [] s i cs e ne nq d = absurd (ne refl)
  handler_at-split k q (y ∷ r) [] i cs e ne nq d = rw append-nil (
      rw (split-here w q (y ∷ r) i cs e) (
        ground (
          arith,
          e,
          strip-append q (y ∷ r) k,
          equal-strip q k,
          find_handler-add_handler m w.method w.handler no_handlers,
          find_handler-no_handlers {H = H} m,
        )))
  handler_at-split k q (y ∷ r) (c ∷ s) i cs e ne nq d =
      rw (split-below w q (y ∷ r) c s i cs e)
        (handler_at-pair k q y r c s i cs e (ground arith) (strip q k) refl)
