-- ===== src/Router/PlainEntries.antt =====
-- The entries of core/router.go's tree for the routes without parameters: what the node has that the
-- static nodes lead to, and the text of such a route.
use thinkgo.Base.{
  ℕ, ◌==◌, ◌≡◌, ◌≢◌, refl, ap, inl, inr, true, false, Bytes, [], ◌∷◌, Option, none, some, arith,
  first, strip, Bool-cases,
}
use thinkgo.Router.Tree.{Info, Node, Nodes, node, nil, cons, info}
use thinkgo.Router.Content.{IsSound, AllSound}
use thinkgo.Router.StaticFirst.{static_at, static_below}
use thinkgo.Router.Shaped.{IsShaped, AllShaped, is_plain, is_mark, static_kind, plain_label}
use thinkgo.Router.Routes.{shape, shape_from}
use thinkgo.Router.Entries.{entry_at, entry_below, entry_of}
use thinkgo.Router.Calls.{names, names_from}

module _ {H E : Type 0} where
  entry_at-rest :
      (key : Bytes) (i : Info H E) (cs : Nodes H E) (d : Node H E)
      → ((c : ℕ) (r : Bytes)
          → is_plain (c ∷ r) ≡ true
          → static_below (c ∷ r) cs ≡ some d
          → entry_below (c ∷ r) cs ≡ entry_of (info d))
      → i.label ≡ first i.prefix
      → i.prefix ≢ []
      → is_plain key ≡ true
      → (o : Option Bytes) → strip i.prefix key ≡ o
      → static_at key (node i cs) ≡ some d
      → entry_at key (node i cs) ≡ entry_of (info d)
  unfolding static_at entry_at
  entry_at-rest key i cs d ih l ne p none o h = absurd (ground (arith, o, h))
  entry_at-rest key i cs d ih l ne p (some []) o h =
      let (mark, _) = plain_label i key [] l ne o p in
      let same_node : node i cs ≡ d = ground (arith, o, h, mark) in
      ground (arith, o, ap (λ n. entry_of (info n)) same_node)
  entry_at-rest key i cs d ih l ne p (some (c ∷ r)) o h =
      let (mark, q) = plain_label i key (c ∷ r) l ne o p in
      ground (arith, o, ih c r q (ground (arith, o, h, mark)))

  mutual
    unfolding static_at entry_at

    -- Where the static nodes lead by a plain key stands the entry of the key.
    pub entry_at-static_at :
        (n : Node H E) (key : Bytes) (d : Node H E)
        → IsSound n
        → IsShaped n
        → is_plain key ≡ true
        → static_at key n ≡ some d
        → entry_at key n ≡ entry_of (info d)
    entry_at-static_at (node i cs) key d (l, ne, s) (f, k) p h =
        entry_at-rest key i cs d (λ c r q. entry_below-static_below cs c r d s k q) l ne p
          (strip i.prefix key) refl h

    entry_below-static_below :
        (cs : Nodes H E) (c : ℕ) (key : Bytes) (d : Node H E)
        → AllSound cs
        → AllShaped cs
        → is_plain (c ∷ key) ≡ true
        → static_below (c ∷ key) cs ≡ some d
        → entry_below (c ∷ key) cs ≡ entry_of (info d)
    entry_below-static_below nil c key d s k p h = cc
    entry_below-static_below (cons (node i ds) cs) c key d ((l, ne, s), ss) ((f, k), ks) p h =
        elim (Bool-cases (i.label == c)) [
          | inl here ↦
              let mark : is_mark i.label ≡ false = ground (arith, here, p) in
              let kind = static_kind i f l ne mark in
              rw here (
                entry_at-static_at (node i ds) (c ∷ key) d (l, ne, s) (f, k) p
                  (rw (here, kind) at h))
          | inr later ↦ rw later (entry_below-static_below cs c key d ss ks p (rw later at h))
        ]

-- A path whose shape has no colon and no star is its own shape, and has no names.
pub shape_plain : (path : Bytes) → is_plain (shape path) ≡ true → shape path ≡ path
unfolding shape shape_from
shape_plain [] h = refl
shape_plain (c ∷ path) h = ground (arith, shape_plain path)

pub names_plain : (path : Bytes) → is_plain (shape path) ≡ true → names path ≡ []
unfolding shape shape_from names names_from
names_plain [] h = refl
names_plain (c ∷ path) h = ground (arith, names_plain path)
