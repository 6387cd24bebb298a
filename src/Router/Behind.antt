-- ===== src/Router/Behind.antt =====
-- `insert` of core/router.go at a text that starts with the end of a node: the search passes that node
-- whole, and what is behind it is written below.
use thinkgo.Base.{
  ℕ, ◌<◌, true, ◌==◌, ◌≡◌, ◌≢◌, refl, ap, sym, ◌∙◌, inl, inr, arith, Bytes, [], ◌∷◌, ◌++◌, length,
  lcp, strip, append-nil, append_assoc, Bool-cases, Option, none, some, subst,
}
use thinkgo.Router.Tree.{Info, Node, Nodes, node, nil, cons, label_of}
use thinkgo.Router.Insert.{Write, overwrite, insert_node, insert_below}
use thinkgo.Router.Content.{IsSound, AllSound}
use thinkgo.Router.Rounds.{insert_node-deeper, insert_node-found}
use thinkgo.Router.Shaped.{strip-some, IsShaped, AllShaped}
use thinkgo.Router.Ends.{ends_at, ends_below}
use thinkgo.Router.Shaped.{is_piece}
use thinkgo.Router.Grows.{length_pos, insert_below-AllShaped}

lcp_behind : (p s : Bytes) → lcp (p ++ s) p ≡ length p
unfolding lcp
lcp_behind [] [] = refl
lcp_behind [] (c ∷ s) = refl
lcp_behind (c ∷ p) s = ground (arith, lcp_behind p s)

lcp_itself : (p : Bytes) → lcp p p ≡ length p
lcp_itself p = ap (λ z. lcp z p) (sym (append-nil p)) ∙ lcp_behind p []

module _ {H E : Type 0} (w : Write H E) where
  found-IsShaped :
      (i : Info H E) (cs : Nodes H E)
      → i.prefix ≢ []
      → IsShaped (node i cs)
      → IsShaped (insert_node w i.prefix (node i cs))
  unfolding overwrite
  found-IsShaped i cs ne h =
      let p : 0 < length i.prefix = length_pos i.prefix ne in
      rw (insert_node-found w i cs i.prefix p refl (lcp_itself i.prefix)) (ground (arith, h))

  deeper-IsShaped :
      (i : Info H E) (cs : Nodes H E) (c : ℕ) (s : Bytes)
      → i.prefix ≢ []
      → IsShaped (node i cs)
      → AllShaped (insert_below w (c ∷ s) cs)
      → IsShaped (insert_node w (i.prefix ++ (c ∷ s)) (node i cs))
  deeper-IsShaped i cs c s ne h k =
      let p : 0 < length i.prefix = length_pos i.prefix ne in
      rw (insert_node-deeper w i cs i.prefix p c s refl (lcp_behind i.prefix (c ∷ s))) (h.0, k)

  -- The rest of `behind-IsShaped`, by what the prefix of the node leaves of the text `b`.
  rest-IsShaped :
      (i : Info H E) (cs : Nodes H E) (rest s : Bytes)
      → IsSound (node i cs)
      → IsShaped (node i cs)
      → is_piece w.kind s ≡ true
      → ((c : ℕ) (r : Bytes) → rest ≡ c ∷ r → AllShaped (insert_below w (c ∷ (r ++ s)) cs))
      → IsShaped (insert_node w (i.prefix ++ (rest ++ s)) (node i cs))
  rest-IsShaped i cs [] [] (l, ne, ss) h k below =
      rw (append-nil i.prefix) (found-IsShaped i cs ne h)
  rest-IsShaped i cs [] (c ∷ s) (l, ne, ss) h k below =
      deeper-IsShaped i cs c s ne h (insert_below-AllShaped w cs c s ss h.1 k)
  rest-IsShaped i cs (c ∷ r) s (l, ne, ss) h k below =
      deeper-IsShaped i cs c (r ++ s) ne h (below c r refl)

  at-IsShaped :
      (b s : Bytes) (i : Info H E) (cs : Nodes H E)
      → IsSound (node i cs)
      → IsShaped (node i cs)
      → is_piece w.kind s ≡ true
      → ends_at b (node i cs) ≡ true
      → ((c : ℕ) (r : Bytes)
          → ends_below (c ∷ r) cs ≡ true
          → AllShaped (insert_below w (c ∷ (r ++ s)) cs))
      → (o : Option Bytes) → strip i.prefix b ≡ o
      → IsShaped (insert_node w (b ++ s) (node i cs))
  unfolding ends_at
  at-IsShaped b s i cs so h k e below none o = absurd (ground (arith, o, e))
  at-IsShaped b s i cs so h k e below (some rest) o =
      let a : b ++ s ≡ i.prefix ++ (rest ++ s) =
        ap (λ (z : Bytes). z ++ s) (strip-some i.prefix b rest o) ∙ append_assoc i.prefix rest s in
      subst (λ z. IsShaped (insert_node w z (node i cs))) (sym a)
        (rest-IsShaped i cs rest s so h k (λ c r q. below c r (ground (arith, o, e, q))))

  mutual
    unfolding insert_node ends_at

    -- Where a node ends at `b`, a write at `b ++ s` of a piece `s` keeps the shape of every node.
    pub behind-IsShaped :
        (n : Node H E) (b s : Bytes)
        → IsSound n
        → IsShaped n
        → is_piece w.kind s ≡ true
        → ends_at b n ≡ true
        → IsShaped (insert_node w (b ++ s) n)
    behind-IsShaped (node i cs) b s so h k e =
        at-IsShaped b s i cs so h k e (λ c r. behind-AllShaped cs c r s so.2 h.1 k)
          (strip i.prefix b) refl

    behind-AllShaped :
        (cs : Nodes H E) (c : ℕ) (r s : Bytes)
        → AllSound cs
        → AllShaped cs
        → is_piece w.kind s ≡ true
        → ends_below (c ∷ r) cs ≡ true
        → AllShaped (insert_below w (c ∷ (r ++ s)) cs)
    behind-AllShaped nil c r s so h k e = cc
    behind-AllShaped (cons d ds) c r s (sd, ss) (h, hs) k e = elim (Bool-cases (label_of d == c)) [
      | inl here ↦ rw here (behind-IsShaped d (c ∷ r) s sd h k (rw here at e), hs)
      | inr later ↦ rw later (h, behind-AllShaped ds c r s ss hs k (rw later at e))
    ]
