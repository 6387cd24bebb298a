-- ===== src/Router/Routes.antt =====
-- `Add` of core/router.go: a route is stored at its shape, and nothing else changes.
use thinkgo.Base.{
  ℕ, Bool, true, false, ◌&&◌, ◌==◌, ◌≡◌, refl, subst, arith, Bytes, List, [], ◌∷◌, ◌++◌, first,
  append-nil, append_assoc, Bool-cases, if◌then◌else◌, Option, some, none, equal, codes, inl, inr,
}
use thinkgo.Router.Method.{Method, same}
use thinkgo.Router.Tree.{skind, pkind, mkind}
use thinkgo.Router.Insert.{
  Write, Router, insert, Registration, static_write, route_write, add_from, add, ◌>>=◌,
}
use thinkgo.Router.Content.{is_known}
use thinkgo.Router.Rooted.{IsRooted, registered, insert-registered}

-- The path of a route without the names of its parameters, cut behind the first star. The flag says
-- that the text begins inside a name.
unfoldable pub shape_from : Bool → Bytes → Bytes
shape_from named [] = []
shape_from true (c ∷ s) = if c == b'/' then c ∷ shape_from false s else shape_from true s
shape_from false (c ∷ s) =
    if c == b':'
    then c ∷ shape_from true s
    else if c == b'*'
    then c ∷ []
    else c ∷ shape_from false s

unfoldable pub shape : Bytes → Bytes
shape = shape_from false

-- Whether a name is being read
abbrev pub name_of : Option Bytes → Bool
name_of none = false
name_of (some _) = true

pub first-concat : (done : Bytes) (c : ℕ) → first done ≡ b'/' → first (done ++ c ∷ []) ≡ b'/'
first-concat [] c h = cc
first-concat (x ∷ done) c h = h

module _ {H E : Type 0} (a : Registration H E) where
  -- The handler of a method at a key after `a` was stored at `at`.
  abbrev pub stored : Bytes → Router H E → Method → Bytes → Option H
  stored at r m k =
      if equal k at
      then elim a.handler [
        | none ↦ registered r m k
        | some h ↦ if is_known m && same m a.method then some h else registered r m k
      ]
      else registered r m k

  -- The run ends well, and its result differs from `r` at the key `at` alone.
  abbrev pub Stores : Bytes → Router H E → Option (Router H E) → Type 0
  Stores at r result =
      (r' : Router H E) × (result ≡ some r')
      × IsRooted r'
      × ((m : Method) (k : Bytes) → registered r' m k ≡ stored at r m k)

  -- A write with no handler changes no handler, so what follows it does all.
  Stores-after :
      (w : Write H E) (at : Bytes) (r : Router H E) (f : Router H E → Option (Router H E))
      → w.handler ≡ none
      → first w.path ≡ b'/'
      → IsRooted r
      → ((r' : Router H E) → IsRooted r' → Stores at r' (f r'))
      → Stores at r (insert w r >>= f)
  Stores-after w at r f n p s k =
      let (r1, e, s1, h1) = insert-registered w r s p in
      let (r2, e2, s2, h2) = k r1 s1 in (r2, rw e e2, s2, λ m k. ground (arith, h1 m k, h2 m k))

  Stores-last :
      (w : Write H E) (at : Bytes) (r : Router H E)
      → w.handler ≡ a.handler
      → w.method ≡ a.method
      → at ≡ w.path
      → first w.path ≡ b'/'
      → IsRooted r
      → Stores at r (insert w r)
  Stores-last w at r e n q p s =
      let (r1, x, s1, h1) = insert-registered w r s p in (r1, x, s1, λ m k. ground (arith, h1 m k))

  Stores-regroup :
      (done : Bytes) (c : ℕ) (s : Bytes) (r : Router H E) (result : Option (Router H E))
      → Stores ((done ++ c ∷ []) ++ s) r result
      → Stores (done ++ (c ∷ s)) r result
  Stores-regroup done c s r result h =
      subst (λ z. Stores z r result) (append_assoc done (c ∷ []) s) h

  add_from-Stores :
      (rest : Bytes) (name : Option Bytes) (done : Bytes) (pnames : List Bytes) (r : Router H E)
      → first done ≡ b'/'
      → IsRooted r
      → Stores (done ++ shape_from (name_of name) rest) r (add_from a name done pnames rest r)
  unfolding add_from shape_from
  add_from-Stores [] none done pnames r p s =
      Stores-last (route_write a done a.handler skind pnames) _ r refl refl (append-nil done) p s
  add_from-Stores [] (some name) done pnames r p s =
      Stores-last (route_write a done a.handler pkind (pnames ++ name ∷ [])) _ r refl refl
        (append-nil done) p s
  add_from-Stores (c ∷ rest) none done pnames r p s = elim (Bool-cases (c == b':')) [
    | inl colon ↦ rw colon (
        Stores-regroup done c _ r _ (
          Stores-after (static_write a done) _ r _ refl p s (λ r' s'.
            add_from-Stores rest (some []) (done ++ c ∷ []) pnames r' (first-concat done c p) s')))
    | inr not_colon ↦ elim (Bool-cases (c == b'*')) [
      | inl star ↦
          rw (not_colon, star)
            (Stores-after (static_write a done) _ r _ refl p s (λ r' s'.
              Stores-last
                (route_write a (done ++ c ∷ []) a.handler mkind (pnames ++ codes "_*" ∷ [])) _ r'
                refl refl refl (first-concat done c p) s'))
      | inr plain ↦
          rw (not_colon, plain)
            (Stores-regroup done c _ r _
              (add_from-Stores rest none (done ++ c ∷ []) pnames r (first-concat done c p) s))
    ]
  ]
  add_from-Stores (c ∷ rest) (some name) done pnames r p s = elim (Bool-cases (c == b'/')) [
    | inl slash ↦ rw slash (
        Stores-regroup done c _ r _ (
          Stores-after (route_write a done none pkind (pnames ++ name ∷ [])) _ r _ refl p s
            (λ r' s'.
              add_from-Stores rest none (done ++ c ∷ []) (pnames ++ name ∷ []) r'
                (first-concat done c p) s')))
    | inr other ↦ rw other (add_from-Stores rest (some (name ++ c ∷ [])) done pnames r p s)
  ]

  add_from-slash :
      (path : Bytes) (r : Router H E)
      → IsRooted r
      → first path ≡ b'/'
      → Stores (shape_from false path) r (add_from a none [] [] path r)
  unfolding add_from shape_from
  add_from-slash [] r s h = cc
  add_from-slash (c ∷ rest) r s h = rw h (add_from-Stores rest none (b'/' ∷ []) [] r refl s)

  -- On a rooted tree, adding a route at a path that starts with a slash does not panic and stores the
  -- handler at the shape of the path, for the route's method; no other method or key changes.
  pub add-Stores :
      (r : Router H E) → IsRooted r → first a.path ≡ b'/' → Stores (shape a.path) r (add a r)
  unfolding add shape
  add-Stores r s h = add_from-slash a.path r s h
