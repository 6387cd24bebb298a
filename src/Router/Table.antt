-- ===== src/Router/Table.antt =====
-- core/router.go from `NewRouter` on: a table of routes that `Add` puts in one after the other.
use thinkgo.Base.{
  ◌&&◌, ◌≡◌, ◌≢◌, refl, ap, sym, ◌∙◌, subst, ◌⊎◌, inl, inr, if◌then◌else◌, Bytes, List, [], ◌∷◌,
  Option, none, some, first, strip, equal, equal_iff, arith, Bool-cases, Option-cases,
}
use thinkgo.Router.Method.{Method, same}
use thinkgo.Router.Insert.{Router, Registration, new_router, add, ◌>>=◌}
use thinkgo.Router.Content.{is_known, find_handler-no_handlers, handler_at}
use thinkgo.Router.Rooted.{registered}
use thinkgo.Router.Routes.{shape, stored, add-Stores}
use thinkgo.Router.Entries.{NodeEntry, entry_at}
use thinkgo.Router.Calls.{names, AddEnters, add-AddEnters}
use thinkgo.Router.Kept.{IsKept, add-Keeps}

pub nothing_new :
    {H : Type 0} (E : Type 0) (m : Method) (k : Bytes)
    → registered (new_router {H = H} {E = E}) m k ≡ none
unfolding handler_at strip
nothing_new E m [] = find_handler-no_handlers m
nothing_new E m (c ∷ k) = refl

module _ {H E : Type 0} where
  -- `Add` for each route of a list
  unfoldable pub add_routes : List (Registration H E) → Router H E → Option (Router H E)
  add_routes [] r = some r
  add_routes (a ∷ routes) r = add a r >>= add_routes routes

  -- Every path starts with a slash.
  abbrev pub AllRooted : List (Registration H E) → Type 0
  AllRooted [] = Unit
  AllRooted (a ∷ routes) = (first a.path ≡ b'/') × AllRooted routes

  -- The handler of the last route of the list for a method at a shape, or else `old`
  unfoldable pub latest : Method → Bytes → List (Registration H E) → Option H → Option H
  latest m k [] old = old
  latest m k (a ∷ routes) old = latest m k routes (
      if equal k (shape a.path) && is_known m && same m a.method
      then elim a.handler [ none ↦ old | some h ↦ some h ]
      else old)

  -- The last route of the list that has a handler and this shape, or else `old`
  unfoldable pub latest_route :
      Bytes → List (Registration H E) → Option (Registration H E) → Option (Registration H E)
  latest_route k [] old = old
  latest_route k (a ∷ routes) old =
      latest_route k routes
        (if equal k (shape a.path) then elim a.handler [ none ↦ old | some h ↦ some a ] else old)

  -- The tree has the names and the Echo instance of a route at its shape.
  abbrev pub HasRoute : Bytes → Router H E → Registration H E → Type 0
  HasRoute k r a =
      (o : NodeEntry E) × (entry_at k r.tree ≡ some o)
      × (o.names ≡ names a.path)
      × (o.echo ≡ a.echo)
      × ((o.path ≡ k) ⊎ (o.path ≡ a.path))
      × (shape a.path ≡ k)

  abbrev pub AddsRoutes : List (Registration H E) → Router H E → Type 0
  AddsRoutes routes r =
      (r' : Router H E) × (add_routes routes r ≡ some r')
      × IsKept r'
      × ((m : Method) (k : Bytes) → registered r' m k ≡ latest m k routes (registered r m k))
      × ((k : Bytes) (old : Option (Registration H E)) (a : Registration H E)
          → k ≢ []
          → ((b : Registration H E) → old ≡ some b → HasRoute k r b)
          → latest_route k routes old ≡ some a
          → HasRoute k r' a)

  -- One route: the router stays of this form, and changes as `stored` and `AddEnters` say.
  add-Stored :
      (a : Registration H E) (r : Router H E)
      → IsKept r
      → first a.path ≡ b'/'
      → (r' : Router H E) × (add a r ≡ some r')
        × IsKept r'
        × ((m : Method) (k : Bytes) → registered r' m k ≡ stored a (shape a.path) r m k)
        × AddEnters a r r'
  add-Stored a r h p =
      let (r1, x, h1) = add-Keeps a r h p in
      let (r2, y, _, e) = add-Stores a r h.0 p in
      let (r3, z, f) = add-AddEnters a r h.0 p in
      let same_router : r1 ≡ r2 = cc (x, y) in
      let same_again : r3 ≡ r1 = cc (x, z) in
      (
        r1,
        x,
        h1,
        λ m k. ap (λ z. registered z m k) same_router ∙ e m k,
        subst (AddEnters a r) same_again f,
      )

  -- The route of a key after one more is added: the new one if that has a handler and the shape.
  next_route :
      (a : Registration H E) (r r' : Router H E) (k : Bytes) (old : Option (Registration H E))
      → AddEnters a r r'
      → k ≢ []
      → ((b : Registration H E) → old ≡ some b → HasRoute k r b)
      → (b : Registration H E)
      → (if equal k (shape a.path) then elim a.handler [ none ↦ old | some h ↦ some a ] else old)
        ≡ some b
      → HasRoute k r' b
  next_route a r r' k old (keeps, puts) ne was b e = elim (Bool-cases (equal k (shape a.path))) [
    | inr other ↦
        let (o, x, n, y, p, s) = was b (rw other at e) in
        (o, keeps k o ne (inr other) x, n, y, p, s)
    | inl at ↦ elim (Option-cases a.handler) [
      | inl silent ↦
          let (o, x, n, y, p, s) = was b (rw (at, silent) at e) in
          (o, keeps k o ne (inl silent) x, n, y, p, s)
      | inr (h, g) ↦
          let key : k ≡ shape a.path = (equal_iff k (shape a.path)).0 at in
          let e' : some a ≡ some b = rw (at, g) at e in
          let same_route : a ≡ b = cc e' in
          let (o, x, n, y, p) = puts h g in
          subst (HasRoute k r') same_route
            (o, ap (λ z. entry_at z r'.tree) key ∙ x, n, y, ground (arith, p, key), sym key)
    ]
  ]

  pub add_routes-AddsRoutes :
      (routes : List (Registration H E)) (r : Router H E)
      → AllRooted routes
      → IsKept r
      → AddsRoutes routes r
  unfolding add_routes latest latest_route
  add_routes-AddsRoutes [] r p h = (r, refl, h, λ m k. refl, λ k old a ne was e. was a e)
  add_routes-AddsRoutes (a ∷ routes) r (p, ps) h =
      let (r1, x, h1, e1, n1) = add-Stored a r h p in
      let (r2, y, h2, e2, n2) = add_routes-AddsRoutes routes r1 ps h1 in
      let next : (m : Method) (k : Bytes)
          → registered r1 m k ≡ (
              if equal k (shape a.path) && is_known m && same m a.method
              then elim a.handler [ none ↦ registered r m k | some h ↦ some h ]
              else registered r m k) =
        λ m k. ground (arith, e1 m k) in
      (
        r2,
        rw x y,
        h2,
        λ m k. e2 m k ∙ ap (latest m k routes) (next m k),
        λ k old b ne was e. n2 k _ b ne (next_route a r r1 k old n1 ne was) e,
      )
