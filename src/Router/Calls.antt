-- ===== src/Router/Calls.antt =====
-- `Add` of core/router.go as its calls of `insert`: all but the last have no handler, and leave every
-- entry as it is; the last enters the path, the names and the Echo instance of the route.
use thinkgo.Base.{
  true, false, ◌==◌, ◌≡◌, ◌≢◌, refl, ap, sym, subst, ◌∙◌, ◌⊎◌, inl, inr, arith, if◌then◌else◌,
  Bytes, List, [], ◌∷◌, ◌++◌, Option, none, some, first, equal, append-nil, append_assoc,
  Bool-cases, codes,
}
use thinkgo.Router.Tree.{skind, pkind, mkind}
use thinkgo.Router.Insert.{
  Write, Router, insert, Registration, static_write, route_write, add_from, add, ◌>>=◌,
}
use thinkgo.Router.Rooted.{IsRooted}
use thinkgo.Router.Routes.{shape, shape_from, name_of, first-concat}
use thinkgo.Router.Entries.{NodeEntry, entry_at}
use thinkgo.Router.Entered.{insert-Enters, Spares, Enters}

-- The names of the parameters of a path; the first argument is what is read of the name that the text
-- begins in.
unfoldable pub names_from : Option Bytes → Bytes → List Bytes
names_from none [] = []
names_from none (c ∷ s) =
    if c == b':'
    then names_from (some []) s
    else if c == b'*'
    then codes "_*" ∷ []
    else names_from none s
names_from (some name) [] = name ∷ []
names_from (some name) (c ∷ s) =
    if c == b'/' then name ∷ names_from none s else names_from (some (name ++ c ∷ [])) s

unfoldable pub names : Bytes → List Bytes
names = names_from none

module _ {H E : Type 0} where
  unfoldable pub insert_all : List (Write H E) → Router H E → Option (Router H E)
  insert_all [] r = some r
  insert_all (w ∷ ws) r = insert w r >>= insert_all ws

  -- The writes have no handler, and are at what starts the text.
  abbrev pub AllSilent : Bytes → List (Write H E) → Type 0
  AllSilent at [] = Unit
  AllSilent at (w ∷ ws) =
      (w.handler ≡ none)
      × (first w.path ≡ b'/')
      × ((t : Bytes) × (at ≡ w.path ++ t))
      × AllSilent at ws

  -- The last call of `insert` of a run of `Add`
  abbrev pub IsLast : Registration H E → Bytes → List Bytes → Write H E → Type 0
  IsLast a at ns w =
      (w.path ≡ at)
      × (w.handler ≡ a.handler)
      × (w.pnames ≡ ns)
      × (w.ppath ≡ a.path)
      × (w.echo ≡ a.echo)
      × (first w.path ≡ b'/')

  -- A run is calls of `insert` with no handler, and then one with the handler, at the shape of the path.
  abbrev pub Calls :
      Registration H E → Bytes → List Bytes → (Router H E → Option (Router H E)) → Type 0
  Calls a at ns f =
      (ws : List (Write H E)) × (w : Write H E) × AllSilent at ws
      × IsLast a at ns w
      × ((r : Router H E) → f r ≡ (insert_all ws r >>= insert w))

after_insert :
    {H E : Type 0} (o : Option (Router H E)) (f : Router H E → Option (Router H E))
    (ws : List (Write H E)) (w : Write H E)
    → ((r : Router H E) → f r ≡ (insert_all ws r >>= insert w))
    → (o >>= f) ≡ ((o >>= insert_all ws) >>= insert w)
after_insert none f ws w e = refl
after_insert (some r) f ws w e = e r

module _ {H E : Type 0} (a : Registration H E) where
  Calls-last :
      (w : Write H E) (at : Bytes) (ns : List Bytes) → IsLast a at ns w → Calls a at ns (insert w)
  unfolding insert_all
  Calls-last w at ns l = ([], w, tt, l, λ r. refl)

  Calls-after :
      (w : Write H E) (at : Bytes) (ns : List Bytes) (f : Router H E → Option (Router H E))
      → w.handler ≡ none
      → first w.path ≡ b'/'
      → (t : Bytes) → at ≡ w.path ++ t
      → Calls a at ns f
      → Calls a at ns (λ r. insert w r >>= f)
  unfolding insert_all
  Calls-after w at ns f n p t z (ws, v, s, l, e) =
      (w ∷ ws, v, (n, p, (t, z), s), l, λ r. after_insert (insert w r) f ws v e)

  Calls-regroup :
      (at at' : Bytes) (ns ns' : List Bytes) (f : Router H E → Option (Router H E))
      → at ≡ at'
      → ns ≡ ns'
      → Calls a at ns f
      → Calls a at' ns' f
  Calls-regroup at at' ns ns' f x y (ws, w, s, l, e) =
      (ws, w, subst (λ z. AllSilent z ws) x s, (l.0 ∙ x, l.1, l.2 ∙ y, l.3, l.4, l.5), e)

  add_from-Calls :
      (rest : Bytes) (name : Option Bytes) (done : Bytes) (pnames : List Bytes)
      → first done ≡ b'/'
      → Calls a
          (done ++ shape_from (name_of name) rest)
          (pnames ++ names_from name rest)
          (add_from a name done pnames rest)
  unfolding add_from shape_from names_from
  add_from-Calls [] none done pnames p =
      Calls-last (route_write a done a.handler skind pnames) _ _
        (sym (append-nil done), refl, sym (append-nil pnames), refl, refl, p)
  add_from-Calls [] (some name) done pnames p =
      Calls-last (route_write a done a.handler pkind (pnames ++ name ∷ [])) _ _
        (sym (append-nil done), refl, refl, refl, refl, p)
  add_from-Calls (c ∷ rest) none done pnames p = elim (Bool-cases (c == b':')) [
    | inl colon ↦ rw colon (
        Calls-after (static_write a done) _ _ _ refl p _ refl (
          Calls-regroup _ _ _ _ _ (append_assoc done (c ∷ []) (shape_from true rest)) refl
            (add_from-Calls rest (some []) (done ++ c ∷ []) pnames (first-concat done c p))))
    | inr not_colon ↦ elim (Bool-cases (c == b'*')) [
      | inl star ↦
          rw (not_colon, star)
            (Calls-after (static_write a done) _ _ _ refl p _ refl (
              Calls-last
                (route_write a (done ++ c ∷ []) a.handler mkind (pnames ++ codes "_*" ∷ [])) _ _
                (refl, refl, refl, refl, refl, first-concat done c p)))
      | inr plain ↦
          rw (not_colon, plain)
            (Calls-regroup _ _ _ _ _ (append_assoc done (c ∷ []) (shape_from false rest)) refl
              (add_from-Calls rest none (done ++ c ∷ []) pnames (first-concat done c p)))
    ]
  ]
  add_from-Calls (c ∷ rest) (some name) done pnames p = elim (Bool-cases (c == b'/')) [
    | inl slash ↦ rw slash (
        Calls-after (route_write a done none pkind (pnames ++ name ∷ [])) _ _ _ refl p _ refl (
          Calls-regroup _ _ _ _ _ (append_assoc done (c ∷ []) (shape_from false rest))
            (append_assoc pnames (name ∷ []) (names_from none rest))
            (add_from-Calls rest none (done ++ c ∷ []) (pnames ++ name ∷ [])
              (first-concat done c p))))
    | inr other ↦ rw other (add_from-Calls rest (some (name ++ c ∷ [])) done pnames p)
  ]

  add_from_slash :
      (path : Bytes)
      → first path ≡ b'/'
      → Calls a (shape path) (names path) (add_from a none [] [] path)
  unfolding add_from shape_from names_from shape names
  add_from_slash [] h = cc
  add_from_slash (c ∷ rest) h = rw h (add_from-Calls rest none (b'/' ∷ []) [] refl)

  -- `Add` at a path that starts with a slash, as its calls of `insert`
  pub add-Calls : first a.path ≡ b'/' → Calls a (shape a.path) (names a.path) (add a)
  unfolding add
  add-Calls h = add_from_slash a.path h

  -- What `Add` does to the entries of a router: it leaves those of all other shapes, and with a handler it
  -- puts its own at its shape.
  abbrev pub AddEnters : Router H E → Router H E → Type 0
  AddEnters r r' =
      ((k : Bytes) (o : NodeEntry E)
        → k ≢ []
        → (a.handler ≡ none) ⊎ (equal k (shape a.path) ≡ false)
        → entry_at k r.tree ≡ some o
        → entry_at k r'.tree ≡ some o)
      × ((h : H)
          → a.handler ≡ some h
          → (o : NodeEntry E) × (entry_at (shape a.path) r'.tree ≡ some o)
            × (o.names ≡ names a.path)
            × (o.echo ≡ a.echo)
            × ((o.path ≡ shape a.path) ⊎ (o.path ≡ a.path)))

  silent_enters :
      (at : Bytes) (ws : List (Write H E)) (r : Router H E)
      → AllSilent at ws
      → IsRooted r
      → (r' : Router H E) × (insert_all ws r ≡ some r')
        × IsRooted r'
        × ((k : Bytes) (o : NodeEntry E)
            → k ≢ []
            → entry_at k r.tree ≡ some o
            → entry_at k r'.tree ≡ some o)
  unfolding insert_all
  silent_enters at [] r s h = (r, refl, h, λ k o ne e. e)
  silent_enters at (w ∷ ws) r (n, p, _, s) h =
      let (r1, x1, h1, (k1, _)) = insert-Enters w r h p in
      let (r2, x2, h2, k2) = silent_enters at ws r1 s h1 in
      (r2, rw x1 x2, h2, λ k o ne e. k2 k o ne (k1 k o ne (inl n) e))

  spares :
      (w : Write H E) (k : Bytes)
      → w.path ≡ shape a.path
      → w.handler ≡ a.handler
      → (a.handler ≡ none) ⊎ (equal k (shape a.path) ≡ false)
      → Spares w k
  spares w k at e (inl n) = inl (e ∙ n)
  spares w k at e (inr n) = inr (ap (equal k) at ∙ n)

  last-Enters :
      (r r1 r2 : Router H E) (w : Write H E)
      → ((k : Bytes) (o : NodeEntry E)
          → k ≢ []
          → entry_at k r.tree ≡ some o
          → entry_at k r1.tree ≡ some o)
      → Enters w r1 r2
      → IsLast a (shape a.path) (names a.path) w
      → AddEnters r r2
  last-Enters r r1 r2 w k1 (k2, p2) (at, same_handler, ns, pp, e, _) = (
    λ k o ne other en. k2 k o ne (spares w k at same_handler other) (k1 k o ne en),
    λ h g.
        let (o, z, n, x, y) = p2 h (same_handler ∙ g) in
        (o, ap (λ q. entry_at q r2.tree) (sym at) ∙ z, n ∙ ns, x ∙ e, ground (arith, y, at, pp)),
  )

  -- `Add` at a path that starts with a slash ends well and does that.
  pub add-AddEnters :
      (r : Router H E)
      → IsRooted r
      → first a.path ≡ b'/'
      → (r' : Router H E) × (add a r ≡ some r') × AddEnters r r'
  add-AddEnters r h p =
      let (ws, w, s, l, e) = add-Calls p in
      let (r1, x1, h1, k1) = silent_enters (shape a.path) ws r s h in
      let (r2, x2, h2, (k2, p2)) = insert-Enters w r1 h1 l.5 in
      (r2, e r ∙ rw x1 x2, last-Enters r r1 r2 w k1 (k2, p2) l)
