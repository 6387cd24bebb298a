-- ===== src/Context/Matched.antt =====
-- core/router.go with the contexts of core/context.go: a path that matches a route with parameters,
-- where no other route competes.
use thinkgo.Base.{
  ◌≡◌, ◌≢◌, refl, ap, sym, ◌∙◌, ◌⊎◌, inl, inr, subst, Bytes, List, [], ◌∷◌, ◌++◌, Option, none,
  some, arith, first, length, drop, strip, strip_self,
}
use thinkgo.Router.Method.{Method}
use thinkgo.Router.Tree.{Node, info}
use thinkgo.Router.Insert.{Router, Registration, new_router}
use thinkgo.Router.Find.{Handler, Found, done, found_at, find}
use thinkgo.Router.Find
use thinkgo.Router.Rooted.{registered}
use thinkgo.Router.Routes.{shape}
use thinkgo.Router.Shaped.{IsShaped}
use thinkgo.Router.Content.{IsSound, handler_at}
use thinkgo.Router.Served.{nothing_fresh}
use thinkgo.Router.Entries.{NodeEntry, entry_of, entry_at}
use thinkgo.Router.Kept.{IsKept, new_router-IsKept, rooted_piece}
use thinkgo.Router.Calls.{names}
use thinkgo.Router.Keys.{IsClosed, HasKeys}
use thinkgo.Router.Known.{IsKnown, IsKnown-IsClosed, add_routes-HasKeys}
use thinkgo.Router.Match.{Matches, stop, byte, parameter, star, peel}
use thinkgo.Router.Values.{Matches-length}
use thinkgo.Router.Descent.{Arrives, opened, child-Stands, shaped_piece, descend}
use thinkgo.Router.Table.{
  AllRooted, add_routes, latest, latest_route, add_routes-AddsRoutes, nothing_new,
}
use thinkgo.Context.Life.{make, new_params}
use thinkgo.Context.Fits.{find-new_context}

-- A path that is not empty does not match the empty shape.
shape_not_empty :
    (p : Bytes → Type 0) (k s t : Bytes) (vs : List Bytes) → Matches p k s t vs → t ≢ [] → s ≢ []
shape_not_empty p k _ _ vs stop ne = absurd (ne refl)
shape_not_empty p k _ _ vs (byte m x) ne = λ e. cc e
shape_not_empty p k _ _ vs (parameter n x) ne = λ e. cc e
shape_not_empty p k _ _ vs (star z n n') ne = λ e. cc e

module _ {H E : Type 0} where
  -- What `Find` returns at a node with an entry
  abbrev pub answer : NodeEntry E → H → List Bytes → Found H E
  answer o h pvalues = record {
    handler = Find.registered h;
    echo = o.echo;
    context = record { path = o.path; pnames = o.names; pvalues = pvalues };
  }

  found_at-as :
      (e : E) (n : Node H E) (h : H) (pvalues : List Bytes) (o : NodeEntry E) (x : Option E)
      → (info n).echo ≡ x
      → entry_of (info n) ≡ some o
      → found_at e n (Find.registered h) pvalues ≡ answer o h pvalues
  found_at-as e n h pvalues o none x y = absurd (ground (arith, x, y))
  found_at-as e n h pvalues o (some z) x y =
      let own : NodeEntry E = record { path = (info n).ppath; names = (info n).pnames; echo = z } in
      let y' : some own ≡ some o = rw (x, entry_of) at y in
      let same_entry : own ≡ o = cc y' in
      ground (
        arith,
        x,
        ap (λ (u : NodeEntry E). u.path) same_entry,
        ap (λ (u : NodeEntry E). u.names) same_entry,
        ap (λ (u : NodeEntry E). u.echo) same_entry,
      )

  found_at-entry :
      (e : E) (n : Node H E) (h : H) (pvalues : List Bytes) (o : NodeEntry E)
      → entry_of (info n) ≡ some o
      → found_at e n (Find.registered h) pvalues ≡ answer o h pvalues
  found_at-entry e n h pvalues o y = found_at-as e n h pvalues o (info n).echo refl y

  pnames-entry :
      (n : Node H E) (o : NodeEntry E) → entry_of (info n) ≡ some o → (info n).pnames ≡ o.names
  pnames-entry n o y = ground arith

  -- From the root: its prefix stands before the path, and the rest leads to the node of the route.
  from_root :
      (p : Bytes → Type 0) (n : Node H E) (m : Method) (o : NodeEntry E) (h : H) (s t : Bytes)
      (vs : List Bytes)
      → IsClosed p
      → IsSound n
      → first (info n).prefix ≡ b'/'
      → IsShaped n
      → HasKeys p n
      → entry_at s n ≡ some o
      → handler_at m s n ≡ some h
      → Matches p [] s t vs
      → (rest : Bytes) × (strip (info n).prefix t ≡ some rest) × Arrives m o h p n rest vs
  from_root p n m o h s t vs cl so fi sh k e f x =
      let (s', y, at) = opened m o h s n e f in
      let q = (info n).prefix in
      let (_, pl) = rooted_piece (info n).kind q fi (shaped_piece n sh) in
      let (t', z, x') = peel p q [] s' t vs pl (subst (λ u. Matches p [] u t vs) y x) in
      (
        t',
        ap (strip q) z ∙ strip_self q t',
        descend m o h p (length s') n q s' t' vs cl (omega arith) (child-Stands p [] n so sh k) at
            x',
      )

  -- The path leads to the node of the route, in a router with the handler and the entry at its shape.
  arrives :
      (p : Bytes → Type 0) (r : Router H E) (m : Method) (o : NodeEntry E) (h : H) (s t : Bytes)
      (vs : List Bytes)
      → IsClosed p
      → IsKept r
      → HasKeys p r.tree
      → s ≢ []
      → entry_at s r.tree ≡ some o
      → registered r m s ≡ some h
      → Matches p [] s t vs
      → (rest : Bytes) × (strip (info r.tree).prefix t ≡ some rest) × Arrives m o h p r.tree rest vs
  arrives p r m o h [] t vs cl k g ne e f x = absurd (ne refl)
  arrives p r m o h (c ∷ s) t vs cl (inl fr, _) g ne e f x =
      absurd (nothing_fresh m c s r.tree h fr f)
  arrives p r m o h (c ∷ s) t vs cl (inr (so, q), sh) g ne e f x =
      from_root p r.tree m o h (c ∷ s) t vs cl so q sh g e f x

  -- From `NewRouter` on, any routes whose paths start with a slash can be added one after the other
  -- without a panic. Let `h` be the handler of the last route for the method at the shape of `a`, and `a`
  -- the last route with a handler at that shape, whatever its method. A path that is not empty and matches
  -- the shape, where at each parameter no route's shape goes on with the byte there, and at a star none
  -- with a parameter either, is then served: with a context made afterwards, `Find` returns `h`, the Echo
  -- instance and the names of `a`, the values of the segments in order with empty texts behind them, and
  -- the shape or the path of `a`. There are as many values as names.
  pub find-Matches :
      (routes : List (Registration H E)) (a : Registration H E) (e : E) (m : Method) (path : Bytes)
      (vs : List Bytes) (h : H)
      → AllRooted routes
      → path ≢ []
      → latest m (shape a.path) routes none ≡ some h
      → latest_route (shape a.path) routes none ≡ some a
      → Matches (IsKnown routes) [] (shape a.path) path vs
      → (r : Router H E) × (add_routes routes new_router ≡ some r)
        × ((at : Bytes) × ((at ≡ shape a.path) ⊎ (at ≡ a.path))
            × (find r.tree e m path (new_params r.max_param)
                ≡ done (
                    answer
                      (record { path = at; names = names a.path; echo = a.echo })
                      h
                      (vs ++ drop (length vs) (make r.max_param)))))
        × (length vs ≡ length (names a.path))
  find-Matches routes a e m path vs h p ne g t x =
      let s = shape a.path in
      let (r, y, k, f, n) = add_routes-AddsRoutes routes new_router p new_router-IsKept in
      let (r', y', keys') = add_routes-HasKeys routes p in
      let same_router : r' ≡ r = cc (y, y') in
      let keys : HasKeys (IsKnown routes) r.tree =
        subst (λ (z : Router H E). HasKeys (IsKnown routes) z.tree) same_router keys' in
      let there : registered r m s ≡ some h =
        f m s ∙ ap (latest m s routes) (nothing_new E m s) ∙ g in
      let se = shape_not_empty (IsKnown routes) [] s path vs x ne in
      let (o, z, ns, ec, at, _) = n s none a se (λ b w. absurd (cc w)) t in
      let (rest, u, (d, ld, en, fh)) =
        arrives (IsKnown routes) r m o h s path vs (IsKnown-IsClosed routes) k keys se z there x in
      let many = Matches-length (IsKnown routes) a.path path vs x in
      let len : length (info d).pnames ≡ length vs =
        ap length (pnames-entry d o en ∙ ns) ∙ sym many in
      let pv = vs ++ drop (length vs) (make r.max_param) in
      let own : o ≡ record { path = o.path; names = names a.path; echo = a.echo } =
        ground (arith, ns, ec) in
      (
        r,
        y,
        (
          o.path,
          at,
          find-new_context routes r e m path rest d vs h p y ne u ld len fh
              ∙ ap done (found_at-entry e d h pv o en)
              ∙ ap (λ v. done (answer v h pv)) own,
        ),
        many,
      )
