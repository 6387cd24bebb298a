-- ===== src/Router/Serves.antt =====
-- `Find` of core/router.go on a table of routes: what a path without parameters is answered with.
use thinkgo.Base.{
  ℕ, true, ◌≡◌, ◌≢◌, refl, ap, sym, ◌∙◌, inl, inr, Bytes, List, [], ◌∷◌, Option, none, some, arith,
}
use thinkgo.Router.Method.{Method}
use thinkgo.Router.Tree.{Node, info}
use thinkgo.Router.Insert.{Router, Registration, new_router}
use thinkgo.Router.Find.{Handler, Params, Found, done, found_at, find}
use thinkgo.Router.Find
use thinkgo.Router.Rooted.{registered}
use thinkgo.Router.Routes.{shape}
use thinkgo.Router.StaticFirst.{find-static}
use thinkgo.Router.Shaped.{is_plain, handler_at-static_at}
use thinkgo.Router.Served.{nothing_fresh}
use thinkgo.Router.Entries.{NodeEntry, entry_of}
use thinkgo.Router.PlainEntries.{entry_at-static_at, shape_plain, names_plain}
use thinkgo.Router.Kept.{IsKept, new_router-IsKept}
use thinkgo.Router.Table.{
  AllRooted, add_routes, latest, latest_route, HasRoute, add_routes-AddsRoutes, nothing_new,
}

module _ {H E : Type 0} where
  -- The answer to a request of a route without parameters
  abbrev pub served : Registration H E → H → Bytes → Params → Found H E
  served a h path ctx = record {
    handler = Find.registered h;
    echo = a.echo;
    context = record { path = path; pnames = []; pvalues = ctx.pvalues };
  }

  found_at-served :
      (a : Registration H E) (e : E) (h : H) (path : Bytes) (ctx : Params) (d : Node H E)
      (o : NodeEntry E)
      → entry_of (info d) ≡ some o
      → o.path ≡ path
      → o.names ≡ []
      → o.echo ≡ a.echo
      → (x : Option E) → (info d).echo ≡ x
      → found_at e d (Find.registered h) ctx.pvalues ≡ served a h path ctx
  found_at-served a e h path ctx d o q p n z none y = absurd (ground (arith, q, y))
  found_at-served a e h path ctx d o q p n z (some x) y =
      let own : NodeEntry E = record { path = (info d).ppath; names = (info d).pnames; echo = x } in
      let q' : some own ≡ some o = rw (y, entry_of) at q in
      let same_entry : own ≡ o = cc q' in
      ground (
        arith,
        y,
        ap (λ (u : NodeEntry E). u.path) same_entry,
        ap (λ (u : NodeEntry E). u.names) same_entry,
        ap (λ (u : NodeEntry E). u.echo) same_entry,
      )

  find-plain :
      (r : Router H E) (a : Registration H E) (e : E) (m : Method) (c : ℕ) (path : Bytes)
      (ctx : Params) (h : H)
      → IsKept r
      → is_plain (c ∷ path) ≡ true
      → registered r m (c ∷ path) ≡ some h
      → HasRoute (c ∷ path) r a
      → find r.tree e m (c ∷ path) ctx ≡ done (served a h (c ∷ path) ctx)
  find-plain r a e m c path ctx h (inl f, k) p g t = absurd (nothing_fresh m c path r.tree h f g)
  find-plain r a e m c path ctx h (inr (s, _), k) p g (o, x, n, y, at, shaped) =
      let (d, b, f) = handler_at-static_at m (c ∷ path) r.tree h s k p g in
      let q : entry_of (info d) ≡ some o =
        sym (entry_at-static_at r.tree (c ∷ path) d s k p b) ∙ x in
      let pl : is_plain (shape a.path) ≡ true = ap is_plain shaped ∙ p in
      let own : shape a.path ≡ a.path = shape_plain a.path pl in
      let there : o.path ≡ c ∷ path = elim at [ inl z ↦ z | inr z ↦ z ∙ sym own ∙ shaped ] in
      find-static r.tree e m (c ∷ path) ctx d h (λ z. cc z) b f
      ∙ ap done (
          found_at-served a e h (c ∷ path) ctx d o q there (n ∙ names_plain a.path pl) y
            (info d).echo refl)

  -- From `NewRouter` on, any routes whose paths start with a slash can be added one after the other
  -- without a panic. For a path with no colon and no star, where `h` is the handler of the last route for
  -- the method at it, and `a` is the last route with a handler at it, whatever its method, `Find` then
  -- returns `h`, the Echo instance of `a`, the path itself and no names, whatever other routes the list
  -- has, and leaves the parameter values alone.
  pub find-latest :
      (routes : List (Registration H E)) (a : Registration H E) (e : E) (m : Method) (path : Bytes)
      (ctx : Params) (h : H)
      → AllRooted routes
      → is_plain path ≡ true
      → path ≢ []
      → latest m path routes none ≡ some h
      → latest_route path routes none ≡ some a
      → (r : Router H E) × (add_routes routes new_router ≡ some r)
        × (find r.tree e m path ctx ≡ done (served a h path ctx))
  find-latest routes a e m [] ctx h p pl ne g t = absurd (ne refl)
  find-latest routes a e m (c ∷ path) ctx h p pl ne g t =
      let (r, x, k, f, n) = add_routes-AddsRoutes routes new_router p new_router-IsKept in
      let there : registered r m (c ∷ path) ≡ some h =
        f m (c ∷ path) ∙ ap (latest m (c ∷ path) routes) (nothing_new E m (c ∷ path)) ∙ g in
      let entered : HasRoute (c ∷ path) r a = n (c ∷ path) none a ne (λ b z. absurd (cc z)) t in
      (r, x, find-plain r a e m c path ctx h k pl there entered)
