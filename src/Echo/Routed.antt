-- ===== src/Echo/Routed.antt =====
-- core/echo.go and core/router.go together: `add` on the instances that share a router, and `ServeHTTP`
-- on what they registered.
use thinkgo.Base.{
  true, ◌≡◌, ◌≢◌, refl, ap, ◌∙◌, map, Bool, Bytes, List, [], ◌∷◌, ◌++◌, Option, none, some,
  Option-cases, inl, inr,
}
use thinkgo.Router.Method.{Method}
use thinkgo.Router.Tree.{Node}
use thinkgo.Router.Insert.{Router, Registration, new_router, ◌>>=◌}
use thinkgo.Router.Insert
use thinkgo.Router.Find.{Handler, Params, Found, done, find}
use thinkgo.Router.Find
use thinkgo.Router.Shaped.{is_plain}
use thinkgo.Router.Table.{AllRooted, add_routes, latest, latest_route}
use thinkgo.Router.Serves.{served, find-latest}
use thinkgo.Echo.Register.{Route, App, Echo, add}
use thinkgo.Echo.Stored.{HasPrefix, full_path, full_path_rooted, add-eq-some}
use thinkgo.Echo.Chain.{
  HandlerFunc, MiddlewareFunc, handler_func, add_middleware, wrap_all, sequence, use-sequence,
}
use thinkgo.Echo.Serve.{Err, respond, serve_http, served_path}

-- A call of `add`
pub record Call (H E M : Type 0) : Type 0 where
  pub echo : Echo E M
  pub method : Method
  pub path : Bytes
  pub handler : H

abbrev pub new_app : {H E : Type 0} → App H E
new_app = record { router = new_router; routes = [] }

module _ {H E M : Type 0} where
  -- What a call asks of the router
  abbrev pub registration : Call H E M → Registration H E
  registration c = record {
    method = c.method;
    path = full_path c.echo c.path;
    handler = some c.handler;
    echo = c.echo.echo;
  }

  abbrev pub registrations : List (Call H E M) → List (Registration H E)
  registrations [] = []
  registrations (c ∷ calls) = registration c ∷ registrations calls

  abbrev pub AllPrefixed : List (Call H E M) → Type 0
  AllPrefixed [] = Unit
  AllPrefixed (c ∷ calls) = HasPrefix c.echo × AllPrefixed calls

  registrations-AllRooted :
      (calls : List (Call H E M)) → AllPrefixed calls → AllRooted (registrations calls)
  registrations-AllRooted [] p = tt
  registrations-AllRooted (c ∷ calls) (p, ps) =
      (full_path_rooted c.echo.prefix c.path p, registrations-AllRooted calls ps)

module _ {H E M : Type 0} (name_of : H → Bytes) where
  unfoldable pub add_calls : List (Call H E M) → App H E → Option (App H E)
  add_calls [] app = some app
  add_calls (c ∷ calls) app = add name_of c.echo c.method c.path c.handler app >>= add_calls calls

  add_calls-add_routes :
      (calls : List (Call H E M)) (app : App H E) (r : Router H E)
      → add_routes (registrations calls) app.router ≡ some r
      → (app' : App H E) × (add_calls calls app ≡ some app') × (app'.router ≡ r)
  unfolding add_calls add_routes add
  add_calls-add_routes [] app r e = (app, refl, cc e)
  add_calls-add_routes (c ∷ calls) app r e =
      elim (Option-cases (Insert.add (registration c) app.router)) [
        | inl x ↦ absurd (cc (rw x at e))
        | inr (r1, x) ↦
            let entry : Route = record {
              method = c.method;
              path = full_path c.echo c.path;
              handler = name_of c.handler;
            } in
            let app1 : App H E = record { router = r1; routes = app.routes ++ entry ∷ [] } in
            let (app2, y, z) = add_calls-add_routes calls app1 r (rw x at e) in
            (
              app2,
              ap (λ o. o >>= add_calls calls)
                    (add-eq-some name_of c.echo c.path c.handler c.method app r1 x)
                  ∙ y,
              z,
            )
      ]

-- What `ServeHTTP` makes of the end of the chain
abbrev pub settled : {E S : Type 0} → (E → Err → S → S) → E → S × Option Err → S
settled on_error e (s, err) = elim err [ some x ↦ on_error e x s | none ↦ s ]

module _ {H E S : Type 0} (act : Handler H → HandlerFunc S Err)
    (middleware : E → List (MiddlewareFunc S Err)) (on_error : E → Err → S → S)
    (enter : E → Params → S) (committed : S → Bool) where
  respond-sequence :
      (f : Found H E) (ms : List (HandlerFunc S Err))
      → add_middleware committed [] (map handler_func ms) ≡ some (middleware f.echo)
      → respond act middleware on_error enter f
        ≡ settled on_error f.echo (sequence ms (act f.handler) (enter f.echo f.context))
  unfolding respond
  respond-sequence f ms e =
      let (fs, x, y) = use-sequence committed ms in
      let same_chain : middleware f.echo ≡ fs = cc (e, x) in
      ap (λ l. settled on_error f.echo (wrap_all l (act f.handler) (enter f.echo f.context)))
        same_chain
      ∙ ap (settled on_error f.echo) (y (act f.handler) (enter f.echo f.context))

  serve_http-found :
      (tree : Node H E) (e : E) (m : Method) (path : Bytes) (ctx : Params) (f : Found H E)
      → find tree e m (served_path path) ctx ≡ done f
      → serve_http act middleware on_error enter tree e m path ctx
        ≡ done (respond act middleware on_error enter f)
  unfolding serve_http
  serve_http-found tree e m path ctx f x = rw (x, serve_http) refl

module _ {H E M S : Type 0} (name_of : H → Bytes) (act : Handler H → HandlerFunc S Err)
    (middleware : E → List (MiddlewareFunc S Err)) (on_error : E → Err → S → S)
    (enter : E → Params → S) (committed : S → Bool) where
  -- From a new router on, any instances whose prefixes are empty or start with a slash can register routes
  -- in any order without a panic. Then a request, whose path without the slashes at its end has no colon
  -- and no star, where `h` is the handler of the last route for its method there and `a` the last route
  -- there, whatever its method, runs the handlers that were given to `Use` on the instance of `a`, in
  -- order, and behind them `h`, up to the first error, which goes to the error handler of that instance;
  -- the context has the path, no names and the old values.
  pub serve_http-sequence :
      (calls : List (Call H E M)) (a : Registration H E) (e : E) (m : Method) (path : Bytes)
      (ctx : Params) (h : H) (ms : List (HandlerFunc S Err))
      → AllPrefixed calls
      → is_plain (served_path path) ≡ true
      → served_path path ≢ []
      → latest m (served_path path) (registrations calls) none ≡ some h
      → latest_route (served_path path) (registrations calls) none ≡ some a
      → add_middleware committed [] (map handler_func ms) ≡ some (middleware a.echo)
      → (app : App H E) × (add_calls name_of calls new_app ≡ some app)
        × (serve_http act middleware on_error enter app.router.tree e m path ctx
            ≡ done (
                settled on_error a.echo (
                  sequence ms
                    (act (Find.registered h))
                    (enter a.echo (served a h (served_path path) ctx).context))))
  serve_http-sequence calls a e m path ctx h ms p pl ne g t u =
      let (r, x, y) =
        find-latest (registrations calls) a e m (served_path path) ctx h
          (registrations-AllRooted calls p) pl ne g t in
      let (app, z, w) = add_calls-add_routes name_of calls new_app r x in
      let f = served a h (served_path path) ctx in
      let y' : find app.router.tree e m (served_path path) ctx ≡ done f =
        ap (λ (q : Router H E). find q.tree e m (served_path path) ctx) w ∙ y in
      (
        app,
        z,
        serve_http-found act middleware on_error enter committed app.router.tree e m path ctx f y'
            ∙ ap done (respond-sequence act middleware on_error enter committed f ms u),
      )
