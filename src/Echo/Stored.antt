-- ===== src/Echo/Stored.antt =====
-- What the registration methods of core/echo.go put into the router and the list of routes.
use thinkgo.Base.{
  ◌≡◌, refl, sym, ap, ◌∙◌, Bool, false, ◌&&◌, ◌||◌, if◌then◌else◌, Bytes, List, [], ◌∷◌, ◌++◌, some,
  codes, first, join_path, join_path-rooted, equal, arith, inl, inr, ◌⊎◌, append_assoc, append-nil,
}
use thinkgo.Router.Method.{Method, same}
use thinkgo.Router.Insert.{Router, ◌>>=◌}
use thinkgo.Router.Insert
use thinkgo.Router.Content.{is_known}
use thinkgo.Router.Rooted.{IsRooted, registered}
use thinkgo.Router.Routes.{shape, add-Stores}
use thinkgo.Echo.Register.{Route, App, Echo, add, add_all, group}

-- The method is one of the list.
pub among : Method → List Method → Bool
among m [] = false
among m (k ∷ ks) = same m k || among m ks

-- A prefix is empty or starts with a slash.
abbrev pub HasPrefix : {E M : Type 0} → Echo E M → Type 0
HasPrefix e = (e.prefix ≡ []) ⊎ (first e.prefix ≡ b'/')

abbrev pub full_path : {E M : Type 0} → Echo E M → Bytes → Bytes
full_path e path = join_path (e.prefix ∷ codes "/" ∷ path ∷ [])

pub full_path_rooted :
    (prefix path : Bytes)
    → (prefix ≡ []) ⊎ (first prefix ≡ b'/')
    → first (join_path (prefix ∷ codes "/" ∷ path ∷ [])) ≡ b'/'
unfolding join_path
full_path_rooted [] path h = join_path-rooted b'/' [] (path ∷ []) refl
full_path_rooted (c ∷ w) path (inl e) = cc
full_path_rooted (c ∷ w) path (inr e) = join_path-rooted c w (codes "/" ∷ path ∷ []) e

-- A group has such a prefix, whatever it is made from.
pub group-HasPrefix :
    {E M : Type 0} (copy : E) (e : Echo E M) (prefix : Bytes) (ms : List M)
    → HasPrefix (group copy e prefix ms)
unfolding group
group-HasPrefix copy e prefix ms = inr (join_path-rooted b'/' [] (e.prefix ∷ prefix ∷ []) refl)

module _ {H E M : Type 0} (name_of : H → Bytes) (e : Echo E M) (path : Bytes) (h : H) where
  abbrev listed : List Method → List Route
  listed [] = []
  listed (m ∷ ms) = record { method = m; path = full_path e path; handler = name_of h } ∷ listed ms

  -- The calls end well; the router has the handler at the shape of the full path for the methods of
  -- the list, and otherwise what it had.
  abbrev pub AddsAll : List Method → App H E → Type 0
  AddsAll ms app =
      (app' : App H E) × (add_all name_of e ms path h app ≡ some app')
      × IsRooted app'.router
      × (app'.routes ≡ app.routes ++ listed ms)
      × ((m : Method) (k : Bytes)
          → registered app'.router m k ≡ (
              if equal k (shape (full_path e path)) && (is_known m && among m ms)
              then some h
              else registered app.router m k))

  pub add-eq-some :
      (m : Method) (app : App H E) (r : Router H E)
      → Insert.add
          (record { method = m; path = full_path e path; handler = some h; echo = e.echo })
          app.router
        ≡ some r
      → add name_of e m path h app
        ≡ some (record {
          router = r;
          routes =
              app.routes
              ++ record { method = m; path = full_path e path; handler = name_of h } ∷ [];
        })
  unfolding add
  add-eq-some m app r x = rw x

  -- `add` for each method of a list, as in `Any` and `Match`: no call panics, the routes are listed in
  -- order, and exactly the handlers at the shape of the joined path for these methods change.
  pub add_all-AddsAll :
      (ms : List Method) (app : App H E) → HasPrefix e → IsRooted app.router → AddsAll ms app
  unfolding add_all among
  add_all-AddsAll [] app p r = (app, refl, r, sym (append-nil app.routes), λ m k. ground arith)
  add_all-AddsAll (n ∷ ms) app p r =
      let (r1, x, s1, h1) =
        add-Stores (record { method = n; path = full_path e path; handler = some h; echo = e.echo })
          app.router r (full_path_rooted e.prefix path p) in
      let entry : Route = record { method = n; path = full_path e path; handler = name_of h } in
      let app1 : App H E = record { router = r1; routes = app.routes ++ entry ∷ [] } in
      let (app2, y, s2, l2, h2) = add_all-AddsAll ms app1 p s1 in
      (
        app2,
        ap (λ z. z >>= add_all name_of e ms path h) (add-eq-some n app r1 x) ∙ y,
        s2,
        l2 ∙ append_assoc app.routes (entry ∷ []) (listed ms),
        λ m k. ground (arith, h1 m k, h2 m k),
      )
