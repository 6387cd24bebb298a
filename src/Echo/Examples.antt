-- ===== src/Echo/Examples.antt =====
-- core/echo.go at concrete inputs.
use thinkgo.Base.{
  equal, if◌then◌else◌, ◌==◌, codes, ℕ, ◌≡◌, refl, false, List, [], ◌∷◌, none, some, map, inl, inr,
  repeat, join_path,
}
use thinkgo.Router.Method.{get, post, same, no_handlers, add_handler, find_handler}
use thinkgo.Router.Tree.{Node, node, nil, skind}
use thinkgo.Router.Insert.{new_router}
use thinkgo.Router.Find.{
  Handler, not_found, method_not_allowed, Params, done, registered, find, found_at,
}
use thinkgo.Router.Rooted.{new_router-IsRooted}
use thinkgo.Echo.Chain.{
  HandlerFunc, MiddlewareFunc, handler_func, add_middleware, wrap_handler_func, wrap_all, sequence,
  use-sequence,
}
use thinkgo.Echo.Register.{Route, Echo, App}
use thinkgo.Echo.Stored.{AddsAll, add_all-AddsAll}
use thinkgo.Echo.Uri.{uri, fill, route_of, Piece, literal, placeholder}
use thinkgo.Echo.Serve.{Err, http_error, serve_http, served_path, find-slashes}
use thinkgo.Echo.Routed.{Call, new_app, registration, add_calls, serve_http-sequence}
use thinkgo.Router.Table.{latest, latest_route}
use thinkgo.Router.Routes.{shape, shape_from}

-- A request's state is the list of the handlers that ran, the last one first; 2 refuses.
abbrev step : ℕ → HandlerFunc (List ℕ) ℕ
step n s = (n ∷ s, none)

abbrev refuse : HandlerFunc (List ℕ) ℕ
refuse s = (2 ∷ s, some 401)

abbrev chain : List (HandlerFunc (List ℕ) ℕ)
chain = step 1 ∷ refuse ∷ step 3 ∷ []

chain_stops : sequence chain (step 9) [] ≡ (2 ∷ 1 ∷ [], some 401)
unfolding sequence
chain_stops = refl

use-sequence_example :
    (fs : List (MiddlewareFunc (List ℕ) ℕ)) × (add_middleware
        (λ s. false)
        []
        (map handler_func chain)
      ≡ some fs)
    × ((h : HandlerFunc (List ℕ) ℕ) (s : List ℕ) → wrap_all fs h s ≡ sequence chain h s)
use-sequence_example = use-sequence (λ s. false) chain

abbrev site : Echo ℕ ℕ
site = record { echo = 1; prefix = []; middleware = [] }

abbrev no_routes : App ℕ ℕ
no_routes = record { router = new_router; routes = [] }

add_all-AddsAll_example :
    AddsAll {M = ℕ} (λ h. []) site (codes "/users/:id") 7 (get ∷ post ∷ []) no_routes
add_all-AddsAll_example =
    add_all-AddsAll (λ h. []) site (codes "/users/:id") 7 (get ∷ post ∷ []) no_routes (inl refl)
      new_router-IsRooted

-- A tree of one route, "/users".
abbrev users : Node ℕ ℕ
users =
    node
      (record {
        kind = skind;
        label = b'/';
        prefix = codes "/users";
        ppath = codes "/users";
        pnames = [];
        handlers = add_handler get (some 10) no_handlers;
        echo = some 1;
      })
      nil

abbrev no_params : Params
no_params = record { path = []; pnames = []; pvalues = [] }

find-slashes_example :
    find users 0 get (served_path (repeat (codes "/") 2)) no_params
    ≡ done (found_at 0 users (registered 10) [])
unfolding add_handler find_handler
find-slashes_example = find-slashes 0 users 0 get no_params 10 refl

abbrev user_routes : List Route
user_routes =
    record { method = get; path = codes "/users/:id/files/:name"; handler = codes "main.file" } ∷ []

uri_fills :
    uri (codes "main.file") (codes "7" ∷ codes "a.txt" ∷ []) user_routes
    ≡ codes "/users/7/files/a.txt"
unfolding uri fill route_of equal
uri_fills = refl

abbrev file_pieces : List Piece
file_pieces =
    literal (codes "users")
    ∷ placeholder (codes "id")
    ∷ literal (codes "files")
    ∷ placeholder (codes "name")
    ∷ []

-- The members' area stands on an instance of its own, with its own middleware.
abbrev members : Echo ℕ ℕ
members = record { echo = 2; prefix = codes "/members"; middleware = [] }

abbrev visits : List (Call ℕ ℕ ℕ)
visits =
    record { echo = site; method = get; path = codes "/news/:id"; handler = 5 }
    ∷ record { echo = members; method = get; path = codes "/home"; handler = 6 }
    ∷ []

abbrev passes : ℕ → HandlerFunc (List ℕ) Err
passes n s = (n ∷ s, none)

abbrev act_of : Handler ℕ → HandlerFunc (List ℕ) Err
act_of (registered h) s = passes h s
act_of not_found s = (s, some (http_error 404 []))
act_of method_not_allowed s = (s, some (http_error 405 []))

abbrev guards : ℕ → List (MiddlewareFunc (List ℕ) Err)
guards e = if e == 2 then wrap_handler_func (λ s. false) (passes 1) ∷ [] else []

serve_http-sequence_example :
    (app : App ℕ ℕ) × (add_calls (λ h. []) visits new_app ≡ some app)
    × (serve_http act_of guards
          (λ e x s. s)
          (λ e p. e ∷ [])
          app.router.tree
          0
          get
          (codes "/members/home/")
          no_params
        ≡ done (6 ∷ 1 ∷ 2 ∷ []))
unfolding served_path latest latest_route shape shape_from join_path same add_middleware
    wrap_handler_func sequence
serve_http-sequence_example =
    serve_http-sequence (λ h. []) act_of guards (λ e x s. s) (λ e p. e ∷ []) (λ s. false) visits
      (registration (record { echo = members; method = get; path = codes "/home"; handler = 6 })) 0
      get (codes "/members/home/") no_params 6 (passes 1 ∷ []) (inl refl, (inr refl, tt)) refl
      (λ e. cc) refl refl refl
