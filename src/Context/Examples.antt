-- ===== src/Context/Examples.antt =====
-- core/context.go at concrete inputs.
use thinkgo.Base.{
  ℕ, ◌≡◌, refl, ap, first, ◌⊎◌, inl, inr, drop, false, equal, Bytes, List, [], ◌∷◌, none, some,
  codes, strip, lcp, length, arith,
}
use thinkgo.Router.Method.{get, same, add_handler, find_handler}
use thinkgo.Router.Tree.{Node, children, pkind, find_child, find_child_by_kind}
use thinkgo.Router.Insert.{
  Router, Registration, new_router, add, insert, insert_node, overwrite, write_root, split,
}
use thinkgo.Router.Find.{registered, done, find, found_at, segment, after_segment}
use thinkgo.Router.StaticFirst.{static_at}
use thinkgo.Router.Leads.{Leads, here, by_static, by_param}
use thinkgo.Router.Table.{add_routes, latest, latest_route}
use thinkgo.Router.Calls as Calls
use thinkgo.Router.Calls.{names_from}
use thinkgo.Context.Fits.{find-new_context}
use thinkgo.Context.Matched.{answer, find-Matches}
use thinkgo.Router.Known.{IsKnown}
use thinkgo.Router.Match.{Matches, stop, byte, parameter}
use thinkgo.Router.Routes.{shape, shape_from}
use thinkgo.Context.Life.{
  Context, make, new_params, new_context, queries, reset_context, queries-reset,
}
use thinkgo.Context.Store as Store
use thinkgo.Response.Defs.{new_response}
use thinkgo.Context.Params.{param}
use thinkgo.Context.Cookie.{int, str, set_cookie, get_cookie, get_cookie-set_cookie}

abbrev names : List Bytes
names = codes "id" ∷ codes "_*" ∷ []

abbrev values : List Bytes
values = codes "7" ∷ codes "a/b" ∷ [] ∷ []

param_second : param names values (codes "_*") ≡ some (codes "a/b")
unfolding param equal
param_second = refl

get_cookie-set_cookie_example :
    get_cookie
      (some (set_cookie (codes "sid") (codes "a b%") (int 60 ∷ str (codes "/x") ∷ [])).value)
    ≡ codes "a b%"
get_cookie-set_cookie_example =
    get_cookie-set_cookie (codes "sid") (codes "a b%") (int 60 ∷ str (codes "/x") ∷ [])
      (omega arith)

abbrev user_route : Registration ℕ ℕ
user_route = record { method = get; path = codes "/users/:id"; handler = some 11; echo = 1 }

abbrev user_routes : List (Registration ℕ ℕ)
user_routes =
    user_route ∷ record { method = get; path = codes "/:a/:b"; handler = some 12; echo = 1 } ∷ []

routing : Unit {0}
unfolding strip lcp add insert insert_node overwrite write_root split add_handler find find_handler
    find_child find_child_by_kind same static_at add_routes segment after_segment shape shape_from
    equal latest latest_route names_from
routing = tt

abbrev users : Router ℕ ℕ
unfolding routing
users = elim (add_routes user_routes new_router) [ none ↦ new_router | some r ↦ r ]

abbrev users_node : Node ℕ ℕ
unfolding routing
users_node = elim (static_at (codes "/users/") users.tree) [ none ↦ users.tree | some n ↦ n ]

abbrev id_node : Node ℕ ℕ
unfolding routing
id_node = elim (find_child_by_kind pkind (children users_node)) [ none ↦ users.tree | some n ↦ n ]

id_node-Leads : Leads (codes "users/42") users.tree (codes "42" ∷ []) id_node
unfolding routing
id_node-Leads =
    by_static {d = users_node} refl refl refl (by_param {d = id_node} refl refl refl here)

find-new_context_example :
    find users.tree 0 get (codes "/users/42") (new_params users.max_param)
    ≡ done (found_at 0 id_node (registered 11) (codes "42" ∷ [] ∷ []))
unfolding routing make
find-new_context_example =
    find-new_context user_routes users 0 get (codes "/users/42") (codes "users/42") id_node
      (codes "42" ∷ []) 11 (refl, (refl, tt)) refl (λ e. cc) refl id_node-Leads refl refl

no_route_there : ¬ (IsKnown user_routes (codes "/users/4"))
unfolding IsKnown routing
no_route_there (inl (t, e)) =
    let colon : b':' ≡ b'4' = ap (λ (z : Bytes). first (drop 7 z)) e in omega (arith, colon)
no_route_there (inr (inl (t, e))) =
    let colon : b':' ≡ b'u' = ap (λ (z : Bytes). first (drop 1 z)) e in omega (arith, colon)
no_route_there (inr (inr e)) = cc e

user-Matches :
    Matches
      (IsKnown user_routes)
      []
      (shape (codes "/users/:id"))
      (codes "/users/42")
      (codes "42" ∷ [])
unfolding routing
user-Matches = byte refl (
    byte refl
      (byte refl (byte refl (byte refl (byte refl (byte refl (parameter no_route_there stop)))))))

find-Matches_example :
    (r : Router ℕ ℕ) × (add_routes user_routes new_router ≡ some r)
    × ((at : Bytes) × ((at ≡ codes "/users/:") ⊎ (at ≡ codes "/users/:id"))
        × (find r.tree 0 get (codes "/users/42") (new_params r.max_param)
            ≡ done (
                answer
                  (record { path = at; names = codes "id" ∷ []; echo = 1 })
                  11
                  (codes "42" ∷ drop 1 (make r.max_param)))))
    × (length (codes "42" ∷ []) ≡ 1)
unfolding routing Calls.names
find-Matches_example =
    find-Matches user_routes user_route 0 get (codes "/users/42") (codes "42" ∷ []) 11
      (refl, (refl, tt)) (λ e. cc e) refl refl user-Matches

-- A request is a number, and its query the text of the name with that number in front.
abbrev used : Context ℕ ℕ ℕ ℕ ℕ
used = record (new_context (some 1) (new_response 0) 1 2) { query = some 1; store = some [] }

queries-reset_example :
    (queries
        (λ r. elim r [ none ↦ 0 | some n ↦ n ])
        (λ q name. q ∷ name)
        (codes "a" ∷ codes "b" ∷ [])
        (reset_context 2 0 1 used)
      ≡ (2 ∷ codes "a") ∷ (2 ∷ codes "b") ∷ [])
    × (Store.get (codes "k") (reset_context 2 0 1 used).store ≡ none)
    × ((reset_context 2 0 1 used).response
        ≡ record { writer = 0; status = 200; size = 0; committed = false })
queries-reset_example =
    queries-reset (λ r. elim r [ none ↦ 0 | some n ↦ n ]) (λ q name. q ∷ name)
      (codes "a" ∷ codes "b" ∷ []) (codes "k") 2 0 1 used
