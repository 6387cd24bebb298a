-- ===== src/Router/Examples.antt =====
-- core/router.go on concrete routes, and the theorems of the router at inputs that meet their
-- hypotheses.
use thinkgo.Base.{
  ℕ, ◌≡◌, ◌≢◌, refl, if◌then◌else◌, equal, Bytes, List, [], ◌∷◌, none, some, codes, strip, lcp,
}
use thinkgo.Router.Method.{Method, same, get, post, find_handler, any_handler, add_handler}
use thinkgo.Router.Tree.{
  Node, info, children, skind, pkind, find_child, find_child_with_label, find_child_by_kind,
}
use thinkgo.Router.Insert.{
  Router, Registration, Write, new_router, insert, insert_node, overwrite, write_root, split, add,
}
use thinkgo.Router.Find.{
  Params, Run, done, panic, out_of_fuel, Found, registered, find, found_at, segment, after_segment,
}
use thinkgo.Router.Content.{handler_at, written}
use thinkgo.Router.Rooted.{
  IsRooted, registered as registered_at, new_router-IsRooted, insert-registered,
}
use thinkgo.Router.Routes.{shape, shape_from, Stores, add-Stores}
use thinkgo.Router.Terminates.{find-ends}
use thinkgo.Router.StaticFirst.{static_at}
use thinkgo.Router.Leads.{Leads, here, by_static, by_param, find-Leads}
use thinkgo.Router.Kept.{Keeps, add-Keeps, new_router-IsKept}
use thinkgo.Router.Table.{add_routes, latest, latest_route}
use thinkgo.Router.Serves.{served, find-latest}
use thinkgo.Router.Invariant.{InTree}
use thinkgo.Router.Answers.{find-registered}
use thinkgo.Base.{arith}

-- Handlers and Echo instances are numbers here.
abbrev route : Method → Bytes → ℕ → Registration ℕ ℕ
route m path h = record { method = m; path = path; handler = some h; echo = 1 }

abbrev routes : List (Registration ℕ ℕ) → Router ℕ ℕ → Router ℕ ℕ
routes [] r = r
routes (a ∷ rest) r = elim (add a r) [ none ↦ r | some r' ↦ routes rest r' ]

abbrev rows : List (Registration ℕ ℕ)
rows =
    route get (codes "/users/new") 10
    ∷ route get (codes "/users/:id") 11
    ∷ route post (codes "/users/:id") 12
    ∷ route get (codes "/files/*") 13
    ∷ []

abbrev table : Router ℕ ℕ
table = routes rows new_router

abbrev no_params : Params
no_params = record { path = []; pnames = []; pvalues = [] ∷ [] }

abbrev lookup : Method → Bytes → Run (Found ℕ ℕ)
lookup m path = find table.tree 0 m path no_params

routing : Unit {0}
unfolding strip lcp add insert insert_node overwrite write_root split add_handler find find_handler
    any_handler find_child find_child_with_label find_child_by_kind segment after_segment same
    handler_at shape shape_from static_at latest latest_route
routing = tt

lookup_new :
    lookup get (codes "/users/new")
    ≡ done (record {
      handler = registered 10;
      echo = 1;
      context = record { path = codes "/users/new"; pnames = []; pvalues = [] ∷ [] };
    })
unfolding routing
lookup_new = refl

-- The second registration of the shape "/users/:" gives its node the path without the name.
lookup_param :
    lookup get (codes "/users/42")
    ≡ done (record {
      handler = registered 11;
      echo = 1;
      context = record {
        path = codes "/users/:";
        pnames = codes "id" ∷ [];
        pvalues = codes "42" ∷ [];
      };
    })
unfolding routing
lookup_param = refl

lookup_any :
    lookup get (codes "/files/a/b")
    ≡ done (record {
      handler = registered 13;
      echo = 1;
      context = record {
        path = codes "/files/*";
        pnames = codes "_*" ∷ [];
        pvalues = codes "a/b" ∷ [];
      };
    })
unfolding routing
lookup_any = refl

-- Two routes with one parameter each. The request enters "/u:id", does not end there, and goes back
-- to the root for "/:name": the counter of values still stands at 1, past the end of the slice.
abbrev clashing : Router ℕ ℕ
clashing =
    routes
      (route get (codes "/u:id/x") 20
        ∷ route get (codes "/v") 21
        ∷ route get (codes "/:name") 22
        ∷ [])
      new_router

clashing_max_param : clashing.max_param ≡ 1
unfolding routing
clashing_max_param = refl

clashing_panics : find clashing.tree 0 get (codes "/ufoo/y") no_params ≡ panic
unfolding routing
clashing_panics = refl

add-Stores_example :
    Stores
      (route get (codes "/users/:id") 11)
      (shape (codes "/users/:id"))
      new_router
      (add (route get (codes "/users/:id") 11) new_router)
add-Stores_example =
    add-Stores (route get (codes "/users/:id") 11) new_router new_router-IsRooted refl

find-ends_example : find table.tree 0 get (codes "/users/42") no_params ≢ out_of_fuel
find-ends_example = find-ends table.tree 0 get (codes "/users/42") no_params

abbrev found_param : Found ℕ ℕ
found_param = record {
  handler = registered 11;
  echo = 1;
  context = record { path = codes "/users/:"; pnames = codes "id" ∷ []; pvalues = codes "42" ∷ [] };
}

find-registered_example :
    (n : Node ℕ ℕ) × InTree table.tree n × (find_handler get (info n).handlers ≡ some 11)
unfolding routing
find-registered_example =
    find-registered table.tree 0 get (codes "/users/42") no_params found_param 11 lookup_param refl

abbrev write_x : Write ℕ ℕ
write_x = record {
  method = get;
  path = codes "/x";
  handler = some 5;
  kind = skind;
  ppath = codes "/x";
  pnames = [];
  echo = 1;
}

insert-registered_example :
    (r : Router ℕ ℕ) × (insert write_x new_router ≡ some r)
    × IsRooted r
    × ((m : Method) (k : Bytes)
        → registered_at {E = ℕ} r m k ≡ (
            if equal k (codes "/x")
            then written write_x m (registered_at {E = ℕ} new_router m k)
            else registered_at {E = ℕ} new_router m k))
insert-registered_example = insert-registered write_x new_router new_router-IsRooted refl

-- A context that was made before the routes were there has no room for the value.
abbrev old_context : Params
old_context = record { path = []; pnames = []; pvalues = [] }

old_context_panics : find table.tree 0 get (codes "/users/42") old_context ≡ panic
unfolding routing
old_context_panics = refl

-- The second route of the shape is on another Echo instance, and renames the parameter of the first.
abbrev renamed : Router ℕ ℕ
renamed =
    routes
      (route get (codes "/users/:id") 11
        ∷ record { method = post; path = codes "/users/:uid"; handler = some 12; echo = 2 }
        ∷ [])
      new_router

first_route_renamed :
    find renamed.tree 0 get (codes "/users/42") no_params
    ≡ done (record {
      handler = registered 11;
      echo = 2;
      context = record {
        path = codes "/users/:";
        pnames = codes "uid" ∷ [];
        pvalues = codes "42" ∷ [];
      };
    })
unfolding routing
first_route_renamed = refl

add-Keeps_example : Keeps (add (route get (codes "/users/:id") 11) new_router)
add-Keeps_example = add-Keeps (route get (codes "/users/:id") 11) new_router new_router-IsKept refl

find-latest_example :
    (r : Router ℕ ℕ) × (add_routes rows new_router ≡ some r)
    × (find r.tree 0 get (codes "/users/new") no_params
        ≡ done (served (route get (codes "/users/new") 10) 10 (codes "/users/new") no_params))
unfolding routing equal
find-latest_example =
    find-latest rows (route get (codes "/users/new") 10) 0 get (codes "/users/new") no_params 10
      (refl, (refl, (refl, (refl, tt)))) refl (λ e. cc) refl refl

abbrev users_node : Node ℕ ℕ
users_node = elim (static_at (codes "/users/") table.tree) [ none ↦ table.tree | some n ↦ n ]

abbrev id_node : Node ℕ ℕ
id_node = elim (find_child_by_kind pkind (children users_node)) [ none ↦ table.tree | some n ↦ n ]

id_node-Leads : Leads (codes "users/42") table.tree (codes "42" ∷ []) id_node
unfolding routing
id_node-Leads =
    by_static {d = users_node} refl refl refl (by_param {d = id_node} refl refl refl here)

find-Leads_example :
    find table.tree 0 get (codes "/users/42") no_params
    ≡ done (found_at 0 id_node (registered 11) (codes "42" ∷ []))
unfolding routing
find-Leads_example =
    find-Leads table.tree 0 get (codes "/users/42") (codes "users/42") no_params id_node
      (codes "42" ∷ []) 11 (λ e. cc) refl refl id_node-Leads refl (omega arith) refl
