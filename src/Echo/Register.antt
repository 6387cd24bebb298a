-- ===== src/Echo/Register.antt =====
-- core/echo.go and core/group.go: `add`, the methods that call it, `Any`, `Match` and `Group`. The
-- router behind the pointer that all instances share is part of the state `App`.
use thinkgo.Base.{Bytes, List, [], ◌∷◌, ◌++◌, Option, some, codes, join_path}
use thinkgo.Router.Method.{Method, methods, get}
use thinkgo.Router.Insert.{Router, ◌>>=◌}
use thinkgo.Router.Insert

pub record Route : Type 0 where
  pub method : Method
  pub path : Bytes
  pub handler : Bytes

pub record App (H E : Type 0) : Type 0 where
  pub router : Router H E
  pub routes : List Route

-- The fields of an `Echo` that registration reads; `echo` is the instance itself.
pub record Echo (E M : Type 0) : Type 0 where
  pub echo : E
  pub prefix : Bytes
  pub middleware : List M

module _ {H E M : Type 0} (name_of : H → Bytes) where
  -- `add`, on a handler that is wrapped; `name_of` is the name that `runtime.FuncForPC` gives.
  unfoldable pub add : Echo E M → Method → Bytes → H → App H E → Option (App H E)
  unfolding join_path
  add e m path h app = do
    let full = join_path (e.prefix ∷ codes "/" ∷ path ∷ [])
    r ← Insert.add (record { method = m; path = full; handler = some h; echo = e.echo }) app.router
    some (record {
      router = r;
      routes = app.routes ++ record { method = m; path = full; handler = name_of h } ∷ [];
    })

  -- `Connect`, `Delete`, `Get`, `Head`, `Options`, `Patch`, `Post`, `Put` and `Trace`, by their method
  abbrev pub route : Method → Echo E M → Bytes → H → App H E → Option (App H E)
  route m e path h = add e m path h

  -- The loops of `Any` and `Match`
  unfoldable pub add_all : Echo E M → List Method → Bytes → H → App H E → Option (App H E)
  unfolding add
  add_all e [] path h app = some app
  add_all e (m ∷ ms) path h app = add e m path h app >>= add_all e ms path h

  -- `Any`
  abbrev pub any : Echo E M → Bytes → H → App H E → Option (App H E)
  any e = add_all e methods

  -- `Match`: with no method, GET
  abbrev pub match : Echo E M → Bytes → H → List Method → App H E → Option (App H E)
  match e path h [] = add_all e (get ∷ []) path h
  match e path h (m ∷ ms) = add_all e (m ∷ ms) path h

-- `(*Echo).Group`, for middleware that is wrapped: the instance `copy` with a longer prefix, and a
-- copy of its middleware with the new ones behind it.
unfoldable pub group : {E M : Type 0} → E → Echo E M → Bytes → List M → Echo E M
unfolding join_path
group copy e prefix ms = record {
  echo = copy;
  prefix = join_path (codes "/" ∷ e.prefix ∷ prefix ∷ []);
  middleware = e.middleware ++ ms;
}

-- A group holds an instance.
pub record Group (E M : Type 0) : Type 0 where
  pub echo : Echo E M

module _ {H E M : Type 0} (name_of : H → Bytes) where
  -- The methods of a group register with its instance: `Connect` to `Trace`, `Any` and `Match`.
  abbrev pub group_route : Method → Group E M → Bytes → H → App H E → Option (App H E)
  group_route m g = route name_of m g.echo

  abbrev pub group_any : Group E M → Bytes → H → App H E → Option (App H E)
  group_any g = any name_of g.echo

  abbrev pub group_match : Group E M → Bytes → H → List Method → App H E → Option (App H E)
  group_match g = match name_of g.echo

-- `Group` of an instance and of a group
abbrev pub new_group : {E M : Type 0} → E → Echo E M → Bytes → List M → Group E M
new_group copy e prefix ms = record { echo = group copy e prefix ms }

abbrev pub sub_group : {E M : Type 0} → E → Group E M → Bytes → List M → Group E M
sub_group copy g = new_group copy g.echo
