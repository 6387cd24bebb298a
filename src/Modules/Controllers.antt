-- ===== src/Modules/Controllers.antt =====
-- core/module.go: `Module.Router`, which registers the methods of a controller. The names that package reflect
-- gives, the handler that calls a method of a new controller, and the one that serves a web socket are
-- parameters.
pub mod Registered
use mathlib.Core.List.{reverse}
use thinkgo.Base.{Bytes, List, [], ◌∷◌, Option, none, some}
use thinkgo.Router.Method.{get}
use thinkgo.Router.Insert.{◌>>=◌}
use thinkgo.Echo.Register.{App, Group, group_route, group_any, group_match, sub_group}
use thinkgo.Modules.Actions.{Verb, verb, any_verb, socket, action_of, controller_name}

module _ {H E M : Type 0} (name_of : H → Bytes) (calls : Bytes → H) (over_socket : H → H) where
  -- The switch on the verb; `WebSocket` registers for GET.
  abbrev pub register_verb : Group E M → Bytes → H → Verb → App H E → Option (App H E)
  register_verb g pattern h (verb m) = group_match name_of g pattern h (m ∷ [])
  register_verb g pattern h any_verb = group_any name_of g pattern h
  register_verb g pattern h socket = group_route name_of get g pattern (over_socket h)

  abbrev pub register_action :
      Group E M → Bytes → Option (Bytes × Verb) → App H E → Option (App H E)
  register_action g fname none app = some app
  register_action g fname (some (pattern, v)) app = register_verb g pattern (calls fname) v app

  -- The loop over the methods, on the names in its order
  unfoldable pub register_all : Group E M → List Bytes → App H E → Option (App H E)
  unfolding action_of
  register_all g [] app = some app
  register_all g (fname ∷ names) app =
      register_action g fname (action_of fname) app >>= register_all g names

  -- `Router`, on the names of the controller and of its methods; the last method comes first.
  unfoldable pub router : E → Group E M → Bytes → List M → List Bytes → App H E → Option (App H E)
  unfolding register_all controller_name
  router copy g name ms names app =
      register_all (sub_group copy g (controller_name name) ms) (reverse names) app
