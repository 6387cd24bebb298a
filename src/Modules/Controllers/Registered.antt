-- ===== src/Modules/Controllers/Registered.antt =====
-- What `Module.Router` of core/module.go puts into the router.
use thinkgo.Base.{◌≡◌, ◌&&◌, if◌then◌else◌, Bytes, List, [], ◌∷◌, Option, none, some, equal}
use thinkgo.Router.Method.{Method, methods, get}
use thinkgo.Router.Content.{is_known}
use thinkgo.Router.Rooted.{IsRooted, registered}
use thinkgo.Router.Routes.{shape}
use thinkgo.Echo.Register.{App, Echo, Group}
use thinkgo.Echo.Stored.{among, full_path}
use thinkgo.Modules.Actions.{Verb, verb, any_verb, socket}
use thinkgo.Modules.Controllers.{router}

-- The methods for which a verb registers
abbrev pub asked_methods : Verb → List Method
asked_methods (verb m) = m ∷ []
asked_methods any_verb = methods
asked_methods socket = get ∷ []

abbrev pub asked_handler : {H : Type 0} → (H → H) → Verb → H → H
asked_handler over_socket (verb m) h = h
asked_handler over_socket any_verb h = h
asked_handler over_socket socket h = over_socket h

-- A registration that ends well and changes the handlers in a certain way.
abbrev pub Registers :
    {H E : Type 0} → Option (App H E) → App H E → (Method → Bytes → Option H → Option H) → Type 0
Registers {H} {E} result app change =
    (app' : App H E) × (result ≡ some app')
    × IsRooted app'.router
    × ((m : Method) (k : Bytes)
        → registered app'.router m k ≡ change m k (registered app.router m k))

module _ {H E M : Type 0} (name_of : H → Bytes) (calls : Bytes → H) (over_socket : H → H) where
  -- The handler for a method at the shape of a path behind the registration of an action, by the one
  -- before.
  abbrev pub with_action :
      Group E M → Bytes → Option (Bytes × Verb) → Method → Bytes → Option H → Option H
  with_action g fname none m k old = old
  with_action g fname (some (pattern, v)) m k old =
      if equal k (shape (full_path g.echo pattern)) && (is_known m && among m (asked_methods v))
      then some (asked_handler over_socket v (calls fname))
      else old

  -- The same for a list of names, by what pattern and verb each has
  pub with_actions :
      (Bytes → Option (Bytes × Verb))
      → Group E M
      → List Bytes
      → Method
      → Bytes
      → Option H
      → Option H
  with_actions action g [] m k old = old
  with_actions action g (fname ∷ names) m k old =
      with_actions action g names m k (with_action g fname (action fname) m k old)
