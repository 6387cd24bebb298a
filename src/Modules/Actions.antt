-- ===== src/Modules/Actions.antt =====
-- core/module.go: the routes that `Module.Router` makes of the methods of a controller, and the path that
-- the middleware of `NewModule` sets. Names and their order are what package reflect gives.
use thinkgo.Base.{
  ℕ, ◌≡◌, refl, ap, ◌==◌, if◌then◌else◌, Bytes, List, [], ◌∷◌, ◌++◌, Option, none, some, codes,
  equal, count, arith, to_upper, split_pair, trim_prefix, trim_suffix, join_path,
}
use thinkgo.Router.Method.{Method, connect, delete, get, head, options, patch, post, put, trace}
use thinkgo.Modules.Names.{snake_string}

-- What the text behind the last underscore of a method's name asks for
pub data Verb : Type 0 where
  verb : Method → Verb
  any_verb socket : Verb

-- `fname[:idx]` and `fname[idx+1:]` for the last underscore
abbrev pub cons_left : ℕ → Option (Bytes × Bytes) → Option (Bytes × Bytes)
cons_left c none = none
cons_left c (some (a, b)) = some (c ∷ a, b)

abbrev pub or_here : ℕ → Bytes → Option (Bytes × Bytes) → Option (Bytes × Bytes)
or_here c s (some p) = some (c ∷ p.0, p.1)
or_here c s none = if c == b'_' then some ([], s) else none

unfoldable pub cut_last : Bytes → Option (Bytes × Bytes)
cut_last [] = none
cut_last (c ∷ s) = or_here c s (cut_last s)

-- The switch on the text in upper case
unfoldable pub verb_of : Bytes → Option Verb
unfolding equal
verb_of v =
    if equal v (codes "CONNECT")
    then some (verb connect)
    else if equal v (codes "DELETE")
    then some (verb delete)
    else if equal v (codes "GET")
    then some (verb get)
    else if equal v (codes "HEAD")
    then some (verb head)
    else if equal v (codes "OPTIONS")
    then some (verb options)
    else if equal v (codes "PATCH")
    then some (verb patch)
    else if equal v (codes "POST")
    then some (verb post)
    else if equal v (codes "PUT")
    then some (verb put)
    else if equal v (codes "TRACE")
    then some (verb trace)
    else if equal v (codes "ANY")
    then some any_verb
    else if equal v (codes "SOCKET")
    then some socket
    else none

-- The pattern and the verb of a method's name, if the name makes a route
abbrev pub with_pattern : Bytes → Option Verb → Option (Bytes × Verb)
with_pattern p none = none
with_pattern p (some v) = some (snake_string p, v)

abbrev pub action_from : Option (Bytes × Bytes) → Option (Bytes × Verb)
action_from none = none
action_from (some (p, v)) = with_pattern p (verb_of (to_upper v))

unfoldable pub action_of : Bytes → Option (Bytes × Verb)
unfolding cut_last verb_of to_upper snake_string
action_of fname = action_from (cut_last fname)

-- The prefix of the group of a controller
unfoldable pub controller_name : Bytes → Bytes
unfolding trim_suffix snake_string
controller_name name = snake_string (trim_suffix name (codes "Controller"))

-- The path of the context: "/[module]/[controller]/[action]" with the theme behind the module
abbrev pub first_of : List Bytes → Bytes
first_of [] = []
first_of (w ∷ ws) = w

unfoldable pub themed_path : Bytes → Bytes → Bytes → Bytes
unfolding split_pair trim_prefix join_path
themed_path prefix theme path =
    join_path (prefix ∷ theme ∷ trim_prefix (first_of (split_pair b'/' b':' path)) prefix ∷ [])

-- `c.Set("__PUBLIC__", …)`
unfoldable pub public_path : Bytes → Bytes → Bytes
unfolding join_path
public_path prefix theme = join_path (codes "/public" ∷ prefix ∷ theme ∷ [])

cut_last-plain : (v : Bytes) → count b'_' v ≡ 0 → cut_last v ≡ none
unfolding cut_last count
cut_last-plain [] h = refl
cut_last-plain (c ∷ v) h = ground (arith, cut_last-plain v)

cut_last-append : (p v : Bytes) → count b'_' v ≡ 0 → cut_last (p ++ b'_' ∷ v) ≡ some (p, v)
unfolding cut_last
cut_last-append [] v h = ap (or_here b'_' v) (cut_last-plain v h)
cut_last-append (c ∷ p) v h = ap (or_here c (p ++ b'_' ∷ v)) (cut_last-append p v h)

-- A method's name makes a route exactly by what stands behind its last underscore, in any case; the
-- pattern is all that stands in front of it, in snake case.
pub action_of-append :
    (p v : Bytes)
    → count b'_' v ≡ 0
    → action_of (p ++ b'_' ∷ v) ≡ with_pattern p (verb_of (to_upper v))
unfolding action_of
action_of-append p v h = ap action_from (cut_last-append p v h)
