-- ===== src/Modules/Examples.antt =====
-- Names and themes at concrete inputs.
use thinkgo.Base.{Option, ◌≡◌, refl, Bytes, [], ◌∷◌, none, some, codes, to_lower}
use thinkgo.Modules.Names.{
  snake_string, camel_string, snake_from, camel_from, is_raised, raise, is_skipped, put,
}
use thinkgo.Modules.Themes.{Theme, Themes}
use thinkgo.Base.{
  ℕ, true, false, trim_suffix, trim_right, split_at, split_pair, trim_prefix, join_path, clean,
  clean_segments, join, to_upper, equal, map, List, lookup, if◌then◌else◌, Bool-cases, inl, inr,
}
use mathlib.Core.Option as LibOption
use mathlib.Core.List.{Perm}
use thinkgo.Modules.Listing.{
  Sorts, list, list-Perm, IsKeyed, values, AtMost, at_most, at_most_total, IsAscending,
}
use mathlib.Core.List.Perm
use thinkgo.Router.Method.{get}
use thinkgo.Router.Insert.{new_router}
use thinkgo.Echo.Register.{App, Group, group}
use thinkgo.Modules.Controllers.{router}
use thinkgo.Modules.Module.{
  Module, Begun, begin, begin-use_theme, has_theme, new_module, set_themes,
}
use thinkgo.Modules.Module as Module
use thinkgo.Context.Store as Store
use thinkgo.Modules.Actions.{verb, cut_last, verb_of, action_of, themed_path, public_path}

snake_xx_yy : snake_string (codes "XxYy") ≡ codes "xx_yy"
unfolding snake_string snake_from to_lower
snake_xx_yy = refl

camel_xx_yy : camel_string (codes "xx_yy") ≡ codes "XxYy"
unfolding camel_string camel_from is_raised raise is_skipped put
camel_xx_yy = refl

abbrev plain : Theme
plain = record { name = codes "default"; description = codes "plain"; src = [] }

abbrev dark : Theme
dark = record { name = codes "dark"; description = codes "dark"; src = [] }

action_user_list : action_of (codes "UserList_GET") ≡ some (codes "user_list", verb get)
unfolding action_of cut_last verb_of to_upper equal snake_string snake_from to_lower
action_user_list = refl

-- A sort by insertion
place : Bytes → List Bytes → List Bytes
place s [] = s ∷ []
place s (t ∷ ks) = if at_most s t then s ∷ t ∷ ks else t ∷ place s ks

insertion_sort : List Bytes → List Bytes
insertion_sort [] = []
insertion_sort (s ∷ ks) = place s (insertion_sort ks)

place-Perm : (s : Bytes) (ks : List Bytes) → Perm (place s ks) (s ∷ ks)
unfolding place
place-Perm s [] = Perm.refl (s ∷ [])
place-Perm s (t ∷ ks) = elim (Bool-cases (at_most s t)) [
  | inl e ↦ rw e (Perm.refl (s ∷ t ∷ ks))
  | inr e ↦ rw e (Perm.trans (Perm.cons t (place-Perm s ks)) (Perm.swap s t ks))
]

insertion_sort-Perm : (ks : List Bytes) → Perm (insertion_sort ks) ks
unfolding insertion_sort
insertion_sort-Perm [] = Perm.refl []
insertion_sort-Perm (s ∷ ks) =
    Perm.trans (place-Perm s (insertion_sort ks)) (Perm.cons s (insertion_sort-Perm ks))

-- Behind a text that is at most the one placed
place-IsAscending :
    (t s : Bytes) (ks : List Bytes)
    → AtMost t s
    → IsAscending (t ∷ ks)
    → IsAscending (t ∷ place s ks)
unfolding place
place-IsAscending t s [] h a = (h, tt)
place-IsAscending t s (u ∷ ks) h a = elim (Bool-cases (at_most s u)) [
  | inl e ↦ rw e (h, (e, a.1))
  | inr e ↦ rw e (a.0, place-IsAscending u s ks (at_most_total s u e) a.1)
]

insertion-IsAscending : (s : Bytes) (ks : List Bytes) → IsAscending ks → IsAscending (place s ks)
unfolding place
insertion-IsAscending s [] a = tt
insertion-IsAscending s (t ∷ ks) a = elim (Bool-cases (at_most s t)) [
  | inl e ↦ rw e (e, a)
  | inr e ↦ rw e (place-IsAscending t s ks (at_most_total s t e) a)
]

insertion_sort-IsAscending : (ks : List Bytes) → IsAscending (insertion_sort ks)
unfolding insertion_sort
insertion_sort-IsAscending [] = tt
insertion_sort-IsAscending (s ∷ ks) =
    insertion-IsAscending s (insertion_sort ks) (insertion_sort-IsAscending ks)

insertion_sort-Sorts : Sorts insertion_sort
insertion_sort-Sorts = record { same = insertion_sort-Perm; ascending = insertion_sort-IsAscending }

abbrev two_themes : List (Bytes × Theme)
two_themes = (codes "default", plain) ∷ (codes "dark", dark) ∷ []

abbrev with_two : Themes
with_two = record { cur_name = codes "default"; themes = some two_themes }

two_themes-IsKeyed : IsKeyed two_themes
unfolding lookup equal
two_themes-IsKeyed = (refl, refl, (refl, refl, tt))

list-Perm_example :
    Perm (list insertion_sort with_two) (map some (values two_themes))
    × ((names : List Bytes) × (map
            (LibOption.map (λ (t : Theme). t.name))
            (list insertion_sort with_two)
          ≡ map some names)
        × IsAscending names)
list-Perm_example =
    list-Perm insertion_sort insertion_sort-Sorts with_two two_themes refl two_themes-IsKeyed

list_in_order : list insertion_sort with_two ≡ some dark ∷ some plain ∷ []
unfolding list insertion_sort place at_most equal
list_in_order = refl

-- The group of the module "home"; a handler is the name of the method that it calls.
abbrev home_group : Group ℕ ℕ
home_group = record { echo = record { echo = 1; prefix = codes "/home"; middleware = [] } }

abbrev no_routes : App Bytes ℕ
no_routes = record { router = new_router; routes = [] }

abbrev index_methods : List Bytes
index_methods = codes "AutoInit" ∷ codes "Index_GET" ∷ codes "Talk_SOCKET" ∷ []

-- The module of a file "home.go"
abbrev home : Module ℕ ℕ
home =
    (new_module 2 (record { echo = 1; prefix = []; middleware = [] }) (λ p. 7)
      (codes "/site/home.go") (codes "the start") (8 ∷ []) []).0

home_named : home.name ≡ codes "Home"
unfolding new_module Module.base trim_right split_at Module.title_from trim_suffix
home_named = refl

home_middleware : home.group.echo.middleware ≡ 7 ∷ 8 ∷ []
unfolding new_module group
home_middleware = refl

abbrev request : Begun Bytes
request = record { sections = none; path = codes "/home/index/index/:id"; store = none }

begin-use_theme_example :
    (has_theme (codes "dark") (plain ∷ dark ∷ []) ≡ false
      → begin
          (λ t. t)
          (codes "/home")
          (Module.use_theme (codes "dark") (set_themes (plain ∷ dark ∷ []) home)).themes
          request
        ≡ none)
    × (has_theme (codes "dark") (plain ∷ dark ∷ []) ≡ true
        → (after : Begun Bytes) × (begin
              (λ t. t)
              (codes "/home")
              (Module.use_theme (codes "dark") (set_themes (plain ∷ dark ∷ []) home)).themes
              request
            ≡ some after)
          × (after.path ≡ themed_path (codes "/home") (codes "dark") request.path)
          × (Store.get (codes "__PUBLIC__") after.store
              ≡ some (public_path (codes "/home") (codes "dark"))))
begin-use_theme_example =
    begin-use_theme (λ t. t) (codes "/home") (codes "dark") plain (dark ∷ []) home request

request_themed :
    themed_path (codes "/home") (codes "dark") request.path ≡ codes "/home/dark/index/index"
unfolding themed_path split_pair trim_prefix join_path clean split_at clean_segments join equal
request_themed = refl
