-- ===== src/Think/Examples.antt =====
-- The hook of core/thinkgo.go on concrete requests.
use thinkgo.Base.{
  ◌≡◌, refl, Bytes, [], some, codes, equal, split_at, trim_left, trim_right, has_prefix, repeat,
  count, join_path,
}
use thinkgo.Base.{if◌then◌else◌, slashes, List, ◌∷◌, false}
use thinkgo.Modules.Actions.{public_path}
use thinkgo.Think.Static.{
  Serves, dir_serve, dir_serve-Serves, Visit, walk_rel, walk_rel_files, with_suffixes,
}
use thinkgo.Think.Hook.{Url, Settings, with_module, with_index, decimal, hook}
use thinkgo.Think.Rewrites.{Moved, hook-Moved}

abbrev settings : Settings
settings = record {
  static_path = [];
  default_module = codes "home";
  is_module = λ m. equal m (codes "admin");
}

abbrev at_path : Bytes → Url
at_path p = record { path = p; raw_query = [] }

hooked : Unit {0}
unfolding hook with_module with_index decimal equal split_at trim_left trim_right has_prefix repeat
    count join_path
hooked = tt

hook_root : hook settings (at_path (codes "/")) ≡ some (at_path (codes "/home/index/index"))
unfolding hooked
hook_root = refl

hook_moves :
    hook settings (at_path (codes "/admin/user/list/7/x"))
    ≡ some (record { path = codes "/admin/user/list"; raw_query = codes "&1=x&0=7" })
unfolding hooked
hook_moves = refl

hook_leaves :
    hook settings (at_path (codes "/uploads/a.png")) ≡ some (at_path (codes "/uploads/a.png"))
unfolding hooked
hook_leaves = refl

hook-Moved_example :
    (u : Url) × (hook settings (at_path (codes "/user")) ≡ some u)
    × Moved (split_at b'/' (with_index (codes "home/user"))) u
unfolding hooked
hook-Moved_example = hook-Moved settings (codes "/user") (codes "home/user") refl refl

abbrev theme_public : Bytes
theme_public = codes "application/home/view/default/__public__"

abbrev find_theme : Bytes → List Bytes
find_theme p = if equal p theme_public then p ∷ codes "/home" ∷ codes "/default" ∷ [] else []

dir_serve-Serves_example :
    Serves
      (public_path (codes "/home") (codes "default"))
      theme_public
      (dir_serve find_theme (codes "application" ∷ theme_public ∷ []))
dir_serve-Serves_example =
    dir_serve-Serves find_theme theme_public (codes "home") (codes "default")
      (codes "application" ∷ []) [] (unfold count in refl) (unfold equal in refl)

abbrev one_page : List Visit
one_page = record { path = codes "a.tpl.html"; is_dir = false; failed = false } ∷ []

-- A file that has two of the suffixes is taken twice.
taken_twice :
    walk_rel_files (λ p. p) (codes ".html" ∷ codes ".tpl.html" ∷ []) one_page
    ≡ codes "a.tpl.html" ∷ codes "a.tpl.html" ∷ []
unfolding walk_rel slashes with_suffixes
taken_twice = refl
