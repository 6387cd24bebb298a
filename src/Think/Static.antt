-- ===== src/Think/Static.antt =====
-- core/thinkgo.go: `dirServe`, and the walks of core/utils.go. What `filepath.Walk` visits, `filepath.Rel` and
-- what the regular expression matches, `FindStringSubmatch`, are parameters.
use thinkgo.Base.{
  ℕ, ◌≡◌, refl, ◌==◌, Bool, true, false, not, if◌then◌else◌, Bytes, List, [], ◌∷◌, ◌++◌, none, some,
  codes, length, get_elem?, has_suffix, slashes, join_path, split_at-append, count, ap, ◌⊎◌, inl,
  inr, Bool-cases,
}
use thinkgo.Modules.Actions.{public_path}

-- A call of the function that `filepath.Walk` is given
pub record Visit : Type 0 where
  pub path : Bytes
  pub is_dir : Bool
  pub failed : Bool

-- `RelPath`
abbrev pub rel_path : (Bytes → Bytes) → Bytes → Bytes
rel_path rel path = slashes (rel path)

-- The loop over the suffixes: a path is taken once for each that it has.
unfoldable pub with_suffixes : List Bytes → Bytes → List Bytes
unfolding has_suffix
with_suffixes [] p = []
with_suffixes (x ∷ xs) p = if has_suffix p x then p ∷ with_suffixes xs p else with_suffixes xs p

abbrev pub taken : List Bytes → Bytes → List Bytes
taken [] p = p ∷ []
taken (x ∷ xs) p = with_suffixes (x ∷ xs) p

-- `WalkRelFiles` and `WalkRelDirs`, which differ in what they skip: an error ends the walk, and what was
-- found stays.
abbrev pub is_kind : Bool → Bool → Bool
is_kind true d = d
is_kind false d = not d

unfoldable pub walk_rel : (Bytes → Bytes) → Bool → List Bytes → List Visit → List Bytes
unfolding slashes with_suffixes
walk_rel rel dirs suffixes [] = []
walk_rel rel dirs suffixes (v ∷ vs) =
    let later = walk_rel rel dirs suffixes vs in
    let here = taken suffixes (rel_path rel v.path) ++ later in
    if v.failed then [] else if is_kind dirs v.is_dir then here else later

abbrev pub walk_rel_files : (Bytes → Bytes) → List Bytes → List Visit → List Bytes
walk_rel_files rel = walk_rel rel false

abbrev pub walk_rel_dirs : (Bytes → Bytes) → List Bytes → List Visit → List Bytes
walk_rel_dirs rel = walk_rel rel true

abbrev pub group : List Bytes → ℕ → Bytes
group a i = elim (get_elem? a i) [ none ↦ [] | some g ↦ g ]

-- The address of a theme's public directory, by the groups for module and theme, each with its slash
unfoldable pub served_path : Bytes → Bytes → Bytes
unfolding join_path
served_path module_group theme_group = join_path (codes "/public" ∷ module_group ∷ theme_group ∷ [])

-- The loop of `dirServe`: addresses with the directories that are served there.
unfoldable pub theme_dirs : (Bytes → List Bytes) → List Bytes → List (Bytes × Bytes)
unfolding served_path
theme_dirs find [] = []
theme_dirs find (p ∷ ps) =
    let a = find p in
    if length a == 3
    then (served_path (group a 1) (group a 2), p) ∷ theme_dirs find ps
    else theme_dirs find ps

-- `dirServe`: the calls of `ServeDir`, behind that of `ServeFile` for the icon.
unfoldable pub dir_serve : (Bytes → List Bytes) → List Bytes → List (Bytes × Bytes)
unfolding theme_dirs
dir_serve find dirs =
    (codes "/uploads", codes "uploads")
    ∷ (codes "/common", codes "application/common/view/__public__")
    ∷ theme_dirs find dirs

served_path-public_path :
    (id theme : Bytes)
    → count b'/' id ≡ 0
    → served_path (b'/' ∷ id) (b'/' ∷ theme) ≡ public_path (b'/' ∷ id) theme
unfolding served_path public_path join_path
served_path-public_path id theme h =
    rw (split_at-append b'/' id (b'/' ∷ theme) h) (rw (split_at-append b'/' id theme h) refl)

-- The directory is served at the address.
abbrev pub Serves : Bytes → Bytes → List (Bytes × Bytes) → Type 0
Serves address dir [] = false ≡ true
Serves address dir (x ∷ xs) = (x ≡ (address, dir)) ⊎ Serves address dir xs

module _ (find : Bytes → List Bytes) (dir id theme : Bytes) where
  theme_dirs-later :
      (address : Bytes) (p : Bytes) (ps : List Bytes)
      → Serves address dir (theme_dirs find ps)
      → Serves address dir (theme_dirs find (p ∷ ps))
  unfolding theme_dirs
  theme_dirs-later address p ps h = elim (Bool-cases (length (find p) == 3)) [
    | inl found ↦ rw found (inr h)
    | inr other ↦ rw other h
  ]

  theme_dirs-Serves :
      (before after : List Bytes)
      → count b'/' id ≡ 0
      → find dir ≡ dir ∷ (b'/' ∷ id) ∷ (b'/' ∷ theme) ∷ []
      → Serves (public_path (b'/' ∷ id) theme) dir (theme_dirs find (before ++ dir ∷ after))
  unfolding theme_dirs
  theme_dirs-Serves [] after h f =
      rw f (inl (ap (λ a. (a, dir)) (served_path-public_path id theme h)))
  theme_dirs-Serves (p ∷ before) after h f =
      theme_dirs-later (public_path (b'/' ∷ id) theme) p (before ++ dir ∷ after)
        (theme_dirs-Serves before after h f)

  -- Where a directory that is found is the public directory of a theme of a module, whose name has no
  -- slash, that is where the expression gives for it the slash and name of the module and then those of
  -- the theme, `dirServe` serves it at the address that the templates of that theme are given as
  -- `__PUBLIC__`.
  pub dir_serve-Serves :
      (before after : List Bytes)
      → count b'/' id ≡ 0
      → find dir ≡ dir ∷ (b'/' ∷ id) ∷ (b'/' ∷ theme) ∷ []
      → Serves (public_path (b'/' ∷ id) theme) dir (dir_serve find (before ++ dir ∷ after))
  unfolding dir_serve
  dir_serve-Serves before after h f = inr (inr (theme_dirs-Serves before after h f))
