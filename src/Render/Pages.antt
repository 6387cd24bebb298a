-- ===== src/Render/Pages.antt =====
-- Where the parts of a page meet: the path that the middleware of core/module.go sets, which is the layout of a
-- controller's page, and the names that `htmlPrepare` of core/thinkgo.go gives the templates.
use mathlib.Core.List.{reverse}
use thinkgo.Base.{
  ℕ, ◌≡◌, ◌≢◌, refl, sym, ap, ◌∙◌, ◌==◌, ◌&&◌, Bool, true, false, Bytes, List, [], ◌∷◌, ◌++◌, some,
  codes, equal, equal_iff, count, split_at, split_at-append, split_at-plain, split_pair, strip_self,
  trim_prefix, clean, clean_step, clean_segments, join, join_path, onto_first, arith,
}
use thinkgo.Modules.Actions.{first_of, themed_path}
use thinkgo.Render.Prepare.{index_name}

-- A name of a module, theme, controller or action
pub record IsName (w : Bytes) : Type 0 where
  pub non_empty : w ≢ []
  pub no_slash : count b'/' w ≡ 0
  pub no_colon : count b':' w ≡ 0
  pub no_dot : w ≢ codes "."
  pub no_dots : w ≢ codes ".."

first_of-onto_first : (c : ℕ) (ws : List Bytes) → first_of (onto_first c ws) ≡ c ∷ first_of ws
first_of-onto_first c [] = refl
first_of-onto_first c (w ∷ ws) = refl

-- The parameters of a route behind its action: none, or some from a colon on
abbrev pub params : Bool → Bytes → Bytes
params false q = []
params true q = b'/' ∷ b':' ∷ q

first_of-split_pair :
    (p : Bytes) (more : Bool) (q : Bytes)
    → count b':' p ≡ 0
    → first_of (split_pair b'/' b':' (p ++ params more q)) ≡ p
unfolding split_pair count
first_of-split_pair [] false q h = refl
first_of-split_pair [] true q h = refl
first_of-split_pair (c ∷ []) false q h = refl
first_of-split_pair (c ∷ []) true q h = ground arith
first_of-split_pair (c ∷ d ∷ p) more q h =
    let other : (c == b'/' && d == b':') ≡ false = ground (arith, h) in
    rw other (
      first_of-onto_first c (split_pair b'/' b':' (d ∷ p ++ params more q))
      ∙ ap (◌∷◌ c) (first_of-split_pair (d ∷ p) more q (ground (arith, h))))

count-append : (b : ℕ) (s t : Bytes) → count b s ≡ 0 → count b t ≡ 0 → count b (s ++ t) ≡ 0
unfolding count
count-append b [] t h k = k
count-append b (c ∷ s) t h k = ground (arith, count-append b s t)

trim_prefix-append : (p s : Bytes) → trim_prefix (p ++ s) p ≡ s
unfolding trim_prefix
trim_prefix-append p s = rw (strip_self p s, trim_prefix) refl

clean_pieces :
    (s : Bytes) (ws : List Bytes)
    → split_at b'/' s ≡ ws
    → clean (b'/' ∷ s) ≡ b'/' ∷ join b'/' (reverse (clean_segments true [] ws))
unfolding clean split_at clean_segments clean_step equal
clean_pieces s ws e = ap (λ vs. b'/' ∷ join b'/' (reverse (clean_segments true [] vs))) e

clean_step-IsName : (kept : List Bytes) (w : Bytes) → IsName w → clean_step true kept w ≡ w ∷ kept
unfolding clean_step
clean_step-IsName kept w n = ground (
  arith,
  n.non_empty,
  n.no_dot,
  n.no_dots,
  equal_iff w [],
  equal_iff w (codes "."),
  equal_iff w (codes ".."),
)

module _ (id theme ctl act : Bytes) (id_name : IsName id) (theme_name : IsName theme)
    (ctl_name : IsName ctl) (act_name : IsName act) where
  abbrev page_path : Bytes
  page_path = b'/' ∷ id ++ (b'/' ∷ theme ++ (b'/' ∷ ctl ++ (b'/' ∷ act)))

  split_joined :
      split_at b'/' (id ++ b'/' ∷ (theme ++ b'/' ∷ b'/' ∷ (ctl ++ b'/' ∷ act)))
      ≡ id ∷ theme ∷ [] ∷ ctl ∷ act ∷ []
  unfolding split_at
  split_joined =
      rw (split_at-append b'/' id (theme ++ b'/' ∷ b'/' ∷ (ctl ++ b'/' ∷ act)) id_name.no_slash) (
        rw (split_at-append b'/' theme (b'/' ∷ (ctl ++ b'/' ∷ act)) theme_name.no_slash) (
          rw (split_at-append b'/' ctl act ctl_name.no_slash)
            (rw (split_at-plain b'/' act act_name.no_slash) refl)))

  clean_joined :
      clean_segments true [] (id ∷ theme ∷ [] ∷ ctl ∷ act ∷ []) ≡ act ∷ ctl ∷ theme ∷ id ∷ []
  unfolding clean_segments clean_step equal
  clean_joined = rw (clean_step-IsName [] id id_name) (
      rw (clean_step-IsName (id ∷ []) theme theme_name) (
        rw (clean_step-IsName (theme ∷ id ∷ []) ctl ctl_name)
          (clean_step-IsName (ctl ∷ theme ∷ id ∷ []) act act_name)))

  join_joined : join_path ((b'/' ∷ id) ∷ theme ∷ (b'/' ∷ (ctl ++ b'/' ∷ act)) ∷ []) ≡ page_path
  unfolding join_path join
  join_joined =
      clean_pieces (id ++ b'/' ∷ (theme ++ b'/' ∷ b'/' ∷ (ctl ++ b'/' ∷ act)))
        (id ∷ theme ∷ [] ∷ ctl ∷ act ∷ []) split_joined
      ∙ ap (λ ws. b'/' ∷ join b'/' (reverse ws)) clean_joined

  count_route : count b':' (b'/' ∷ id ++ (b'/' ∷ ctl ++ (b'/' ∷ act))) ≡ 0
  unfolding count
  count_route =
      let tail : count b':' (b'/' ∷ act) ≡ 0 = ground (arith, act_name.no_colon) in
      let middle : count b':' (b'/' ∷ ctl ++ (b'/' ∷ act)) ≡ 0 =
        ground (arith, count-append b':' ctl (b'/' ∷ act) ctl_name.no_colon tail) in
      ground (arith, count-append b':' id (b'/' ∷ ctl ++ (b'/' ∷ act)) id_name.no_colon middle)

  themed_path_page :
      (more : Bool) (q : Bytes)
      → themed_path (b'/' ∷ id) theme ((b'/' ∷ id ++ (b'/' ∷ ctl ++ (b'/' ∷ act))) ++ params more q)
        ≡ page_path
  unfolding themed_path
  themed_path_page more q =
      let route = b'/' ∷ id ++ (b'/' ∷ ctl ++ (b'/' ∷ act)) in
      let joined = λ (t : Bytes). join_path ((b'/' ∷ id) ∷ theme ∷ t ∷ []) in
      ap (λ w. joined (trim_prefix w (b'/' ∷ id))) (first_of-split_pair route more q count_route)
      ∙ (ap joined (trim_prefix-append (b'/' ∷ id) (b'/' ∷ ctl ++ (b'/' ∷ act))) ∙ join_joined)

  -- The path that the middleware of a module makes of the route of an action, with or without
  -- parameters behind it, is the name that `htmlPrepare` gives to the file of the module, theme,
  -- controller and action, where these are proper names.
  pub index_name-themed_path :
      (file : Bytes) (b : List Bytes) (more : Bool) (q : Bytes)
      → index_name (file ∷ (b'/' ∷ id) ∷ (b'/' ∷ theme) ∷ (b'/' ∷ ctl) ∷ (b'/' ∷ act) ∷ []) b
        ≡ some (
            themed_path
              (b'/' ∷ id)
              theme
              ((b'/' ∷ id ++ (b'/' ∷ ctl ++ (b'/' ∷ act))) ++ params more q))
  unfolding index_name
  index_name-themed_path file b more q = ap some (sym (themed_path_page more q))
