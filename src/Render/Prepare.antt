-- ===== src/Render/Prepare.antt =====
-- core/thinkgo.go: `htmlPrepare`, which makes the index of templates. The files that are found, and what
-- the two regular expressions match in a name, `FindStringSubmatch`, are parameters.
use thinkgo.Base.{
  ℕ, ◌≡◌, ◌≢◌, refl, sym, subst, equal_refl, ◌∙◌, ltb, ◌==◌, ◌||◌, Bool, true, false, if◌then◌else◌,
  Bytes, List, [], ◌∷◌, ◌++◌, Option, none, some, codes, length, get_elem?, lookup, insert,
  lookup-insert, equal, arith, Bool-cases, inl, inr,
}
use thinkgo.Render.Template.{
  Engine, Template, ran, render, render_file, new_render, with_delims, set_basepath, set_suffix,
  set_debug, path_of,
}

-- `a[i]`, where the callers test the length
abbrev pub group : List Bytes → ℕ → Bytes
group a i = path_of (get_elem? a i)

-- The name of a file in the index, by the groups of the two expressions
unfoldable pub index_name : List Bytes → List Bytes → Option Bytes
index_name a b =
    if ltb (length a) 5
    then (if length b == 2 then some (codes "/common" ++ group b 1) else none)
    else some (group a 1 ++ (group a 2 ++ (group a 3 ++ group a 4)))

-- The variables of the loop
pub record Found : Type 0 where
  pub pathmap : List (Bytes × Bytes)
  pub paths : List Bytes

abbrev pub with_file : Bytes → Option Bytes → Found → Found
with_file f none s = s
with_file f (some name) s = record { pathmap = insert name f s.pathmap; paths = s.paths ++ f ∷ [] }

module _ (find find_common : Bytes → List Bytes) where
  unfoldable pub index_files : List Bytes → Found → Found
  unfolding index_name insert
  index_files [] s = s
  index_files (f ∷ fs) s = index_files fs (with_file f (index_name (find f) (find_common f)) s)

  -- `htmlPrepare`, on the set of `NewRender`, the settings and the files
  unfoldable pub html_prepare :
      {T D : Type 0}
      → Engine T D
      → T
      → Bytes
      → Bytes
      → Bytes
      → Bytes
      → Bool
      → List Bytes
      → Template T
  unfolding index_files
  html_prepare engine fresh left right app suffix debug files =
      let t =
        set_debug debug
          (set_suffix suffix (set_basepath app (with_delims left right (new_render fresh)))) in
      let s = index_files files (record { pathmap = t.pathmap; paths = [] }) in
      let parsed = if debug then t.templates else (engine.parse_files s.paths t.templates).0 in
      record t { pathmap = s.pathmap; templates = engine.set_delims left right parsed }

abbrev pub listed : Bytes → List Bytes → Bool
listed f [] = false
listed f (g ∷ gs) = equal f g || listed f gs

listed-append : (f : Bytes) (gs hs : List Bytes) → listed f gs ≡ true → listed f (gs ++ hs) ≡ true
listed-append f [] hs h = cc
listed-append f (g ∷ gs) hs h = ground (arith, listed-append f gs hs)

listed_last : (f : Bytes) (gs : List Bytes) → listed f (gs ++ f ∷ []) ≡ true
listed_last f [] = rw (equal_refl f) refl
listed_last f (g ∷ gs) = ground (arith, listed_last f gs)

abbrev pub AllNamed : List Bytes → Type 0
AllNamed [] = Unit
AllNamed (f ∷ fs) = (f ≢ []) × AllNamed fs

-- Each file of the index is among those that are parsed, and has a name.
abbrev IsIndexed : Found → Type 0
IsIndexed s =
    (name f : Bytes) → lookup name s.pathmap ≡ some f → (listed f s.paths ≡ true) × (f ≢ [])

with_file-IsIndexed :
    (f : Bytes) (o : Option Bytes) (s : Found) → f ≢ [] → IsIndexed s → IsIndexed (with_file f o s)
with_file-IsIndexed f none s n h = h
with_file-IsIndexed f (some key) s n h = λ name g e.
    let i = sym (lookup-insert key name f s.pathmap) ∙ e in
    elim (Bool-cases (equal key name)) [
      | inl same ↦
          let q : f ≡ g = ground (arith, same, i) in
          (
            subst (λ t. listed t (s.paths ++ f ∷ []) ≡ true) q (listed_last f s.paths),
            subst (λ t. t ≢ []) q n,
          )
      | inr apart ↦
          let r = h name g (ground (arith, apart, i)) in (listed-append g s.paths (f ∷ []) r.0, r.1)
    ]

module _ (find find_common : Bytes → List Bytes) where
  index_files-IsIndexed :
      (fs : List Bytes) (s : Found)
      → AllNamed fs
      → IsIndexed s
      → IsIndexed (index_files find find_common fs s)
  unfolding index_files
  index_files-IsIndexed [] s n h = h
  index_files-IsIndexed (f ∷ fs) s n h =
      let o = index_name (find f) (find_common f) in
      index_files-IsIndexed fs (with_file f o s) n.1 (with_file-IsIndexed f o s n.0 h)

module _ (find find_common : Bytes → List Bytes) {T D : Type 0} (engine : Engine T D) where
  abbrev pub found : List Bytes → Found
  found files = index_files find find_common files (record { pathmap = []; paths = [] })

  render_file-ran :
      (t : Template T) (name f : Bytes) (d : D)
      → t.debug ≡ false
      → f ≢ []
      → render_file engine t name f d ≡ ran (engine.execute t.templates f d)
  render_file-ran t name [] d p n = absurd (n refl)
  render_file-ran t name (c ∷ f) d p n = rw p refl

  pub render-html_prepare :
      (fresh : T) (left right app suffix : Bytes) (files : List Bytes) (name f : Bytes) (d : D)
      → AllNamed files
      → lookup name (found files).pathmap ≡ some f
      → (render engine
            (html_prepare find find_common engine fresh left right app suffix false files)
            name
            d
          ≡ ran (
              engine.execute
                (engine.set_delims left right (engine.parse_files (found files).paths fresh).0)
                f
                d))
        × (listed f (found files).paths ≡ true)
  unfolding render html_prepare
  render-html_prepare fresh left right app suffix files name f d named e =
      let (l, n) =
        index_files-IsIndexed find find_common files (record { pathmap = []; paths = [] }) named
          (λ _ _ h. absurd (unfold lookup in cc)) name f e in
      let t = html_prepare find find_common engine fresh left right app suffix false files in
      (rw e (render_file-ran t name f d refl n), l)
