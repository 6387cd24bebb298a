-- ===== src/Modules/Themes.antt =====
-- core/theme.go: `Themes`. `List` is in Listing.
use thinkgo.Base.{
  ◌≡◌, refl, ap, ◌∙◌, Bool-cases, inl, inr, if◌then◌else◌, Bytes, List, [], ◌∷◌, Option, none, some,
  equal, equal_iff, equal_refl, lookup, insert, lookup-insert,
}

pub record Theme : Type 0 where
  pub name : Bytes
  pub description : Bytes
  pub src : List (Bytes × Bytes)

-- `themes` is the field `Map`, `none` while it is nil.
pub record Themes : Type 0 where
  pub cur_name : Bytes
  pub themes : Option (List (Bytes × Theme))

-- `NewThemes`, and the `&Themes{}` of `NewModule`
abbrev pub new_themes : Themes
new_themes = record { cur_name = []; themes = some [] }

abbrev pub no_themes : Themes
no_themes = record { cur_name = []; themes = none }

-- `Cur`: `none` is the nil theme.
unfoldable pub cur : Themes → Option Theme
unfolding lookup
cur s = elim s.themes [ none ↦ none | some m ↦ lookup s.cur_name m ]

-- `Use`
unfoldable pub use_theme : Bytes → Themes → Themes
use_theme name s = record s { cur_name = name }

-- The loops of `Add` and `Set`
unfoldable pub insert_all : List Theme → List (Bytes × Theme) → List (Bytes × Theme)
unfolding insert
insert_all [] m = m
insert_all (t ∷ ts) m = insert_all ts (insert t.name t m)

-- `Add`: `none` is the panic of a write to a nil map.
unfoldable pub add : List Theme → Themes → Option Themes
unfolding insert_all
add [] s = some s
add (t ∷ ts) s = elim s.themes [
  | none ↦ none
  | some m ↦ some (record s { themes = some (insert_all (t ∷ ts) m) })
]

-- `Set`
unfoldable pub set : List Theme → Themes → Themes
unfolding insert_all
set [] s = s
set (t ∷ ts) s = record { cur_name = t.name; themes = some (insert_all (t ∷ ts) []) }

-- The last theme of a list with a name, or the one that is given.
unfoldable pub last_named : Bytes → Option Theme → List Theme → Option Theme
unfolding equal
last_named k o [] = o
last_named k o (t ∷ ts) = last_named k (if equal t.name k then some t else o) ts

pub lookup-insert_all :
    (k : Bytes) (ts : List Theme) (m : List (Bytes × Theme))
    → lookup k (insert_all ts m) ≡ last_named k (lookup k m) ts
unfolding insert_all last_named
lookup-insert_all k [] m = refl
lookup-insert_all k (t ∷ ts) m =
    lookup-insert_all k ts (insert t.name t m)
    ∙ ap (λ o. last_named k o ts) (lookup-insert t.name k t m)

pub last_named-some :
    (k : Bytes) (o : Theme) (ts : List Theme)
    → o.name ≡ k
    → (t : Theme) × (last_named k (some o) ts ≡ some t) × (t.name ≡ k)
unfolding last_named
last_named-some k o [] h = (o, refl, h)
last_named-some k o (t ∷ ts) h = elim (Bool-cases (equal t.name k)) [
  | inl e ↦ rw e (last_named-some k t ts ((equal_iff t.name k).0 e))
  | inr e ↦ rw e (last_named-some k o ts h)
]

-- After `Set` of at least one theme there is a current theme: the last of the list that has the name of
-- the first.
pub cur-set :
    (t : Theme) (ts : List Theme) (s : Themes)
    → (u : Theme) × (cur (set (t ∷ ts) s) ≡ some u)
      × (u.name ≡ t.name)
      × (last_named t.name none (t ∷ ts) ≡ some u)
unfolding cur set last_named lookup insert insert_all
cur-set t ts s =
    let e = equal_refl t.name in
    let (u, p, n) = last_named-some t.name t ts refl in
    let q : lookup t.name ((t.name, t) ∷ []) ≡ some t = rw e refl in
    (
      u,
      lookup-insert_all t.name ts ((t.name, t) ∷ []) ∙ ap (λ o. last_named t.name o ts) q ∙ p,
      n,
      rw e p,
    )

-- Adding themes to a map that is not nil succeeds. `Use` of a name then makes the last of them with
-- that name the current one, or else the theme that had the name before.
pub cur-use_theme-add :
    (ts : List Theme) (s : Themes) (m : List (Bytes × Theme))
    → s.themes ≡ some m
    → (after : Themes) × (add ts s ≡ some after)
      × ((name : Bytes) → cur (use_theme name after) ≡ last_named name (cur (use_theme name s)) ts)
unfolding cur use_theme add last_named
cur-use_theme-add [] s m e = (s, refl, λ name. refl)
cur-use_theme-add (t ∷ ts) s m e = (
  record s { themes = some (insert_all (t ∷ ts) m) },
  rw e refl,
  λ name. rw e (lookup-insert_all name (t ∷ ts) m),
)
