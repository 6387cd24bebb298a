-- ===== src/Modules/Module.antt =====
-- core/module.go: `Module` with its operations, and the middleware that `NewModule` puts in front. The
-- file that calls `NewModule`, the copy of the instance for the group, and the middleware are arguments.
use mathlib.Core.Bool.{false≢true}
use thinkgo.Base.{
  ℕ, ◌≡◌, refl, ap, ◌∙◌, ◌==◌, ◌||◌, Bool, true, false, if◌then◌else◌, Bytes, List, [], ◌∷◌, ◌++◌,
  Option, none, some, codes, equal, upper_byte, equal_iff, equal_refl, within, leb, lookup, insert,
  trim_right, trim_suffix, split_at, Bool-cases, inl, inr, arith,
}
use thinkgo.Context.Store.{Store, get-set}
use thinkgo.Context.Store as Store
use thinkgo.Echo.Register.{Echo, Group, new_group}
use thinkgo.Modules.Themes.{
  Theme, Themes, no_themes, cur, set, last_named, last_named-some, insert_all, lookup-insert_all,
}
use thinkgo.Modules.Themes as Themes
use thinkgo.Modules.Actions.{themed_path, public_path}

pub record Module (E M : Type 0) : Type 0 where
  pub id : Bytes
  pub name : Bytes
  pub description : Bytes
  pub themes : Themes
  pub group : Group E M

-- `filepath.Base`
abbrev pub last_of : List Bytes → Bytes
last_of [] = []
last_of (w ∷ []) = w
last_of (w ∷ v ∷ ws) = last_of (v ∷ ws)

abbrev pub or_slash : Bytes → Bytes
or_slash [] = codes "/"
or_slash (c ∷ s) = c ∷ s

unfoldable pub base : Bytes → Bytes
unfolding trim_right split_at
base [] = codes "."
base (c ∷ s) = or_slash (last_of (split_at b'/' (trim_right b'/' (c ∷ s))))

-- `strings.Title`: letters, digits and underscores make words.
abbrev pub in_word : ℕ → Bool
in_word c = within b'a' b'z' c || within b'A' b'Z' c || within b'0' b'9' c || c == b'_' || leb 128 c

unfoldable pub title_from : Bool → Bytes → Bytes
title_from inside [] = []
title_from inside (c ∷ s) = (if inside then c else upper_byte c) ∷ title_from (in_word c) s

abbrev pub title : Bytes → Bytes
title = title_from false

abbrev pub default_theme : Theme
default_theme = record { name = codes "default"; description = codes "default"; src = [] }

module _ {E M : Type 0} where
  -- `Use` of a group and of a module, for middleware that is wrapped
  abbrev pub use_middleware : List M → Group E M → Group E M
  use_middleware ms g = record g { echo = record g.echo { middleware = g.echo.middleware ++ ms } }

  abbrev pub use_all : List M → Module E M → Module E M
  use_all ms m = record m { group = use_middleware ms m.group }

  -- `NewModule`, with the map of modules; `start` is the middleware for a prefix.
  unfoldable pub new_module :
      E
      → Echo E M
      → (Bytes → M)
      → Bytes
      → Bytes
      → List M
      → List (Bytes × Module E M)
      → Module E M × List (Bytes × Module E M)
  unfolding base title_from trim_suffix set insert
  new_module copy root start file description ms modules =
      let id = trim_suffix (base file) (codes ".go") in
      let prefix = b'/' ∷ id in
      let m : Module E M = record {
        id = id;
        name = title id;
        description = description;
        themes = set (default_theme ∷ []) no_themes;
        group = use_middleware ms (new_group copy root prefix (start prefix ∷ []));
      } in
      (m, insert id m modules)

  -- `SetId`, `SetThemes` and `UseTheme`
  abbrev pub set_id : Bytes → Module E M → Module E M
  set_id id m = record m { id = id }

  unfoldable pub set_themes : List Theme → Module E M → Module E M
  unfolding set
  set_themes ts m = record m { themes = set ts m.themes }

  unfoldable pub use_theme : Bytes → Module E M → Module E M
  unfolding Themes.use_theme
  use_theme name m = record m { themes = Themes.use_theme name m.themes }

-- The fields of the context that the middleware changes
pub record Begun (V : Type 0) : Type 0 where
  pub sections : Option (List (Bytes × Bytes))
  pub path : Bytes
  pub store : Store V

abbrev pub or_no_sections : Option (List (Bytes × Bytes)) → Option (List (Bytes × Bytes))
or_no_sections none = some []
or_no_sections (some ss) = some ss

module _ {V : Type 0} (text : Bytes → V) where
  abbrev pub begun : Bytes → Option Theme → Begun V → Option (Begun V)
  begun prefix none c = none
  begun prefix (some t) c = some (record {
    sections = or_no_sections c.sections;
    path = themed_path prefix t.name c.path;
    store = Store.set (codes "__PUBLIC__") (text (public_path prefix t.name)) c.store;
  })

  -- The middleware: `none` is the panic of a nil theme.
  unfoldable pub begin : Bytes → Themes → Begun V → Option (Begun V)
  unfolding cur themed_path public_path Store.set
  begin prefix s c = begun prefix (cur s) c

abbrev pub has_theme : Bytes → List Theme → Bool
has_theme k [] = false
has_theme k (t ∷ ts) = equal t.name k || has_theme k ts

last_named-none :
    (k : Bytes) (ts : List Theme) → has_theme k ts ≡ false → last_named k none ts ≡ none
unfolding last_named
last_named-none k [] h = refl
last_named-none k (t ∷ ts) h = elim (Bool-cases (equal t.name k)) [
  | inl e ↦ absurd (false≢true (ground arith))
  | inr e ↦ rw e (last_named-none k ts (ground (arith, h)))
]

last_named-has :
    (k : Bytes) (ts : List Theme)
    → has_theme k ts ≡ true
    → (t : Theme) × (last_named k none ts ≡ some t) × (t.name ≡ k)
unfolding last_named
last_named-has k [] h = absurd (false≢true h)
last_named-has k (t ∷ ts) h = elim (Bool-cases (equal t.name k)) [
  | inl e ↦ rw e (last_named-some k t ts ((equal_iff t.name k).0 e))
  | inr e ↦ rw e (last_named-has k ts (ground (arith, h)))
]

cur-use_theme-set_themes :
    {E M : Type 0} (name : Bytes) (t : Theme) (ts : List Theme) (m : Module E M)
    → cur (use_theme name (set_themes (t ∷ ts) m)).themes ≡ last_named name none (t ∷ ts)
unfolding cur use_theme set_themes set Themes.use_theme lookup
cur-use_theme-set_themes name t ts m = lookup-insert_all name (t ∷ ts) []

-- After `SetThemes` of at least one theme and `UseTheme` of a name, a request of the module panics
-- where no theme has that name; where one has it, the path of the context gets the name behind the
-- module, and `__PUBLIC__` is the address of its public directory.
pub begin-use_theme :
    {E M V : Type 0} (text : Bytes → V) (prefix name : Bytes) (t : Theme) (ts : List Theme)
    (m : Module E M) (c : Begun V)
    → (has_theme name (t ∷ ts) ≡ false
        → begin text prefix (use_theme name (set_themes (t ∷ ts) m)).themes c ≡ none)
      × (has_theme name (t ∷ ts) ≡ true
          → (after : Begun V) × (begin text prefix (use_theme name (set_themes (t ∷ ts) m)).themes c
              ≡ some after)
            × (after.path ≡ themed_path prefix name c.path)
            × (Store.get (codes "__PUBLIC__") after.store ≡ some (text (public_path prefix name))))
unfolding begin
begin-use_theme text prefix name t ts m c =
    let now = cur-use_theme-set_themes name t ts m in
    (
      λ h. ap (λ o. begun text prefix o c) (now ∙ last_named-none name (t ∷ ts) h),
      λ h.
          let (u, e, n) = last_named-has name (t ∷ ts) h in
          let public = codes "__PUBLIC__" in
          (
            _,
            ap (λ o. begun text prefix o c) (now ∙ e),
            ap (λ k. themed_path prefix k c.path) n,
            get-set public public (text (public_path prefix u.name)) c.store
                ∙ rw (equal_refl public) (ap (λ k. some (text (public_path prefix k))) n),
          ),
    )
