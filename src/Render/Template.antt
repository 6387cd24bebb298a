-- ===== src/Render/Template.antt =====
-- core/render.go: `Template`. The sets of templates of core/template are a parameter `T` with the operations
-- that are called, and so is the type `D` of the data that a template is given.
use thinkgo.Base.{
  Bool, not, true, false, if◌then◌else◌, Bytes, List, [], ◌∷◌, Option, none, some, lookup, insert,
}

-- What is written, or the set behind it, with a flag for an error; `none` is an error too.
pub record Engine (T D : Type 0) : Type 0 where
  pub execute : T → Bytes → D → Bytes × Bool
  pub clone : T → Option T
  pub parse : Bytes → Bytes → T → Option T
  pub parse_files : List Bytes → T → T × Bool
  pub set_delims : Bytes → Bytes → T → T

pub record Template (T : Type 0) : Type 0 where
  pub debug : Bool
  pub suffix : Bytes
  pub basepath : Bytes
  pub delims : Bytes × Bytes
  pub templates : T
  pub pathmap : List (Bytes × Bytes)
  pub permanent : List (Bytes × Bool)

-- `NewRender`, on the set that `template.New` makes
abbrev pub new_render : {T : Type 0} → T → Template T
new_render t = record {
  debug = false;
  suffix = [];
  basepath = [];
  delims = ([], []);
  templates = t;
  pathmap = [];
  permanent = [];
}

-- `Delims`, `SetSuffix`, `SetBasepath` and `SetDebug`
module _ {T : Type 0} where
  abbrev pub with_delims : Bytes → Bytes → Template T → Template T
  with_delims left right t = record t { delims = (left, right) }

  abbrev pub set_suffix : Bytes → Template T → Template T
  set_suffix s t = record t { suffix = s }

  abbrev pub set_basepath : Bytes → Template T → Template T
  set_basepath s t = record t { basepath = s }

  abbrev pub set_debug : Bool → Template T → Template T
  set_debug b t = record t { debug = b }

-- How `Render` ends: no such template, a panic of `template.Must`, or what executing a template gives.
pub data Rendered : Type 0 where
  missing panicked : Rendered
  ran : Bytes × Bool → Rendered

-- A read of a map whose missing values are empty, or false
abbrev pub path_of : Option Bytes → Bytes
path_of none = []
path_of (some f) = f

abbrev pub is_marked : Option Bool → Bool
is_marked none = false
is_marked (some b) = b

module _ {T D : Type 0} (engine : Engine T D) where
  abbrev pub executed : Option T → Bytes → D → Rendered
  executed none f d = panicked
  executed (some t) f d = ran (engine.execute t f d)

  abbrev pub must : T × Bool → Option T
  must (t, failed) = if failed then none else some t

  abbrev pub parsed : Bytes → Option T → Option T
  parsed f none = none
  parsed f (some t) = must (engine.parse_files (f ∷ []) t)

  abbrev pub render_file : Template T → Bytes → Bytes → D → Rendered
  render_file t name [] d = missing
  render_file t name (c ∷ f) d =
      if not t.debug
      then ran (engine.execute t.templates (c ∷ f) d)
      else if is_marked (lookup name t.permanent)
      then executed (engine.clone t.templates) (c ∷ f) d
      else executed (parsed (c ∷ f) (engine.clone t.templates)) (c ∷ f) d

  -- `Render`
  unfoldable pub render : Template T → Bytes → D → Rendered
  unfolding lookup
  render t name d = render_file t name (path_of (lookup name t.pathmap)) d

  abbrev pub marked : Bytes → Template T → Option T → Option (Template T)
  marked name t none = none
  marked name t (some s) = some (record t {
    templates = s;
    pathmap = insert name name t.pathmap;
    permanent = insert name true t.permanent;
  })

  -- `PermanentParse`: `none` is the panic of `template.Must`.
  unfoldable pub permanent_parse : Bytes → Bytes → Template T → Option (Template T)
  unfolding insert
  permanent_parse name src t = marked name t (engine.parse name src t.templates)
