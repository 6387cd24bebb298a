-- ===== src/Think/Create.antt =====
-- core/thinkgo.go: the creation of `ThinkGo`, and `Run`. The matches of the regular expressions, the
-- library of templates, the files and directories that the walks find, the two middleware functions, the
-- hook and the decimal text of a number are parameters; the calls of `dirServe` are listed, not made.
use thinkgo.Base.{
  ◌≡◌, refl, true, false, Bytes, List, [], ◌∷◌, ◌++◌, Option, none, some, codes, join_path, equal,
  lookup,
}
use thinkgo.Echo.Instance.{
  Instance, new, blackfile, set_debug, set_renderer, set_hook, Start, run, is_black,
}
use thinkgo.Echo.Files.{File, forbidden, index_page, serve_file}
use thinkgo.Render.Template.{Engine, Template, Rendered, missing, ran, render}
use thinkgo.Render.Prepare.{html_prepare, AllNamed, index_files, render-html_prepare}
use thinkgo.Think.Config.{Config, Level}
use thinkgo.Think.Static.{dir_serve}

-- `Log` with the prefix and the level that are set
pub record LogState : Type 0 where
  pub prefix : Bytes
  pub level : Level

-- The instance with its middleware, the log, and the directories that are served, with their addresses
pub record ThinkGo (B T K X M : Type 0) : Type 0 where
  pub instance_of : Instance B (Template T) K X
  pub middleware : List M
  pub log : LogState
  pub directories : List (Bytes × Bytes)

module _ (find find_common find_public : Bytes → List Bytes) {T D : Type 0} (engine : Engine T D)
    (fresh : T) {I B K X M : Type 0} (c : Config I) (x : X) (b : B) (k : K) (recover logger : M)
    (files dirs : List Bytes) where
  -- The variable `ThinkGo`
  unfoldable pub create : ThinkGo B T K X M
  unfolding blackfile html_prepare dir_serve
  create =
      let t =
        html_prepare find find_common engine fresh c.tpl_left c.tpl_right (codes "application")
          c.tpl_suffix c.debug_mode files in
      record {
        instance_of =
            set_hook k
              (set_renderer t (set_debug c.debug_mode (blackfile (codes ".html" ∷ []) (new x b))));
        middleware = recover ∷ logger ∷ [];
        log = record { prefix = codes "TG"; level = c.log_level };
        directories = dir_serve find_public dirs;
      }

  -- What the renderer of the instance makes of a name
  abbrev pub render_page : Option (Template T) → Bytes → D → Rendered
  render_page none name d = missing
  render_page (some t) name d = render engine t name d

  abbrev paths : List Bytes
  paths = (index_files find find_common files (record { pathmap = []; paths = [] })).paths

  -- With debug mode off in the configuration, the renderer of the instance executes the file of each name of
  -- the index in the set in which all these files were parsed, before the delimiters were set.
  pub create-render :
      (name f : Bytes) (d : D)
      → c.debug_mode ≡ false
      → AllNamed files
      → lookup name
          (index_files find find_common files (record { pathmap = []; paths = [] })).pathmap
        ≡ some f
      → render_page create.instance_of.renderer name d
        ≡ ran (
            engine.execute
              (engine.set_delims c.tpl_left c.tpl_right (engine.parse_files paths fresh).0)
              f
              d)
  unfolding create
  create-render name f d off named e = rw off (
      (render-html_prepare find find_common engine fresh c.tpl_left c.tpl_right
        (codes "application") c.tpl_suffix files name f d named e).0)

  -- Whatever the configuration, `ServeFile` of the instance refuses HTML files, and a directory without an
  -- index page is not listed.
  pub create-closed :
      (fs : Bytes → Option File) (dir : Bytes) (d : File)
      → fs dir ≡ some d
      → d.is_dir ≡ true
      → fs (join_path (dir ∷ index_page ∷ [])) ≡ none
      → (is_black (codes ".html") create.instance_of.blackfile ≡ true)
        × (serve_file fs create.instance_of.auto_index dir ≡ forbidden)
  unfolding create serve_file is_black equal blackfile
  create-closed fs dir d o h n = (refl, rw (o, h, n) refl)

-- The address that `Run` gives its server; `print` is the decimal text of a number.
abbrev pub address : {I : Type 0} → (I → Bytes) → Config I → Bytes
address print c = c.http_addr ++ b':' ∷ print c.http_port

-- `Run`
abbrev pub run_think :
    {I B T K X M : Type 0} → (I → Bytes) → Config I → ThinkGo B T K X M → Bytes × Start
run_think print c t = (address print c, (run t.instance_of []).1)
