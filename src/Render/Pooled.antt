-- ===== src/Render/Pooled.antt =====
-- Contexts that are used again: `ServeHTTP` of core/echo.go takes one from the pool, `Find` sets its path, and
-- `reset` of core/context.go sets other fields, but neither `Layout` nor `Sections`.
use thinkgo.Base.{ℕ, ◌≡◌, ◌≢◌, refl, ap, sym, Bytes, List, [], ◌∷◌, Option, none, some}
use thinkgo.Response.Defs.{HttpWriter, Response}
use thinkgo.Context.Store.{Store}
use thinkgo.Context.Reply.{Outcome}
use thinkgo.Render.Template.{Rendered}
use thinkgo.Render.Controller.{
  Page, status_of, page_content, fill_sections, replied, controller_render,
}

-- What a page finds in a context that is used again: the path of its route, and a store that is new, with
-- what middleware sets
abbrev pub next_request : {V : Type 0} → Bytes → Store V → Page V → Page V
next_request path store p = record p { path = path; store = store }

abbrev pub page : {V : Type 0} → Bytes → Bytes → List (Bytes × Bytes) → Store V → Page V
page layout path sections store = record {
  layout = layout;
  path = path;
  sections = sections;
  store = store;
}

module _ {V W : Type 0} (empty_text : V) (html : Bytes → V) (render : Bytes → Store V → Rendered)
    (http : HttpWriter W) where
  replied_page :
      (code : ℕ) (r r' : Response W) (p p' : Page V) (m : Option (Option Bytes)) (o : Outcome)
      → replied empty_text html render http code r p m ≡ some (p', r', o)
      → p ≡ p'
  replied_page code r r' p p' none o e = cc
  replied_page code r r' p p' (some m) o e = cc

  same_template :
      (status : List ℕ) (s : Response W) (path next : Bytes) (p : Page V) (store later : Store V)
      → path ≢ []
      → page path path [] store ≡ p
      → controller_render empty_text html render http status (next_request next later p) s
        ≡ replied empty_text html render http
            (status_of status)
            s
            (page path next [] later)
            (page_content (render path later))
  unfolding controller_render fill_sections
  same_template status s [] next p store later n e = absurd (n refl)
  same_template status s (c ∷ path) next p store later n e =
      ap (λ q. controller_render empty_text html render http status (next_request next later q) s)
        (sym e)

  -- A context that is used again keeps its layout: where a page with neither a layout nor sections was
  -- rendered in a new context, the next page in it that sets no layout is rendered by the template of
  -- the first one's path, whatever its own path is.
  pub controller_render-next_request :
      (status status' : List ℕ) (r r' s : Response W) (path next : Bytes) (store later : Store V)
      (p : Page V) (o : Outcome)
      → path ≢ []
      → controller_render empty_text html render http status (page [] path [] store) r
        ≡ some (p, r', o)
      → controller_render empty_text html render http status' (next_request next later p) s
        ≡ replied empty_text html render http
            (status_of status')
            s
            (page path next [] later)
            (page_content (render path later))
  unfolding controller_render
  controller_render-next_request status status' r r' s path next store later p o n e =
      same_template status' s path next p store later n (
        replied_page (status_of status) r r' (page path path [] store) p
          (page_content (render path store)) o e)
