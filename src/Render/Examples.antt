-- ===== src/Render/Examples.antt =====
-- Templates at concrete inputs: a set is its left delimiter and a table from names to texts, and a file holds
-- its name, which is read with the delimiter in front.
use thinkgo.Base.{
  ◌≡◌, refl, ap, sym, Bool, true, false, if◌then◌else◌, Bytes, List, [], ◌∷◌, ◌++◌, Option, none,
  some, codes, equal, lookup, insert, count, arith,
}
use thinkgo.Render.Template.{Engine, Template, new_render, ran, render, permanent_parse, set_debug}
use thinkgo.Render.Pages.{IsName, params, index_name-themed_path}
use thinkgo.Modules.Actions.{themed_path}
use thinkgo.Render.Pooled.{page, next_request, controller_render-next_request}
use thinkgo.Render.Controller.{controller_render, replied, page_content}
use thinkgo.Render.Template.{Rendered}
use thinkgo.Response.Defs.{HttpWriter, Response, write_header, write}
use thinkgo.Context.Store.{Store}
use thinkgo.Context.Reply as Reply
use thinkgo.Context.Reply.{ok}
use thinkgo.Render.Permanent.{Copies, render-permanent_parse}
use thinkgo.Render.Prepare.{index_name, html_prepare}

abbrev Table : Type 0
Table = Bytes × List (Bytes × Bytes)

abbrev text_or_error : Option Bytes → Bytes × Bool
text_or_error none = ([], true)
text_or_error (some s) = (s, false)

abbrev Nothing : Type 0
Nothing = Unit {0}

load_all : List Bytes → Table → Table
load_all [] t = t
load_all (f ∷ fs) (l, m) = load_all fs (l, insert f (l ++ f) m)

abbrev tables : Engine Table Nothing
tables = record {
  execute = λ t f d. text_or_error (lookup f t.1);
  clone = λ t. some t;
  parse = λ name src t. some (t.0, insert name src t.1);
  parse_files = λ fs t. (load_all fs t, false);
  set_delims = λ left right t. (left, t.1);
}

tables-Copies : Copies tables
tables-Copies s t f d e =
    let q : s ≡ t = cc in ap (λ (u : Table). text_or_error (lookup f u.1)) (sym q)

abbrev empty_tables : Table
empty_tables = (codes "{{", [])

abbrev home_groups : List Bytes
home_groups =
    codes "application/home/view/default/index/index.html"
    ∷ codes "/home"
    ∷ codes "/default"
    ∷ codes "/index"
    ∷ codes "/index"
    ∷ []

abbrev find_module : Bytes → List Bytes
find_module f =
    if equal f (codes "application/home/view/default/index/index.html") then home_groups else []

abbrev find_common : Bytes → List Bytes
find_common f = []

abbrev home_file : List Bytes
home_file = codes "application/home/view/default/index/index.html" ∷ []

abbrev home_name : Bytes
home_name = codes "/home/default/index/index"

abbrev prepared : Bool → Template Table
prepared debug =
    html_prepare find_module find_common tables empty_tables (codes "{{{") (codes "}}}")
      (codes "application") (codes ".html") debug home_file

-- With debug mode off a file is read with the delimiters of a new set, with debug mode on with those that
-- are configured.
delimiters_off :
    render tables (prepared false) home_name tt
    ≡ ran (codes "{{application/home/view/default/index/index.html", false)
unfolding render html_prepare load_all equal lookup
delimiters_off = refl

delimiters_on :
    render tables (prepared true) home_name tt
    ≡ ran (codes "{{{application/home/view/default/index/index.html", false)
unfolding render html_prepare load_all equal lookup
delimiters_on = refl

abbrev blank : Template Table
blank = new_render empty_tables

render-permanent_parse_example :
    (t' : Template Table) × (permanent_parse tables (codes "page") (codes "hello") blank ≡ some t')
    × (render tables (set_debug true t') (codes "page") tt ≡ ran (codes "hello", false))
    × (render tables (set_debug true t') (codes "other") tt
        ≡ render tables
            (set_debug true
              (record blank { templates = (codes "{{", (codes "page", codes "hello") ∷ []) }))
            (codes "other")
            tt)
unfolding insert lookup equal
render-permanent_parse_example =
    render-permanent_parse tables tables-Copies (codes "page") (codes "hello") (codes "other") blank
      (codes "{{", (codes "page", codes "hello") ∷ [])
      (codes "{{", (codes "page", codes "hello") ∷ []) true tt (λ e. cc) (λ e. cc) refl refl

home_IsName : IsName (codes "home")
unfolding count
home_IsName = record {
  non_empty = λ e. cc;
  no_slash = refl;
  no_colon = refl;
  no_dot = λ e. ground (arith, e);
  no_dots = λ e. ground (arith, e);
}

index_IsName : IsName (codes "index")
unfolding count
index_IsName = record {
  non_empty = λ e. cc;
  no_slash = refl;
  no_colon = refl;
  no_dot = λ e. ground (arith, e);
  no_dots = λ e. ground (arith, e);
}

index_name-themed_path_example :
    index_name
      (codes "file" ∷ codes "/home" ∷ codes "/home" ∷ codes "/index" ∷ codes "/index" ∷ [])
      []
    ≡ some (
        themed_path
          (codes "/home")
          (codes "home")
          (codes "/home/index/index" ++ params true (codes "id")))
index_name-themed_path_example =
    index_name-themed_path (codes "home") (codes "home") (codes "index") (codes "index") home_IsName
      home_IsName index_IsName index_IsName (codes "file") [] true (codes "id")

-- A writer that keeps the body, and a renderer that writes the name of the template
abbrev body_only : HttpWriter Bytes
body_only = record {
  write_header = λ code w. w;
  write = λ b w. (w ++ b, 0, false);
  set_header = λ k v w. w;
  add_header = λ k v w. w;
  del_header = λ k w. w;
}

abbrev by_name : Bytes → Store Bytes → Rendered
by_name name store = ran (name, false)

abbrev answer_of : Bytes → Bool → Response Bytes
answer_of body sent = record { writer = body; status = 200; size = 0; committed = sent }

first_page :
    controller_render []
      (λ b. b)
      by_name
      body_only
      []
      (page [] (codes "/a") [] none)
      (answer_of [] false)
    ≡ some (page (codes "/a") (codes "/a") [] none, answer_of (codes "/a") true, ok)
unfolding controller_render write_header write Reply.send
first_page = refl

controller_render-next_request_example :
    controller_render []
      (λ b. b)
      by_name
      body_only
      []
      (next_request (codes "/b") none (page (codes "/a") (codes "/a") [] none))
      (answer_of [] false)
    ≡ replied []
        (λ b. b)
        by_name
        body_only
        200
        (answer_of [] false)
        (page (codes "/a") (codes "/b") [] none)
        (page_content (by_name (codes "/a") none))
controller_render-next_request_example =
    controller_render-next_request [] (λ b. b) by_name body_only [] [] (answer_of [] false)
      (answer_of (codes "/a") true) (answer_of [] false) (codes "/a") (codes "/b") none none
      (page (codes "/a") (codes "/a") [] none) ok (λ e. cc) first_page
