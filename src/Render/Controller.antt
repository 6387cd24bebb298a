-- ===== src/Render/Controller.antt =====
-- core/controller.go: `BaseController.Render`. Values of the store are a type `V`, with the empty text and the
-- HTML of a section.
use thinkgo.Base.{
  ℕ, ◌≡◌, refl, ◌∙◌, if◌then◌else◌, Bool, true, false, Bytes, List, [], ◌∷◌, Option, Option-cases,
  none, some, equal, arith, inl, inr,
}
use thinkgo.Response.Defs.{HttpWriter, Response, status_ok}
use thinkgo.Context.Store.{Store, get, set, get-set}
use thinkgo.Context.Reply.{Outcome}
use thinkgo.Context.Reply as Reply
use thinkgo.Render.Template.{Rendered, missing, panicked, ran}

none-ne-some : {A : Type 0} {a : A} → ¬ (◌≡◌ {A = Option A} none (some a))
none-ne-some e = cc

-- The fields of the context that `Render` reads and writes
pub record Page (V : Type 0) : Type 0 where
  pub layout : Bytes
  pub path : Bytes
  pub sections : List (Bytes × Bytes)
  pub store : Store V

abbrev pub status_of : List ℕ → ℕ
status_of [] = status_ok
status_of (c ∷ cs) = c

-- What was written to the buffer of a section; the error is dropped.
abbrev pub section_content : Rendered → Option Bytes
section_content missing = some []
section_content panicked = none
section_content (ran (bytes, failed)) = some bytes

-- What `Context.Render` is given by the renderer: `none` is a panic.
abbrev pub page_content : Rendered → Option (Option Bytes)
page_content missing = some none
page_content panicked = none
page_content (ran (bytes, true)) = some none
page_content (ran (bytes, false)) = some (some bytes)

module _ {V : Type 0} (empty_text : V) (html : Bytes → V)
    (render : Bytes → Store V → Rendered) where
  -- The loop over the sections: `none` is a panic.
  unfoldable pub fill_sections : List (Bytes × Bytes) → Store V → Option (Store V)
  unfolding set
  fill_sections [] s = some s
  fill_sections ((k, []) ∷ rest) s = fill_sections rest (set k empty_text s)
  fill_sections ((k, c ∷ v) ∷ rest) s = elim (section_content (render (c ∷ v) s)) [
    | none ↦ none
    | some bytes ↦ fill_sections rest (set k (html bytes) s)
  ]

  abbrev pub laid_out : Bytes → Page V → Option (Page V)
  laid_out [] p = some (record p { layout = p.path })
  laid_out (c ∷ l) p = elim (fill_sections p.sections p.store) [
    | none ↦ none
    | some s ↦ some (record p { store = s })
  ]

  module _ {W : Type 0} (http : HttpWriter W) where
    abbrev pub replied :
        ℕ → Response W → Page V → Option (Option Bytes) → Option (Page V × Response W × Outcome)
    replied code r p none = none
    replied code r p (some m) = let (r', o) = Reply.render http code (some m) r in some (p, r', o)

    abbrev pub rendered : ℕ → Response W → Option (Page V) → Option (Page V × Response W × Outcome)
    rendered code r none = none
    rendered code r (some p) = replied code r p (page_content (render p.layout p.store))

    -- `Render`, where a renderer is registered
    unfoldable pub controller_render :
        List ℕ → Page V → Response W → Option (Page V × Response W × Outcome)
    unfolding fill_sections
    controller_render status p r = rendered (status_of status) r (laid_out p.layout p)

  abbrev pub is_section : Bytes → List (Bytes × Bytes) → Bool
  is_section k [] = false
  is_section k ((j, v) ∷ rest) = if equal j k then true else is_section k rest

  get-set_other :
      (j k : Bytes) (w : V) (s : Store V) (rest : Bool)
      → (if equal j k then true else rest) ≡ false
      → (get k (set j w s) ≡ get k s) × (rest ≡ false)
  get-set_other j k w s rest n =
      let apart : equal j k ≡ false = ground arith in
      (get-set j k w s ∙ rw apart refl, ground arith)

  -- The loop changes the keys of sections alone.
  pub get-fill_sections :
      (k : Bytes) (ps : List (Bytes × Bytes)) (s t : Store V)
      → is_section k ps ≡ false
      → fill_sections ps s ≡ some t
      → get k t ≡ get k s
  unfolding fill_sections
  get-fill_sections k [] s t n e = cc
  get-fill_sections k ((j, []) ∷ rest) s t n e =
      let (kept, n') = get-set_other j k empty_text s (is_section k rest) n in
      get-fill_sections k rest (set j empty_text s) t n' e ∙ kept
  get-fill_sections k ((j, c ∷ v) ∷ rest) s t n e =
      elim (Option-cases (section_content (render (c ∷ v) s))) [
        | inl broken ↦ absurd (none-ne-some (rw (broken, fill_sections) at e))
        | inr (bytes, done) ↦
            let (kept, n') = get-set_other j k (html bytes) s (is_section k rest) n in
            get-fill_sections k rest (set j (html bytes) s) t n' (rw (done, fill_sections) at e)
            ∙ kept
      ]
