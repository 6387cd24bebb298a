-- ===== src/Render/Permanent.antt =====
-- `PermanentParse` and `Render` of core/render.go.
use thinkgo.Base.{
  ◌≡◌, ◌≢◌, refl, ◌∙◌, ap, Bool, true, false, Bytes, [], ◌∷◌, some, lookup, insert, lookup-insert,
  equal, equal_iff, equal_refl, arith, Bool-cases, inl, inr,
}
use thinkgo.Render.Template.{
  Engine, Template, ran, render, render_file, permanent_parse, path_of, set_debug,
}

-- A copy of a set of templates executes like the set.
abbrev pub Copies : {T D : Type 0} → Engine T D → Type 0
Copies {T} {D} engine =
    (s t : T) (f : Bytes) (d : D)
    → engine.clone s ≡ some t
    → engine.execute t f d ≡ engine.execute s f d

module _ {T D : Type 0} (engine : Engine T D) (copies : Copies engine) where
  render_file-marked :
      (t : Template T) (c : T) (name : Bytes) (d : D)
      → name ≢ []
      → lookup name t.permanent ≡ some true
      → engine.clone t.templates ≡ some c
      → render_file engine t name name d ≡ ran (engine.execute t.templates name d)
  render_file-marked t c [] d n m e = absurd (n refl)
  render_file-marked t c (b ∷ name) d n m e = elim (Bool-cases t.debug) [
    | inr plain ↦ rw plain refl
    | inl debug ↦ rw debug (rw m (rw e (ap ran (copies t.templates c (b ∷ name) d e))))
  ]

  render_file-kept :
      (t t' : Template T) (k f : Bytes) (d : D)
      → t.debug ≡ t'.debug
      → t.templates ≡ t'.templates
      → lookup k t.permanent ≡ lookup k t'.permanent
      → render_file engine t k f d ≡ render_file engine t' k f d
  render_file-kept t t' k [] d a b c = refl
  render_file-kept t t' k (x ∷ f) d a b c = rw (a, b, c) refl

  -- After `PermanentParse` of a name, `Render` of it executes the template that was parsed and reads no
  -- file, with debug mode on or off, where a copy of the set executes like the set. Any other name still
  -- renders from the file that it had, and is still parsed again in debug mode if it was; it is executed
  -- in the set that has the new template.
  pub render-permanent_parse :
      (name src k : Bytes) (t : Template T) (s c : T) (debug : Bool) (d : D)
      → name ≢ []
      → k ≢ name
      → engine.parse name src t.templates ≡ some s
      → engine.clone s ≡ some c
      → (t' : Template T) × (permanent_parse engine name src t ≡ some t')
        × (render engine (set_debug debug t') name d ≡ ran (engine.execute s name d))
        × (render engine (set_debug debug t') k d
            ≡ render engine (set_debug debug (record t { templates = s })) k d)
  unfolding render permanent_parse
  render-permanent_parse name src k t s c debug d n kn e ec =
      let t' = record t {
        templates = s;
        pathmap = insert name name t.pathmap;
        permanent = insert name true t.permanent;
      } in
      let found = lookup-insert name name name t.pathmap in
      let marks = lookup-insert name name true t.permanent in
      let apart : equal name k ≡ false = ground (arith, equal_iff name k) in
      let named : lookup name t'.pathmap ≡ some name = found ∙ rw (equal_refl name) refl in
      let marked_so : lookup name t'.permanent ≡ some true = marks ∙ rw (equal_refl name) refl in
      let kept : lookup k t'.pathmap ≡ lookup k t.pathmap =
        lookup-insert name k name t.pathmap ∙ rw apart refl in
      let unmarked : lookup k t'.permanent ≡ lookup k t.permanent =
        lookup-insert name k true t.permanent ∙ rw apart refl in
      let other = record t { templates = s } in
      (
        t',
        rw e refl,
        rw named (render_file-marked (set_debug debug t') c name d n marked_so ec),
        rw kept (
            render_file-kept (set_debug debug t') (set_debug debug other) k
              (path_of (lookup k t.pathmap)) d refl refl unmarked),
      )
