-- ===== src/Router/Answers.antt =====
-- What `Find` of core/router.go answers: a handler of a node of the tree, and values in their places.
use thinkgo.Base.{
  ℕ, ◌≡◌, ◌≢◌, refl, sym, ◌∙◌, ap, subst, Bytes, List, [], none, some, arith, Option-cases, inl,
  inr, length,
}
use thinkgo.Router.Method.{Method, find_handler}
use thinkgo.Router.Tree.{mkind, Node, info, children, find_child_by_kind}
use thinkgo.Router.Find.{
  Outcome, panic, at_end, no_match, finish, store_last, run, size, Run, done, out_of_fuel, Found,
  found_at, Handler, registered, check405, handler_or_405, find, initial, conclude, Params,
}
use thinkgo.Router.Invariant.{
  InTree, IsInside, Ends, run-Ends, root, child, length-store_last, find_child_by_kind-Among,
}

module _ {H E : Type 0} where
  abbrev Serves : Node H E → Method → Handler H → Type 0
  Serves tree m h =
      (x : H)
      → h ≡ registered x
      → (n : Node H E) × InTree tree n × (find_handler m (info n).handlers ≡ some x)

  abbrev value : Found H E → Run (Found H E) → Found H E
  value f (done g) = g
  value f _ = f

  done-injective : (f g : Found H E) → ◌≡◌ {A = Run (Found H E)} (done f) (done g) → f ≡ g
  done-injective f g h = ap (value f) h

  handler_or_405-Serves :
      (tree c : Node H E) (m : Method) → InTree tree c → Serves tree m (handler_or_405 m c)
  unfolding handler_or_405
  handler_or_405-Serves tree c m i x p = (c, i, ground arith)

  check405-ne : (c : Node H E) (x : H) → check405 c ≢ registered x
  unfolding check405
  check405-ne c x = ground arith

  -- The conclusion about a result, and the same of a result that is given in full.
  abbrev Answers : Node H E → Method → ℕ → Found H E → Type 0
  Answers tree m k f = Serves tree m f.handler × (length f.context.pvalues ≡ k)

  finish-405 :
      (tree cn : Node H E) (e : E) (m : Method) (vs : List Bytes) (f : Found H E)
      → InTree tree cn
      → find_handler m (info cn).handlers ≡ none
      → finish m e cn vs ≡ done f
      → Answers tree m (length vs) f
  unfolding finish
  finish-405 tree cn e m vs f i n h = elim (Option-cases (find_child_by_kind mkind (children cn))) [
    | inl o ↦
        subst (Answers tree m (length vs))
          (done-injective (found_at e cn (check405 cn) vs) f (sym (rw (n, finish) (rw o)) ∙ h))
          (λ x p. absurd (check405-ne cn x p), refl)
    | inr (c, o) ↦ elim (Option-cases (store_last (info c).pnames [] vs)) [
      | inl u ↦
          let p : finish m e cn vs ≡ panic = rw (n, finish) (rw o (rw u)) in
          absurd (ground (arith, p, h))
      | inr (vs', u) ↦
          subst (Answers tree m (length vs))
            (done-injective (found_at e cn (handler_or_405 m c) vs') f
              (sym (rw (n, finish) (rw o (rw u))) ∙ h))
            (
              handler_or_405-Serves tree c m
                  (child i (find_child_by_kind-Among mkind (children cn) c o)),
              length-store_last (info c).pnames [] vs vs' u,
            )
    ]
  ]

  finish-Answers :
      (tree cn : Node H E) (e : E) (m : Method) (vs : List Bytes) (f : Found H E)
      → InTree tree cn
      → finish m e cn vs ≡ done f
      → Answers tree m (length vs) f
  unfolding finish
  finish-Answers tree cn e m vs f i h = elim (Option-cases (find_handler m (info cn).handlers)) [
    | inl n ↦ finish-405 tree cn e m vs f i n h
    | inr (x, n) ↦
        subst (Answers tree m (length vs))
          (done-injective (found_at e cn (registered x) vs) f (sym (rw (n, finish)) ∙ h))
          (λ y p. (cn, i, ground arith), refl)
  ]

  conclude-Answers :
      (tree : Node H E) (e : E) (m : Method) (ctx : Params) (k : ℕ) (r : Run (Outcome H E))
      (f : Found H E)
      → ((o : Outcome H E) → r ≡ done o → Ends tree k o)
      → conclude e m ctx r ≡ done f
      → Answers tree m k f
  conclude-Answers tree e m ctx k (done (at_end cn vs)) f h c =
      let (i, l) = h (at_end cn vs) refl in
      subst (λ z. Answers tree m z f) l (finish-Answers tree cn e m vs f i c)
  conclude-Answers tree e m ctx k (done (no_match vs)) f h c =
      subst (Answers tree m k) (done-injective _ f c)
        (λ x p. absurd (ground arith), h (no_match vs) refl)
  conclude-Answers tree e m ctx k panic f h c = cc
  conclude-Answers tree e m ctx k out_of_fuel f h c = cc

  find-Answers :
      (tree : Node H E) (e : E) (m : Method) (path : Bytes) (ctx : Params) (f : Found H E)
      → find tree e m path ctx ≡ done f
      → Answers tree m (length ctx.pvalues) f
  unfolding find
  find-Answers tree e m path ctx f h =
      let s = initial tree path ctx in
      let inside : IsInside tree (length ctx.pvalues) s = record {
        cn_inside = root;
        nn_inside = tt;
        values = refl;
      } in
      conclude-Answers tree e m ctx (length ctx.pvalues) (run (size tree) s) f
        (λ o. run-Ends tree (length ctx.pvalues) (size tree) s o inside) h

  -- Where `Find` returns with no panic, a registered handler that it gives is the handler of some node
  -- of the tree for the method asked.
  pub find-registered :
      (tree : Node H E) (e : E) (m : Method) (path : Bytes) (ctx : Params) (f : Found H E) (x : H)
      → find tree e m path ctx ≡ done f
      → f.handler ≡ registered x
      → (n : Node H E) × InTree tree n × (find_handler m (info n).handlers ≡ some x)
  find-registered tree e m path ctx f x h = (find-Answers tree e m path ctx f h).0 x

  -- Where `Find` returns with no panic, the slice of parameter values has the length that it had.
  pub length-find :
      (tree : Node H E) (e : E) (m : Method) (path : Bytes) (ctx : Params) (f : Found H E)
      → find tree e m path ctx ≡ done f
      → length f.context.pvalues ≡ length ctx.pvalues
  length-find tree e m path ctx f h = (find-Answers tree e m path ctx f h).1
