-- ===== src/Router/Served.antt =====
-- `Find` of core/router.go on routes that have no parameters.
use thinkgo.Base.{ℕ, ◌≡◌, ◌≢◌, refl, inl, inr, true, Bytes, [], ◌∷◌, some, arith, strip}
use thinkgo.Router.Method.{Method, find_handler}
use thinkgo.Router.Tree.{Node, node, info}
use thinkgo.Router.Insert.{Router}
use thinkgo.Router.Content.{handler_at}
use thinkgo.Router.Find.{Handler, Params, done, found_at, find}
use thinkgo.Router.Find
use thinkgo.Router.Rooted.{IsRooted, IsFresh, registered}
use thinkgo.Router.Shaped.{IsShaped, is_plain, handler_at-static_at}
use thinkgo.Router.StaticFirst.{find-static}

module _ {H E : Type 0} where
  pub nothing_fresh :
      (m : Method) (c : ℕ) (path : Bytes) (n : Node H E) (h : H)
      → IsFresh n
      → handler_at m (c ∷ path) n ≢ some h
  unfolding handler_at strip
  nothing_fresh m c path (node i cs) h f e = ground (arith, f.no_prefix, f.no_children, e)

  -- Every route without parameters is served: where a handler is registered for a method at a path with
  -- no colon and no star, `Find` returns that handler, whatever other routes there are, and leaves the
  -- parameter values alone.
  pub find-registered_plain :
      (r : Router H E) (e : E) (m : Method) (path : Bytes) (ctx : Params) (h : H)
      → IsRooted r
      → IsShaped r.tree
      → is_plain path ≡ true
      → path ≢ []
      → registered r m path ≡ some h
      → (d : Node H E) × (find r.tree e m path ctx
          ≡ done (found_at e d (Find.registered h) ctx.pvalues))
        × (find_handler m (info d).handlers ≡ some h)
  find-registered_plain r e m [] ctx h s k p ne g = absurd (ne refl)
  find-registered_plain r e m (c ∷ path) ctx h (inl f) k p ne g =
      absurd (nothing_fresh m c path r.tree h f g)
  find-registered_plain r e m (c ∷ path) ctx h (inr (s, _)) k p ne g =
      let (d, a, f) = handler_at-static_at m (c ∷ path) r.tree h s k p g in
      (d, find-static r.tree e m (c ∷ path) ctx d h ne a f, f)
