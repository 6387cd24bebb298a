-- ===== src/Router/Known.antt =====
-- The tree that `Add` of core/router.go builds from a table of routes: where its nodes can stand.
use thinkgo.Base.{
  ◌≡◌, refl, sym, ◌∙◌, ◌⊎◌, inl, inr, Bytes, List, [], ◌∷◌, ◌++◌, Option, some, first, append-nil,
  append_assoc, subst,
}
use thinkgo.Router.Insert.{Write, Router, Registration, new_router, add}
use thinkgo.Router.Rooted.{IsRooted}
use thinkgo.Router.Routes.{shape}
use thinkgo.Router.Calls.{insert_all, AllSilent, add-Calls}
use thinkgo.Router.Kept.{new_router-IsKept}
use thinkgo.Router.Table.{AllRooted, add_routes}
use thinkgo.Router.Keys.{IsClosed, HasKeys, insert-HasKeys}

nothing_before : (a b : Bytes) → a ++ b ≡ [] → a ≡ []
nothing_before [] b e = refl
nothing_before (c ∷ a) b e = cc e

module _ {H E : Type 0} where
  -- The text starts the shape of a route of the list, or is empty.
  unfoldable pub IsKnown : List (Registration H E) → Bytes → Type 0
  IsKnown [] k = k ≡ []
  IsKnown (a ∷ routes) k = ((t : Bytes) × (shape a.path ≡ k ++ t)) ⊎ IsKnown routes k

  IsKnown-nil : (routes : List (Registration H E)) → IsKnown routes []
  unfolding IsKnown
  IsKnown-nil [] = refl
  IsKnown-nil (a ∷ routes) = inr (IsKnown-nil routes)

  pub IsKnown-IsClosed : (routes : List (Registration H E)) → IsClosed (IsKnown routes)
  unfolding IsKnown
  IsKnown-IsClosed [] a b e = nothing_before a b e
  IsKnown-IsClosed (r ∷ routes) a b (inl (t, e)) = inl (b ++ t, e ∙ append_assoc a b t)
  IsKnown-IsClosed (r ∷ routes) a b (inr k) = inr (IsKnown-IsClosed routes a b k)

  -- All shapes of the list have the predicate.
  abbrev AllShapes : (Bytes → Type 0) → List (Registration H E) → Type 0
  AllShapes p [] = Unit
  AllShapes p (a ∷ routes) = p (shape a.path) × AllShapes p routes

  IsKnown-AllShapes :
      (p : Bytes → Type 0) (routes : List (Registration H E))
      → ((k : Bytes) → IsKnown routes k → p k)
      → AllShapes p routes
  unfolding IsKnown
  IsKnown-AllShapes p [] f = tt
  IsKnown-AllShapes p (a ∷ routes) f = (
    f (shape a.path) (inl ([], sym (append-nil (shape a.path)))),
    IsKnown-AllShapes p routes (λ k h. f k (inr h)),
  )

  -- The step ends well, and leaves a tree whose nodes stand at texts of the predicate.
  abbrev Stands : (Bytes → Type 0) → Option (Router H E) → Type 0
  Stands p o = (r : Router H E) × (o ≡ some r) × IsRooted r × HasKeys p r.tree

  insert_all-Stands :
      (p : Bytes → Type 0) (at : Bytes) (ws : List (Write H E)) (r : Router H E)
      → IsClosed p
      → p at
      → AllSilent at ws
      → IsRooted r
      → HasKeys p r.tree
      → Stands p (insert_all ws r)
  unfolding insert_all
  insert_all-Stands p at [] r cl k s h g = (r, refl, h, g)
  insert_all-Stands p at (w ∷ ws) r cl k (_, f, (t, e), s) h g =
      let (r1, x, h1, g1) = insert-HasKeys w p r cl h f (cl w.path t (subst p e k)) g in
      let (r2, y, h2, g2) = insert_all-Stands p at ws r1 cl k s h1 g1 in (r2, rw x y, h2, g2)

  add-Stands :
      (p : Bytes → Type 0) (a : Registration H E) (r : Router H E)
      → IsClosed p
      → first a.path ≡ b'/'
      → p (shape a.path)
      → IsRooted r
      → HasKeys p r.tree
      → Stands p (add a r)
  add-Stands p a r cl f k h g =
      let (ws, w, s, l, e) = add-Calls a f in
      let (r1, x, h1, g1) = insert_all-Stands p (shape a.path) ws r cl k s h g in
      let (r2, y, h2, g2) = insert-HasKeys w p r1 cl h1 l.5 (subst p (sym l.0) k) g1 in
      (r2, e r ∙ rw x y, h2, g2)

  add_routes-Stands :
      (p : Bytes → Type 0) (routes : List (Registration H E)) (r : Router H E)
      → IsClosed p
      → AllRooted routes
      → AllShapes p routes
      → IsRooted r
      → HasKeys p r.tree
      → Stands p (add_routes routes r)
  unfolding add_routes
  add_routes-Stands p [] r cl f k h g = (r, refl, h, g)
  add_routes-Stands p (a ∷ routes) r cl (f, fs) (k, ks) h g =
      let (r1, x, h1, g1) = add-Stands p a r cl f k h g in
      let (r2, y, h2, g2) = add_routes-Stands p routes r1 cl fs ks h1 g1 in (r2, rw x y, h2, g2)

  -- From `NewRouter` on, any routes whose paths start with a slash can be added one after the other
  -- without a panic, and every node of the tree then stands at a text that starts the shape of one of
  -- these routes, or at the empty text: `Add` makes no other nodes.
  pub add_routes-HasKeys :
      (routes : List (Registration H E))
      → AllRooted routes
      → (r : Router H E) × (add_routes routes new_router ≡ some r) × HasKeys (IsKnown routes) r.tree
  add_routes-HasKeys routes f =
      let p = IsKnown routes in
      let (r, x, _, g) =
        add_routes-Stands p routes new_router (IsKnown-IsClosed routes) f
          (IsKnown-AllShapes p routes (λ k h. h)) new_router-IsKept.0 (IsKnown-nil routes, tt) in
      (r, x, g)
