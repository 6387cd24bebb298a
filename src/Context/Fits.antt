-- ===== src/Context/Fits.antt =====
-- core/router.go with the contexts of core/context.go: a context that `NewContext` makes when the routes
-- are there has room for the values of each of them.
use thinkgo.Base.{
  ℕ, suc, zero, ◌≤◌, ◌==◌, false, ◌≡◌, ◌≢◌, refl, ap, sym, subst, inl, inr, arith, Bytes, List, [],
  ◌∷◌, ◌++◌, some, length, drop, strip,
}
use thinkgo.Router.Method.{Method, find_handler}
use thinkgo.Router.Tree.{Node, info, label_of, find_child, find_child_by_kind}
use thinkgo.Router.Insert.{Router, Registration, new_router}
use thinkgo.Router.Find.{done, found_at, find}
use thinkgo.Router.Find
use thinkgo.Router.Content.{IsSound-label}
use thinkgo.Router.Rooted.{IsFresh, IsRooted}
use thinkgo.Router.Leads.{Leads, by_static, by_param, by_any, find-Leads}
use thinkgo.Router.Kept.{new_router-IsKept}
use thinkgo.Router.Table.{AllRooted, add_routes, add_routes-AddsRoutes}
use thinkgo.Router.Room.{HasRoom, AllRoom, Leads-le, add_routes-AllRoom}
use thinkgo.Context.Life.{make, new_params}

length-make : (n : ℕ) → length (make n) ≡ n
unfolding make
length-make zero = refl
length-make (suc n) = ap suc (length-make n)

module _ {H E : Type 0} where
  fresh_ends :
      (c : ℕ) (r : Bytes) (cn n : Node H E) (vs : List Bytes)
      → IsFresh cn
      → ¬ (Leads (c ∷ r) cn vs n)
  unfolding find_child find_child_by_kind
  fresh_ends c r cn n vs f (by_static g l s k) = ground (arith, f.no_children, g)
  fresh_ends c r cn n vs f (by_param g h l k) = ground (arith, f.no_children, h)
  fresh_ends c r cn n vs f (by_any g h k) = ground (arith, f.no_children, k)

  root_label :
      (r : Router H E) (c : ℕ) (path rest : Bytes) (n : Node H E) (vs : List Bytes)
      → IsRooted r
      → strip (info r.tree).prefix (c ∷ path) ≡ some rest
      → Leads rest r.tree vs n
      → (label_of r.tree == b':') ≡ false
  unfolding strip
  root_label r c path rest n vs (inl f) s k =
      let whole : c ∷ path ≡ rest = ground (arith, f.no_prefix, s) in
      absurd (fresh_ends c path r.tree n vs f (subst (λ z. Leads z r.tree vs n) (sym whole) k))
  root_label r c path rest n vs (inr (so, q)) s k = ground (arith, IsSound-label r.tree so, q)

  made_room :
      (routes : List (Registration H E)) (r : Router H E)
      → AllRooted routes
      → add_routes routes new_router ≡ some r
      → HasRoom r
  unfolding AllRoom
  made_room routes r p e =
      subst AllRoom e (add_routes-AllRoom routes new_router p (omega arith, tt))

  -- Where routes, whose paths start with a slash, were added to a new router, and a path leads to a node
  -- without going back, which has a handler for the method and as many names as the path has values there,
  -- `Find` with a context that `NewContext` made afterwards does not panic: it returns the handler, with
  -- the values in order and empty texts behind them.
  pub find-new_context :
      (routes : List (Registration H E)) (r : Router H E) (e : E) (m : Method) (path rest : Bytes)
      (n : Node H E) (vs : List Bytes) (h : H)
      → AllRooted routes
      → add_routes routes new_router ≡ some r
      → path ≢ []
      → strip (info r.tree).prefix path ≡ some rest
      → Leads rest r.tree vs n
      → length (info n).pnames ≡ length vs
      → find_handler m (info n).handlers ≡ some h
      → find r.tree e m path (new_params r.max_param)
        ≡ done (found_at e n (Find.registered h) (vs ++ drop (length vs) (make r.max_param)))
  find-new_context routes r e m [] rest n vs h p x ne s k l g = absurd (ne refl)
  find-new_context routes r e m (c ∷ path) rest n vs h p x ne s k l g =
      let (r', y, (rooted, _), _, _) =
        add_routes-AddsRoutes routes new_router p new_router-IsKept in
      let same_router : r' ≡ r = cc (x, y) in
      let bound : length (info n).pnames ≤ r.max_param =
        Leads-le r.max_param rest r.tree n vs k (made_room routes r p x) in
      find-Leads r.tree e m (c ∷ path) rest (new_params r.max_param) n vs h ne
        (root_label r c path rest n vs (subst IsRooted same_router rooted) s k) s k l
        (omega (arith, bound, l, length-make r.max_param)) g
