-- ===== src/Router/Descent.antt =====
-- `Find` of core/router.go on a path that matches a route with parameters, where no other route competes:
-- the nodes of the tree lead to the node of the route.
use thinkgo.Base.{
  ℕ, zero, suc, ◌≤◌, true, false, ◌≡◌, ◌≢◌, refl, ap, sym, ◌∙◌, subst, Bytes, List, [], ◌∷◌, ◌++◌,
  Option, none, some, arith, first, strip, length, length-append, append_assoc, strip_self,
}
use thinkgo.Router.Method.{Method, find_handler}
use thinkgo.Router.Tree.{
  skind, pkind, mkind, Node, Nodes, node, info, children, label_of, kind_of, find_child_with_label,
  Kind,
}
use thinkgo.Router.Content.{handler_at, handler_below, IsSound, AllSound}
use thinkgo.Router.Shaped.{is_mark, is_plain, is_piece, IsShaped, AllShaped, strip-some}
use thinkgo.Router.Entries.{NodeEntry, entry_at, entry_below, entry_of}
use thinkgo.Router.Keys.{IsClosed, HasKeys, AllKeys, AllKeys-map, below_closed}
use thinkgo.Router.Find.{after_segment}
use thinkgo.Router.Leads.{Leads, here, by_static, by_param, by_any}
use thinkgo.Router.Match.{
  Matches, stop, byte, parameter, star, peel, pick, static_child, kind_child, no_static, no_kind,
  label_piece,
}

module _ {H E : Type 0} (m : Method) (o : NodeEntry E) (h : H) where
  -- Behind the prefix of the node, the text leads to the entry and the handler.
  abbrev pub IsAt : Bytes → Node H E → Type 0
  IsAt [] n = (entry_of (info n) ≡ some o) × (find_handler m (info n).handlers ≡ some h)
  IsAt (c ∷ s) n =
      (entry_below (c ∷ s) (children n) ≡ some o) × (handler_below m (c ∷ s) (children n) ≡ some h)

  opened_as :
      (key : Bytes) (d : Node H E) (x : Option Bytes)
      → strip (info d).prefix key ≡ x
      → entry_at key d ≡ some o
      → handler_at m key d ≡ some h
      → (s : Bytes) × (key ≡ (info d).prefix ++ s) × IsAt s d
  unfolding entry_at handler_at
  opened_as key (node i cs) none x e f = absurd (ground (arith, x, e))
  opened_as key (node i cs) (some []) x e f =
      ([], strip-some i.prefix key [] x, (ground (arith, x, e), ground (arith, x, f)))
  opened_as key (node i cs) (some (c ∷ r)) x e f =
      (c ∷ r, strip-some i.prefix key (c ∷ r) x, (ground (arith, x, e), ground (arith, x, f)))

  pub opened :
      (key : Bytes) (d : Node H E)
      → entry_at key d ≡ some o
      → handler_at m key d ≡ some h
      → (s : Bytes) × (key ≡ (info d).prefix ++ s) × IsAt s d
  opened key d e f = opened_as key d (strip (info d).prefix key) refl e f

-- Where the children stand: sound, of the shape, and at texts of the predicate behind the text.
abbrev pub Stands : {H E : Type 0} → (Bytes → Type 0) → Bytes → Nodes H E → Type 0
Stands p b cs = AllSound cs × AllShaped cs × AllKeys (λ k. p (b ++ k)) cs

plain_piece :
    (d : Bytes) (c : ℕ) (t : Kind)
    → d ≢ []
    → first d ≡ c
    → is_mark c ≡ false
    → is_piece t d ≡ true
    → is_plain d ≡ true
plain_piece [] c t ne e m h = absurd (ne refl)
plain_piece (x ∷ []) c skind ne e m h = ground arith
plain_piece (x ∷ []) c pkind ne e m h = ground arith
plain_piece (x ∷ []) c mkind ne e m h = ground arith
plain_piece (x ∷ y ∷ d) c t ne e m h = ground arith

shorter : (q s r : Bytes) (fuel : ℕ) → q ≢ [] → r ≡ q ++ s → length r ≤ suc fuel → length s ≤ fuel
shorter [] s r fuel ne e l = absurd (ne refl)
shorter (c ∷ q) s r fuel ne e l =
    let k : length r ≡ length ((c ∷ q) ++ s) = ap length e in omega (arith, l, k, length-append q s)

module _ {H E : Type 0} where
  pub sound_prefix :
      (d : Node H E) → IsSound d → (label_of d ≡ first (info d).prefix) × ((info d).prefix ≢ [])
  sound_prefix (node i cs) (l, ne, _) = (l, ne)

  pub shaped_piece : (d : Node H E) → IsShaped d → is_piece (kind_of d) (info d).prefix ≡ true
  shaped_piece (node i cs) (s, _) = s

module _ {H E : Type 0} (p : Bytes → Type 0) where
  pub child-Stands :
      (b : Bytes) (d : Node H E)
      → IsSound d
      → IsShaped d
      → HasKeys (λ k. p (b ++ k)) d
      → Stands p (b ++ (info d).prefix) (children d)
  child-Stands b (node i cs) (_, _, a) (_, s) (_, k) = (
    a,
    s,
    AllKeys-map (λ k. p (b ++ (i.prefix ++ k))) (λ k. p ((b ++ i.prefix) ++ k)) cs
        (λ k. subst p (sym (append_assoc b i.prefix k))) k,
  )

module _ {H E : Type 0} (m : Method) (o : NodeEntry E) (h : H) (p : Bytes → Type 0) where
  -- The text leads to a node with the entry and the handler.
  abbrev pub Arrives : Node H E → Bytes → List Bytes → Type 0
  Arrives cn t vs =
      (n : Node H E) × Leads t cn vs n
      × (entry_of (info n) ≡ some o)
      × (find_handler m (info n).handlers ≡ some h)

  -- A child where the next part of the shape goes on.
  abbrev Child : Bytes → ℕ → Bytes → Node H E → Type 0
  Child b c s cn =
      (d : Node H E) × (find_child_with_label c (children cn) ≡ some d)
      × (label_of d ≡ c)
      × ((info d).prefix ≢ [])
      × (first (info d).prefix ≡ c)
      × (is_piece (kind_of d) (info d).prefix ≡ true)
      × Stands p (b ++ (info d).prefix) (children d)
      × ((s' : Bytes) × (c ∷ s ≡ (info d).prefix ++ s') × IsAt m o h s' d)

  child :
      (b : Bytes) (c : ℕ) (s : Bytes) (cn : Node H E)
      → Stands p b (children cn)
      → IsAt m o h (c ∷ s) cn
      → Child b c s cn
  child b c s cn (a, g, k) (e, f) =
      let (d, x, l, a', g', k', e', f') =
        pick m (λ z. p (b ++ z)) c s (children cn) o h a g k e f in
      let (y, ne) = sound_prefix d a' in
      (
        d,
        x,
        l,
        ne,
        sym y ∙ l,
        shaped_piece d g',
        child-Stands p b d a' g' k',
        opened m o h (c ∷ s) d e' f',
      )

  -- From a node that the path has come to, the rest of it leads to the node of the route.
  pub descend :
      (fuel : ℕ) (cn : Node H E) (b s t : Bytes) (vs : List Bytes)
      → IsClosed p
      → length s ≤ fuel
      → Stands p b (children cn)
      → IsAt m o h s cn
      → Matches p b s t vs
      → Arrives cn t vs
  descend fuel cn b _ _ _ cl l st at stop = (cn, here, at.0, at.1)
  descend zero cn b _ _ _ cl l st at (byte mark x) = absurd (omega arith)
  descend zero cn b _ _ _ cl l st at (parameter n x) = absurd (omega arith)
  descend zero cn b _ _ _ cl l st at (star z n n') = absurd (omega arith)
  descend (suc fuel) cn b _ _ vs cl l st at (byte {s = s} {t = t} {c = c} mark x) =
      let (d, y, lb, ne, fi, pc, st', (s', e, at')) = child b c s cn st at in
      let q = (info d).prefix in
      let pl : is_plain q ≡ true = plain_piece q c (kind_of d) ne fi mark pc in
      let x' : Matches p b (q ++ s') (c ∷ t) vs =
        subst (λ z. Matches p b z (c ∷ t) vs) e (byte mark x) in
      let (t', e', x'') = peel p q b s' (c ∷ t) vs pl x' in
      let (n, ld, f, g) =
        descend fuel d (b ++ q) s' t' vs cl (shorter q s' (c ∷ s) fuel ne e l) st' at' x'' in
      (
        n,
        by_static (static_child c (children cn) d st.0 st.1 mark y) (ground (arith, lb, mark))
            (ap (strip q) e' ∙ strip_self q t') ld,
        f,
        g,
      )
  descend (suc fuel) cn b _ _ _ cl l st at (parameter {s = s} {t = t} {c = c} {vs = vs} n x) =
      let (d, y, lb, ne, fi, pc, st', (s', e, at')) = child b b':' s cn st at in
      let (_, w) = label_piece pkind (kind_of d) b':' (info d).prefix refl ne fi pc in
      let same : s ≡ s' = cc (e, w) in
      let x' = subst (λ z. Matches p (b ++ (b':' ∷ [])) z (after_segment (c ∷ t)) vs) same x in
      let st'' : Stands p (b ++ (b':' ∷ [])) (children d) =
        subst (λ z. Stands p (b ++ z) (children d)) w st' in
      let (v, ld, f, g) =
        descend fuel d (b ++ (b':' ∷ [])) s' (after_segment (c ∷ t)) vs cl
          (shorter (info d).prefix s' (b':' ∷ s) fuel ne e l) st'' at' x' in
      (
        v,
        by_param (no_static (λ z. p (b ++ z)) c (children cn) (below_closed p b cl) st.0 st.2 n)
            (kind_child pkind b':' (children cn) d st.0 st.1 refl y) (ground (arith, lb)) ld,
        f,
        g,
      )
  descend (suc fuel) cn b _ _ _ cl l st at (star {s = s} {t = t} {c = c} z n n') =
      let (d, y, lb, ne, fi, pc, st', (s', e, at')) = child b b'*' s cn st at in
      let (_, w) = label_piece mkind (kind_of d) b'*' (info d).prefix refl ne fi pc in
      let last : s' ≡ [] = cc (e, w, z) in
      let ends : IsAt m o h [] d = subst (λ u. IsAt m o h u d) last at' in
      let cl' = below_closed p b cl in
      (
        d,
        by_any (no_static (λ u. p (b ++ u)) c (children cn) cl' st.0 st.2 n)
            (no_kind (λ u. p (b ++ u)) pkind b':' (children cn) cl' st.0 st.1 st.2 refl n')
            (kind_child mkind b'*' (children cn) d st.0 st.1 refl y),
        ends.0,
        ends.1,
      )
