-- ===== src/Router/Leads.antt =====
-- `Find` of core/router.go on a path that leads to a node without going back: at each node the static
-- child comes first, then the parameter child, which takes a segment, and then the match-any child,
-- which takes the rest.
use thinkgo.Base.{
  ℕ, zero, suc, ◌+◌, ◌≤◌, ◌<◌, true, false, ◌==◌, ◌≡◌, ◌≢◌, refl, sym, ◌∙◌, ap, Bytes, List, [],
  ◌∷◌, ◌++◌, none, some, arith, strip, length, drop, store, length-append, append_assoc,
}
use thinkgo.Router.Method.{Method, find_handler}
use thinkgo.Router.Tree.{
  skind, pkind, mkind, Node, info, children, label_of, find_child, find_child_by_kind,
}
use thinkgo.Router.Find.{
  State, at_end, save, static, param, match_any, store_last, step_on, run, size, sizes, done,
  found_at, registered, find, finish, initial, conclude, Params, segment, after_segment,
  compare_prefix, common_length, prefix_length,
}
use thinkgo.Router.Terminates.{after, static-size-le, kind-size-le, size_pos}
use thinkgo.Router.StaticFirst.{step_on-passes, save-keeps, static-descends}

module _ {H E : Type 0} where
  -- `Leads search cn vs n`: behind the prefix of `cn`, the text leads to `n`, with these values for the
  -- parameters on the way.
  pub data Leads : Bytes → Node H E → List Bytes → Node H E → Type 0 where
    here : {cn : Node H E} → Leads [] cn [] cn
    by_static :
        {c : ℕ} {r rest : Bytes} {cn d n : Node H E} {vs : List Bytes}
        → find_child c skind (children cn) ≡ some d
        → (label_of d == b':') ≡ false
        → strip (info d).prefix (c ∷ r) ≡ some rest
        → Leads rest d vs n
        → Leads (c ∷ r) cn vs n
    by_param :
        {c : ℕ} {r : Bytes} {cn d n : Node H E} {vs : List Bytes}
        → find_child c skind (children cn) ≡ none
        → find_child_by_kind pkind (children cn) ≡ some d
        → (label_of d == b':') ≡ true
        → Leads (after_segment (c ∷ r)) d vs n
        → Leads (c ∷ r) cn (segment (c ∷ r) ∷ vs) n
    by_any :
        {c : ℕ} {r : Bytes} {cn n : Node H E}
        → find_child c skind (children cn) ≡ none
        → find_child_by_kind pkind (children cn) ≡ none
        → find_child_by_kind mkind (children cn) ≡ some n
        → Leads (c ∷ r) cn ((c ∷ r) ∷ []) n

-- The values of a path in the place of those that the slice has from there on.
abbrev in_place : List Bytes → List Bytes → List Bytes → List Bytes
in_place seen vs room = seen ++ (vs ++ drop (length vs) room)

store_behind :
    (seen : List Bytes) (x v : Bytes) (room : List Bytes)
    → store (seen ++ (x ∷ room)) (length seen) v ≡ some (seen ++ (v ∷ room))
store_behind [] x v room = refl
store_behind (y ∷ seen) x v room = ground (arith, store_behind seen x v room)

store_last_behind :
    (names seen : List Bytes) (x v : Bytes) (room : List Bytes)
    → length names ≡ suc (length seen)
    → store_last names v (seen ++ (x ∷ room)) ≡ some (seen ++ (v ∷ room))
unfolding store_last
store_last_behind [] seen x v room h = absurd (omega arith)
store_last_behind (y ∷ names) seen x v room h =
    let e : length names ≡ length seen = omega arith in
    ap (λ k. store (seen ++ (x ∷ room)) k v) e ∙ store_behind seen x v room

module _ {H E : Type 0} where
  -- The state has room for the values: those that are found stand before it.
  abbrev Stands : State H E → List Bytes → List Bytes → Type 0
  Stands s seen room = (s.n ≡ length seen) × (s.pvalues ≡ seen ++ room)

  -- A round at the parameter child: its label is a colon, so no prefix is compared.
  round_param :
      (s : State H E) (search : Bytes)
      → s.search ≡ search
      → (label_of s.cn == b':') ≡ true
      → step_on search s ≡ static s
  unfolding step_on static compare_prefix common_length prefix_length
  round_param s [] e l = rw (e, static) refl
  round_param s (c ∷ r) e l = ground (arith, l)

  -- The state after the static child is taken, and after the parameter child is
  abbrev in_static : State H E → Node H E → State H E
  in_static s d = record (save pkind s) { cn = d }

  abbrev in_param : State H E → Node H E → List Bytes → State H E
  in_param s d pvalues = record (save mkind s) {
    cn = d;
    n = s.n + 1;
    search = after_segment s.search;
    pvalues = pvalues;
  }

  step_static :
      (fuel : ℕ) (s : State H E) (c : ℕ) (r rest : Bytes) (d : Node H E)
      → find_child c skind (children s.cn) ≡ some d
      → (label_of d == b':') ≡ false
      → strip (info d).prefix (c ∷ r) ≡ some rest
      → after (suc fuel) (static (record s { search = c ∷ r }))
        ≡ after fuel (static (record (in_static (record s { search = c ∷ r }) d) { search = rest }))
  unfolding run
  step_static fuel s c r rest d f a b =
      let s1 : State H E = in_static (record s { search = c ∷ r }) d in
      let q : s1.search ≡ c ∷ r = (save-keeps pkind (record s { search = c ∷ r })).0 in
      let p : step_on s1.search s1 ≡ static (record s1 { search = rest }) =
        ap (λ z. step_on z s1) q ∙ step_on-passes s1 c r rest q a b in
      ap (after (suc fuel)) (static-descends s c r d f) ∙ ap (after fuel) p

  step_param :
      (fuel : ℕ) (s : State H E) (c : ℕ) (r : Bytes) (d : Node H E) (pvalues : List Bytes)
      → find_child c skind (children s.cn) ≡ none
      → find_child_by_kind pkind (children s.cn) ≡ some d
      → (label_of d == b':') ≡ true
      → store s.pvalues s.n (segment (c ∷ r)) ≡ some pvalues
      → after (suc fuel) (static (record s { search = c ∷ r }))
        ≡ after fuel (static (in_param (record s { search = c ∷ r }) d pvalues))
  unfolding run static param
  step_param fuel s c r d pvalues f g a h =
      let s1 : State H E = in_param (record s { search = c ∷ r }) d pvalues in
      rw (f, g, h, static, param) (ap (after fuel) (round_param s1 s1.search refl a))

  step_any :
      (fuel : ℕ) (s : State H E) (c : ℕ) (r : Bytes) (d : Node H E) (pvalues : List Bytes)
      → find_child c skind (children s.cn) ≡ none
      → find_child_by_kind pkind (children s.cn) ≡ none
      → find_child_by_kind mkind (children s.cn) ≡ some d
      → store_last (info d).pnames (c ∷ r) s.pvalues ≡ some pvalues
      → after fuel (static (record s { search = c ∷ r })) ≡ done (at_end d pvalues)
  unfolding static param match_any
  step_any fuel s c r d pvalues f g a h = rw (f, g, a, h, static, param, match_any) refl

  size_static :
      (cn d : Node H E) (c : ℕ) → find_child c skind (children cn) ≡ some d → size d < size cn
  size_static cn d c f = omega (arith, static-size-le c (children cn) d f, size_pos cn)

  size_param :
      (cn d : Node H E) → find_child_by_kind pkind (children cn) ≡ some d → size d < size cn
  size_param cn d f = omega (arith, kind-size-le pkind (children cn) d f, size_pos cn)

  run-Leads :
      (fuel : ℕ) (s : State H E) (search : Bytes) (n : Node H E) (vs seen room : List Bytes)
      → size s.cn ≤ suc fuel
      → Leads search s.cn vs n
      → Stands s seen room
      → length vs ≤ length room
      → length (info n).pnames ≡ length seen + length vs
      → after fuel (static (record s { search = search })) ≡ done (at_end n (in_place seen vs room))
  unfolding static
  run-Leads fuel s search n vs seen room z here (c, v) l k = ap (λ y. done (at_end s.cn y)) v
  run-Leads zero s search n vs seen room z (by_static {d = d} f a b ld) st l k =
      absurd (omega (arith, size_static s.cn d _ f, size_pos d))
  run-Leads (suc fuel) s search n vs seen room z
        (by_static {c = c} {r = r} {rest = rest} {d = d} f a b ld) (y, v) l k =
      step_static fuel s c r rest d f a b
      ∙ run-Leads fuel (in_static (record s { search = c ∷ r }) d) rest n vs seen room
          (omega (arith, size_static s.cn d c f)) ld (ground (arith, y, v)) l k
  run-Leads zero s search n vs seen room z (by_param {d = d} f g a ld) st l k =
      absurd (omega (arith, size_param s.cn d g, size_pos d))
  run-Leads (suc fuel) s search n vs seen [] z (by_param f g a ld) st l k = absurd (omega arith)
  run-Leads (suc fuel) s search n _ seen (x ∷ room) z
        (by_param {c = c} {r = r} {d = d} {vs = vs} f g a ld) (y, v) l k =
      let seg = segment (c ∷ r) in
      let pv = seen ++ (seg ∷ room) in
      let h : store s.pvalues s.n seg ≡ some pv = rw (v, y) (store_behind seen x seg room) in
      step_param fuel s c r d pv f g a h
      ∙ run-Leads fuel (in_param (record s { search = c ∷ r }) d pv) (after_segment (c ∷ r)) n vs
          (seen ++ seg ∷ []) room (omega (arith, size_param s.cn d g)) ld
          (omega (arith, y, length-append seen (seg ∷ [])), sym (append_assoc seen (seg ∷ []) room))
          (omega arith) (omega (arith, length-append seen (seg ∷ [])))
      ∙ ap (λ w. done (at_end n w)) (append_assoc seen (seg ∷ []) (vs ++ drop (length vs) room))
  run-Leads fuel s search n vs seen [] z (by_any f g a) st l k = absurd (omega arith)
  run-Leads fuel s search n _ seen (x ∷ room) z (by_any {c = c} {r = r} f g a) (y, v) l k =
      let h : store_last (info n).pnames (c ∷ r) s.pvalues ≡ some (seen ++ ((c ∷ r) ∷ room)) =
        rw v (store_last_behind (info n).pnames seen x (c ∷ r) room (omega arith)) in
      step_any fuel s c r n (seen ++ ((c ∷ r) ∷ room)) f g a h

  -- `Find` without going back: where the root's prefix stands before the path and the rest leads to the
  -- node `n`, by static children first, then parameter children, each with the segment there as its value,
  -- and then a match-any child with the rest as its value, and the node has as many names as there are
  -- values, a handler for the method, and the slice of the context room for the values, `Find` returns
  -- that handler, with the values in order before those that the slice has behind them.
  pub find-Leads :
      (tree : Node H E) (e : E) (m : Method) (path rest : Bytes) (ctx : Params) (n : Node H E)
      (vs : List Bytes) (h : H)
      → path ≢ []
      → (label_of tree == b':') ≡ false
      → strip (info tree).prefix path ≡ some rest
      → Leads rest tree vs n
      → length (info n).pnames ≡ length vs
      → length vs ≤ length ctx.pvalues
      → find_handler m (info n).handlers ≡ some h
      → find tree e m path ctx
        ≡ done (found_at e n (registered h) (vs ++ drop (length vs) ctx.pvalues))
  unfolding find finish run
  find-Leads tree e m [] rest ctx n vs h ne l f ld k r g = absurd (ne refl)
  find-Leads tree e m (x ∷ t) rest ctx n vs h ne l f ld k r g =
      let s : State H E = initial tree (x ∷ t) ctx in
      let q : run (size tree) s ≡ done (at_end n (vs ++ drop (length vs) ctx.pvalues)) =
        rw (size_pos tree) (
          ap (after (sizes (children tree))) (step_on-passes s x t rest refl l f)
          ∙ run-Leads (sizes (children tree)) s rest n vs [] ctx.pvalues
              (omega (arith, size_pos tree)) ld (refl, refl) r (omega (arith, k))) in
      ap (conclude e m ctx) q ∙ rw (g, finish) refl
