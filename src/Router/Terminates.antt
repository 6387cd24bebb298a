-- ===== src/Router/Terminates.antt =====
-- The loop of `Find` in core/router.go ends, though it goes back in the tree: each round takes from a
-- measure that the number of nodes bounds.
use thinkgo.Base.{
  ℕ, zero, suc, ◌+◌, ◌≤◌, ◌<◌, ◌==◌, ◌≡◌, ◌≢◌, refl, Bytes, List, [], ◌∷◌, Option, none, some,
  arith, Option-cases, Bool-cases, drop, inl, inr,
}
use thinkgo.Router.Method.{Method}
use thinkgo.Router.Tree.{
  Kind, skind, pkind, mkind, Node, Nodes, node, nil, cons, children, label_of, find_child,
  find_child_by_kind,
}
use thinkgo.Router.Find.{
  State, Outcome, Step, at_end, no_match, compare_prefix, common_length, prefix_length, finish,
  conclude, continue, stop, panics, Run, out_of_fuel, panic, done, match_any, param, go_back,
  static, step_on, step, run, size, sizes, find, initial, Params,
}

module _ {H E : Type 0} where
  pub size_pos : (n : Node H E) → size n ≡ suc (sizes (children n))
  unfolding size
  size_pos (node i cs) = refl

  -- The size of the parameter child, to which the loop may still go back.
  abbrev pub param_size : Option (Node H E) → ℕ
  param_size none = 0
  param_size (some c) = size c

  pub reserve_of : Nodes H E → ℕ
  reserve_of cs = param_size (find_child_by_kind pkind cs)

  pub kind-size-le :
      (t : Kind) (cs : Nodes H E) (c : Node H E)
      → find_child_by_kind t cs ≡ some c
      → size c ≤ sizes cs
  unfolding size find_child_by_kind
  kind-size-le t nil c e = cc
  kind-size-le t (cons d ds) c e = ground (arith, kind-size-le t ds c)

  reserve-le : (cs : Nodes H E) → reserve_of cs ≤ sizes cs
  unfolding reserve_of
  reserve-le cs = elim (Option-cases (find_child_by_kind pkind cs)) [
    | inl e ↦ rw e (omega arith)
    | inr (c, e) ↦ rw e (kind-size-le pkind cs c e)
  ]

  pub static-size-le :
      (x : ℕ) (cs : Nodes H E) (c : Node H E)
      → find_child x skind cs ≡ some c
      → size c + reserve_of cs ≤ sizes cs
  unfolding size find_child find_child_by_kind reserve_of
  static-size-le x nil c e = cc
  static-size-le x (cons d ds) c e = ground (arith, reserve-le ds, static-size-le x ds c)

  -- What the loop may still visit: the tree of `cn`, and the parameter child that waits.
  reserve : State H E → ℕ
  reserve s = elim s.nk [
    | pkind ↦ elim s.nn [ none ↦ 0 | some nn ↦ reserve_of (children nn) ]
    | _ ↦ 0
  ]

  measure : State H E → ℕ
  measure s = size s.cn + reserve s

  abbrev Waiting : Kind → Option (Node H E) → Type 0
  Waiting pkind (some nn) = label_of nn ≡ b'/'
  Waiting _ _ = Unit

  -- A node waits at its parameter child only if its label is a slash.
  abbrev Waits : State H E → Type 0
  Waits s = Waiting s.nk s.nn

  -- A round that goes on does so with a smaller measure.
  abbrev Falls : ℕ → Step H E → Type 0
  Falls bound (continue s) = Waits s × (measure s < bound)
  Falls bound (stop o) = Unit
  Falls bound panics = Unit

  match_any-Falls : (bound : ℕ) (s : State H E) → Falls bound (match_any s)
  unfolding match_any
  match_any-Falls bound s = ground arith

  param-Falls : (s : State H E) → Waits s → Falls (measure s) (param s)
  unfolding param measure reserve
  param-Falls s w = elim (Option-cases (find_child_by_kind pkind (children s.cn))) [
    | inl e ↦ rw (e, param) (match_any-Falls _ s)
    | inr (c, e) ↦ ground (arith, kind-size-le pkind (children s.cn) c e, size_pos s.cn)
  ]

  param_back-Falls :
      (bound : ℕ) (s : State H E)
      → label_of s.cn ≡ b'/'
      → reserve_of (children s.cn) < bound
      → Falls bound (param s)
  unfolding param measure reserve reserve_of
  param_back-Falls bound s l h = elim (Option-cases (find_child_by_kind pkind (children s.cn))) [
    | inl e ↦ rw (e, param) (match_any-Falls _ s)
    | inr (c, e) ↦ ground arith
  ]

  abbrev WaitsBelow : ℕ → Kind → Option (Node H E) → Type 0
  WaitsBelow bound pkind (some nn) = reserve_of (children nn) < bound
  WaitsBelow bound _ _ = Unit

  measure-WaitsBelow :
      (s : State H E) (k : Kind) (o : Option (Node H E))
      → s.nk ≡ k
      → s.nn ≡ o
      → WaitsBelow (measure s) k o
  unfolding measure reserve
  measure-WaitsBelow s pkind (some nn) p q = ground (arith, size_pos s.cn)
  measure-WaitsBelow s _ _ p q = tt

  go_back-on :
      (bound : ℕ) (s : State H E) (k : Kind) (o : Option (Node H E))
      → s.nk ≡ k
      → s.nn ≡ o
      → Waiting k o
      → WaitsBelow bound k o
      → Falls bound (go_back s)
  unfolding go_back
  go_back-on bound s skind o p q w h = rw (p, go_back) tt
  go_back-on bound s pkind none p q w h = rw (p, q, go_back) tt
  go_back-on bound s pkind (some nn) p q w h =
      rw (p, q, go_back) (param_back-Falls bound (record s { cn = nn; search = s.ns }) w h)
  go_back-on bound s mkind none p q w h = rw (p, q, go_back) tt
  go_back-on bound s mkind (some nn) p q w h =
      rw (p, q, go_back) (match_any-Falls bound (record s { cn = nn; search = s.ns }))

  go_back-Falls : (s : State H E) → Waits s → Falls (measure s) (go_back s)
  go_back-Falls s w =
      go_back-on (measure s) s s.nk s.nn refl refl w (measure-WaitsBelow s s.nk s.nn refl refl)

  static-Falls : (s : State H E) (x : Bytes) → s.search ≡ x → Waits s → Falls (measure s) (static s)
  unfolding static measure reserve
  static-Falls s [] e w = rw (e, static) tt
  static-Falls s (x ∷ t) e w = elim (Option-cases (find_child x skind (children s.cn))) [
    | inl o ↦ rw (e, static) (rw o (param-Falls s w))
    | inr (c, o) ↦ ground (arith, static-size-le x (children s.cn) c o, size_pos s.cn)
  ]

  compare_prefix-Falls : (s : State H E) → Waits s → Falls (measure s) (compare_prefix s)
  unfolding compare_prefix measure reserve
  compare_prefix-Falls s w = elim (Bool-cases (common_length s == prefix_length s)) [
    | inl e ↦ rw e (static-Falls (record s { search = drop (common_length s) s.search }) _ refl w)
    | inr e ↦ rw e (go_back-Falls s w)
  ]

  step_on-Falls : (x : Bytes) (s : State H E) → Waits s → Falls (measure s) (step_on x s)
  unfolding step_on
  step_on-Falls [] s w = tt
  step_on-Falls (x ∷ t) s w = compare_prefix-Falls s w

  measure_pos : (s : State H E) → 0 < measure s
  unfolding measure
  measure_pos s = omega (arith, size_pos s.cn)

  -- What `run` does with the end of a round.
  abbrev pub after : ℕ → Step H E → Run (Outcome H E)
  after fuel t = elim t [ continue s ↦ run fuel s | stop o ↦ done o | panics ↦ panic ]

  run-after :
      (fuel bound : ℕ) (t : Step H E)
      → Falls bound t
      → bound ≤ suc fuel
      → ((s : State H E) → Waits s → measure s ≤ fuel → run fuel s ≢ out_of_fuel)
      → after fuel t ≢ out_of_fuel
  run-after fuel bound (continue s) f h ih = ih s f.0 (omega arith)
  run-after fuel bound (stop o) f h ih = ground arith
  run-after fuel bound panics f h ih = ground arith

  -- The loop ends within as many rounds as the measure of its state.
  run-ends : (fuel : ℕ) (s : State H E) → Waits s → measure s ≤ fuel → run fuel s ≢ out_of_fuel
  unfolding run
  run-ends zero s w h = absurd (omega (arith, measure_pos s))
  run-ends (suc fuel) s w h =
      run-after fuel (measure s) (step s) (step_on-Falls s.search s w) h (run-ends fuel)

  finish-ends :
      (m : Method) (e : E) (cn : Node H E) (pvalues : List Bytes)
      → finish m e cn pvalues ≢ out_of_fuel
  unfolding finish
  finish-ends m e cn pvalues = ground arith

  conclude-ends :
      (e : E) (m : Method) (ctx : Params) (r : Run (Outcome H E))
      → r ≢ out_of_fuel
      → conclude e m ctx r ≢ out_of_fuel
  conclude-ends e m ctx (done (at_end cn pvalues)) h = finish-ends m e cn pvalues
  conclude-ends e m ctx (done (no_match pvalues)) h = ground arith
  conclude-ends e m ctx panic h = ground arith
  conclude-ends e m ctx out_of_fuel h = absurd (h refl)

  -- `Find` ends for every tree, method, path and context: the fuel never runs out.
  pub find-ends :
      (tree : Node H E) (e : E) (m : Method) (path : Bytes) (ctx : Params)
      → find tree e m path ctx ≢ out_of_fuel
  unfolding find measure reserve
  find-ends tree e m path ctx =
      conclude-ends e m ctx (run (size tree) (initial tree path ctx))
        (run-ends (size tree) (initial tree path ctx) tt (omega arith))
