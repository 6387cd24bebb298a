-- ===== src/Router/Find.antt =====
-- core/router.go: `Router.Find` and `check405`. The loop with its labels is a round, `step`, on the
-- local variables, iterated by `run`; the labels Param and MatchAny are functions. The fuel of `run`
-- counts rounds; the number of nodes is enough.
use thinkgo.Base.{
  ℕ, zero, suc, ◌+◌, ◌==◌, if◌then◌else◌, Bytes, List, [], ◌∷◌, Option, none, some, length, drop,
  store, lcp,
}
use thinkgo.Router.Method.{Method, methods, find_handler, any_handler}
use thinkgo.Router.Tree.{
  Kind, skind, pkind, mkind, Node, Nodes, node, nil, cons, info, children, label_of, find_child,
  find_child_by_kind,
}

-- A handler that `Find` returns: one of a node, `notFoundHandler` or `methodNotAllowedHandler`.
pub data Handler (H : Type 0) : Type 0 where
  registered : H → Handler H
  not_found method_not_allowed : Handler H

-- The fields of `Context` that `Find` writes.
pub record Params : Type 0 where
  pub path : Bytes
  pub pnames : List Bytes
  pub pvalues : List Bytes

-- What a call ends with. `panic` is an index out of range or a nil dereference.
pub data Run (A : Type 0) : Type 0 where
  done : A → Run A
  panic out_of_fuel : Run A

-- The loop's variables: `search`, `cn`, `n`, `nk`, `nn`, `ns`, and the context's `pvalues`.
pub record State (H E : Type 0) : Type 0 where
  pub search : Bytes
  pub cn : Node H E
  pub n : ℕ
  pub nk : Kind
  pub nn : Option (Node H E)
  pub ns : Bytes
  pub pvalues : List Bytes

-- How the loop ends: at the label End with a node, or with the return for no match. Both come with
-- `pvalues`.
pub data Outcome (H E : Type 0) : Type 0 where
  at_end : Node H E → List Bytes → Outcome H E
  no_match : List Bytes → Outcome H E

-- How a round ends.
pub data Step (H E : Type 0) : Type 0 where
  continue : State H E → Step H E
  stop : Outcome H E → Step H E
  panics : Step H E

-- The handler and the Echo that `Find` returns, and the context it leaves.
pub record Found (H E : Type 0) : Type 0 where
  pub handler : Handler H
  pub echo : E
  pub context : Params

-- `search[:i]` and `search[i:]` for the first slash `i` of a text.
unfoldable pub segment : Bytes → Bytes
segment [] = []
segment (c ∷ s) = if c == b'/' then [] else c ∷ segment s

unfoldable pub after_segment : Bytes → Bytes
after_segment [] = []
after_segment (c ∷ s) = if c == b'/' then c ∷ s else after_segment s

-- `pvalues[len(pnames)-1] = v`: with no name the index is negative.
unfoldable pub store_last : List Bytes → Bytes → List Bytes → Option (List Bytes)
store_last [] v pvalues = none
store_last (_ ∷ names) v pvalues = store pvalues (length names) v

module _ {H E : Type 0} where
  -- "Save next", when the current node's label is a slash
  abbrev pub save : Kind → State H E → State H E
  save k s = if label_of s.cn == b'/' then record s { nk = k; nn = some s.cn; ns = s.search } else s

  -- The label MatchAny
  unfoldable pub match_any : State H E → Step H E
  match_any s = elim (find_child_by_kind mkind (children s.cn)) [
    | none ↦ stop (no_match s.pvalues)
    | some c ↦ elim (store_last (info c).pnames s.search s.pvalues) [
      | none ↦ panics
      | some pvalues ↦ stop (at_end c pvalues)
    ]
  ]

  -- The label Param
  unfoldable pub param : State H E → Step H E
  unfolding match_any
  param s = elim (find_child_by_kind pkind (children s.cn)) [
    | none ↦ match_any s
    | some c ↦ elim (store s.pvalues s.n (segment s.search)) [
      | none ↦ panics
      | some pvalues ↦ continue (record (save mkind s) {
        cn = c;
        n = s.n + 1;
        search = after_segment s.search;
        pvalues = pvalues;
      })
    ]
  ]

  -- The branch of a prefix that does not match: back to the saved node, at its label.
  unfoldable pub go_back : State H E → Step H E
  unfolding param match_any
  go_back s = elim s.nk [
    | skind ↦ stop (no_match s.pvalues)
    | pkind ↦ elim s.nn [ none ↦ panics | some nn ↦ param (record s { cn = nn; search = s.ns }) ]
    | mkind ↦ elim s.nn [
      | none ↦ panics
      | some nn ↦ match_any (record s { cn = nn; search = s.ns })
    ]
  ]

  -- "Static node", once the prefix is passed
  unfoldable pub static : State H E → Step H E
  unfolding param
  static s = elim s.search [
    | [] ↦ stop (at_end s.cn s.pvalues)
    | x ∷ _ ↦ elim (find_child x skind (children s.cn)) [
      | some c ↦ continue (record (save pkind s) { cn = c })
      | none ↦ param s
    ]
  ]

  -- `pl` and `l`: both stay 0 at a node with the label ':', which is passed with no comparison.
  unfoldable pub prefix_length : State H E → ℕ
  prefix_length s = if label_of s.cn == b':' then 0 else length (info s.cn).prefix

  unfoldable pub common_length : State H E → ℕ
  common_length s = if label_of s.cn == b':' then 0 else lcp s.search (info s.cn).prefix

  -- From the comparison with the prefix to the end of the round
  unfoldable pub compare_prefix : State H E → Step H E
  unfolding static go_back prefix_length common_length
  compare_prefix s =
      if common_length s == prefix_length s
      then static (record s { search = drop (common_length s) s.search })
      else go_back s

  -- A round of the loop, by its first test, `search == ""`
  unfoldable pub step_on : Bytes → State H E → Step H E
  unfolding compare_prefix
  step_on [] s = stop (at_end s.cn s.pvalues)
  step_on (_ ∷ _) s = compare_prefix s

  abbrev pub step : State H E → Step H E
  step s = step_on s.search s

  -- The loop
  unfoldable pub run : ℕ → State H E → Run (Outcome H E)
  run zero s = out_of_fuel
  run (suc fuel) s = elim (step s) [ continue s' ↦ run fuel s' | stop o ↦ done o | panics ↦ panic ]

  -- `check405`
  unfoldable pub check405 : Node H E → Handler H
  check405 cn = if any_handler methods (info cn).handlers then method_not_allowed else not_found

  -- `h = cn.findHandler(method)`, with `check405` where that is nil
  unfoldable pub handler_or_405 : Method → Node H E → Handler H
  unfolding check405
  handler_or_405 m cn = elim (find_handler m (info cn).handlers) [
    | some h ↦ registered h
    | none ↦ check405 cn
  ]

  abbrev pub echo_or : E → Node H E → E
  echo_or e cn = elim (info cn).echo [ some e' ↦ e' | none ↦ e ]

  abbrev pub found_at : E → Node H E → Handler H → List Bytes → Found H E
  found_at e cn h pvalues = record {
    handler = h;
    echo = echo_or e cn;
    context = record { path = (info cn).ppath; pnames = (info cn).pnames; pvalues = pvalues };
  }

  -- The label End: the handler of the node, or else that of its match-any child, with an empty value.
  unfoldable pub finish : Method → E → Node H E → List Bytes → Run (Found H E)
  unfolding handler_or_405 store_last
  finish m e cn pvalues = elim (find_handler m (info cn).handlers) [
    | some h ↦ done (found_at e cn (registered h) pvalues)
    | none ↦ elim (find_child_by_kind mkind (children cn)) [
      | none ↦ done (found_at e cn (check405 cn) pvalues)
      | some c ↦ elim (store_last (info c).pnames [] pvalues) [
        | none ↦ panic
        | some vs ↦ done (found_at e cn (handler_or_405 m c) vs)
      ]
    ]
  ]

  unfoldable mutual
    pub size : Node H E → ℕ
    size (node i cs) = suc (sizes cs)

    pub sizes : Nodes H E → ℕ
    sizes nil = 0
    sizes (cons c cs) = size c + sizes cs

  abbrev pub initial : Node H E → Bytes → Params → State H E
  initial tree path ctx = record {
    search = path;
    cn = tree;
    n = 0;
    nk = skind;
    nn = none;
    ns = [];
    pvalues = ctx.pvalues;
  }

  -- The returns of `Find` at the end of its loop
  abbrev pub conclude : E → Method → Params → Run (Outcome H E) → Run (Found H E)
  conclude e m ctx (done (at_end cn pvalues)) = finish m e cn pvalues
  conclude e m ctx (done (no_match pvalues)) =
      done (record { handler = not_found; echo = e; context = record ctx { pvalues = pvalues } })
  conclude e m ctx panic = panic
  conclude e m ctx out_of_fuel = out_of_fuel

  -- `Find` on the tree of a router whose own Echo is `e`
  unfoldable pub find : Node H E → E → Method → Bytes → Params → Run (Found H E)
  unfolding run size finish step_on
  find tree e m path ctx = conclude e m ctx (run (size tree) (initial tree path ctx))
