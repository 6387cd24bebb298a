-- ===== src/Router/Invariant.antt =====
-- What every round of the loop of `Find` in core/router.go keeps: it stays in the tree, and the slice
-- of values keeps its length.
use thinkgo.Base.{
  ℕ, zero, suc, ◌==◌, ◌≡◌, refl, ◌∙◌, subst, ◌⊎◌, Bytes, List, [], ◌∷◌, Option, none, some, arith,
  Option-cases, Bool-cases, inl, inr, length, store, drop,
}
use thinkgo.Router.Tree.{
  Kind, skind, pkind, mkind, Node, Nodes, nil, cons, info, children, label_of, find_child,
  find_child_by_kind,
}
use thinkgo.Router.Terminates.{after}
use thinkgo.Router.Find.{
  State, Outcome, Step, continue, stop, panics, at_end, no_match, compare_prefix, common_length,
  prefix_length, save, static, go_back, param, match_any, step_on, store_last, segment, run, done,
}

length-store :
    {A : Type 0} (xs : List A) (i : ℕ) (v : A) (ys : List A)
    → store xs i v ≡ some ys
    → length ys ≡ length xs
length-store [] i v ys h = cc
length-store (x ∷ xs) zero v ys h = ground arith
length-store (x ∷ xs) (suc i) v ys h = elim (Option-cases (store xs i v)) [
  | inl e ↦ ground arith
  | inr (zs, e) ↦ ground (arith, length-store xs i v zs e)
]

pub length-store_last :
    (names : List Bytes) (v : Bytes) (xs ys : List Bytes)
    → store_last names v xs ≡ some ys
    → length ys ≡ length xs
unfolding store_last
length-store_last [] v xs ys h = cc
length-store_last (_ ∷ names) v xs ys h = length-store xs (length names) v ys h

module _ {H E : Type 0} where
  abbrev pub Among : Node H E → Nodes H E → Type 0
  Among d nil = ⊥
  Among d (cons c cs) = (d ≡ c) ⊎ Among d cs

  -- The nodes of a tree.
  pub data InTree (tree : Node H E) : Node H E → Type 0 where
    root : InTree tree tree
    child : {n d : Node H E} → InTree tree n → Among d (children n) → InTree tree d

  find_child-Among :
      (x : ℕ) (t : Kind) (cs : Nodes H E) (d : Node H E) → find_child x t cs ≡ some d → Among d cs
  unfolding find_child
  find_child-Among x t nil d h = cc
  find_child-Among x t (cons c cs) d h = ground (arith, find_child-Among x t cs d)

  pub find_child_by_kind-Among :
      (t : Kind) (cs : Nodes H E) (d : Node H E) → find_child_by_kind t cs ≡ some d → Among d cs
  unfolding find_child_by_kind
  find_child_by_kind-Among t nil d h = cc
  find_child_by_kind-Among t (cons c cs) d h = ground (arith, find_child_by_kind-Among t cs d)

  module _ (tree : Node H E) (k : ℕ) where
    abbrev Saved : Option (Node H E) → Type 0
    Saved none = Unit
    Saved (some nn) = InTree tree nn

    pub record IsInside (s : State H E) : Type 0 where
      pub cn_inside : InTree tree s.cn
      pub nn_inside : Saved s.nn
      pub values : length s.pvalues ≡ k

    abbrev pub Ends : Outcome H E → Type 0
    Ends (at_end cn pvalues) = InTree tree cn × (length pvalues ≡ k)
    Ends (no_match pvalues) = length pvalues ≡ k

    abbrev Keeps : Step H E → Type 0
    Keeps (continue s) = IsInside s
    Keeps (stop o) = Ends o
    Keeps panics = Unit

    save-IsInside : (t : Kind) (s : State H E) → IsInside s → IsInside (save t s)
    save-IsInside t s h = elim (Bool-cases (label_of s.cn == b'/')) [
      | inl e ↦
          rw e (record { cn_inside = h.cn_inside; nn_inside = h.cn_inside; values = h.values })
      | inr e ↦ rw e h
    ]

    match_any-Keeps : (s : State H E) → IsInside s → Keeps (match_any s)
    unfolding match_any
    match_any-Keeps s h = elim (Option-cases (find_child_by_kind mkind (children s.cn))) [
      | inl e ↦ rw (e, match_any) h.values
      | inr (c, e) ↦ elim (Option-cases (store_last (info c).pnames s.search s.pvalues)) [
        | inl o ↦ rw (e, match_any) (rw o tt)
        | inr (vs, o) ↦
            rw (e, match_any)
              (rw o (
                child h.cn_inside (find_child_by_kind-Among mkind (children s.cn) c e),
                length-store_last (info c).pnames s.search s.pvalues vs o ∙ h.values,
              ))
      ]
    ]

    param-Keeps : (s : State H E) → IsInside s → Keeps (param s)
    unfolding param
    param-Keeps s h = elim (Option-cases (find_child_by_kind pkind (children s.cn))) [
      | inl e ↦ rw (e, param) (match_any-Keeps s h)
      | inr (c, e) ↦ elim (Option-cases (store s.pvalues s.n (segment s.search))) [
        | inl o ↦ rw (e, param) (rw o tt)
        | inr (vs, o) ↦
            rw (e, param)
              (rw o (record {
                cn_inside = child h.cn_inside (find_child_by_kind-Among pkind (children s.cn) c e);
                nn_inside = (save-IsInside mkind s h).nn_inside;
                values = length-store s.pvalues s.n (segment s.search) vs o ∙ h.values;
              }))
      ]
    ]

    go_back-Keeps :
        (t : Kind) (o : Option (Node H E)) (s : State H E)
        → s.nk ≡ t
        → s.nn ≡ o
        → Saved o
        → IsInside s
        → Keeps (go_back s)
    unfolding go_back
    go_back-Keeps skind o s p q w h = rw (p, go_back) h.values
    go_back-Keeps pkind none s p q w h = rw (p, q, go_back) tt
    go_back-Keeps mkind none s p q w h = rw (p, q, go_back) tt
    go_back-Keeps pkind (some nn) s p q w h =
        rw (p, q, go_back)
          (param-Keeps (record s { cn = nn; search = s.ns })
            (record { cn_inside = w; nn_inside = h.nn_inside; values = h.values }))
    go_back-Keeps mkind (some nn) s p q w h =
        rw (p, q, go_back)
          (match_any-Keeps (record s { cn = nn; search = s.ns })
            (record { cn_inside = w; nn_inside = h.nn_inside; values = h.values }))

    static-Keeps :
        (rest : Bytes) (s : State H E) → IsInside s → Keeps (static (record s { search = rest }))
    unfolding static
    static-Keeps [] s h = (h.cn_inside, h.values)
    static-Keeps (c ∷ r) s h =
        let h1 : IsInside (record s { search = c ∷ r }) = record {
          cn_inside = h.cn_inside;
          nn_inside = h.nn_inside;
          values = h.values;
        } in
        let k = save-IsInside pkind (record s { search = c ∷ r }) h1 in
        elim (Option-cases (find_child c skind (children s.cn))) [
          | inl e ↦ rw (e, static) (param-Keeps (record s { search = c ∷ r }) h1)
          | inr (d, e) ↦
              rw (e, static)
                (record {
                  cn_inside = child h.cn_inside (find_child-Among c skind (children s.cn) d e);
                  nn_inside = k.nn_inside;
                  values = k.values;
                })
        ]

    step_on-Keeps : (x : Bytes) (s : State H E) → IsInside s → Keeps (step_on x s)
    unfolding step_on compare_prefix
    step_on-Keeps [] s h = (h.cn_inside, h.values)
    step_on-Keeps (x ∷ t) s h = elim (Bool-cases (common_length s == prefix_length s)) [
      | inl e ↦ rw e (static-Keeps (drop (common_length s) s.search) s h)
      | inr e ↦ rw e (go_back-Keeps s.nk s.nn s refl refl h.nn_inside h)
    ]

    after-Ends :
        (fuel : ℕ) (t : Step H E) (o : Outcome H E)
        → Keeps t
        → ((s : State H E) → IsInside s → run fuel s ≡ done o → Ends o)
        → after fuel t ≡ done o
        → Ends o
    after-Ends fuel (continue s) o h ih e = ih s h e
    after-Ends fuel (stop o') o h ih e = subst Ends (cc) h
    after-Ends fuel panics o h ih e = cc

    pub run-Ends :
        (fuel : ℕ) (s : State H E) (o : Outcome H E) → IsInside s → run fuel s ≡ done o → Ends o
    unfolding run
    run-Ends zero s o h e = cc
    run-Ends (suc fuel) s o h e =
        after-Ends fuel (step_on s.search s) o (step_on-Keeps s.search s h)
          (λ s' h'. run-Ends fuel s' o h') e
