-- ===== src/Modules/Verbs.antt =====
-- Which names of methods make a route in `Module.Router` of core/module.go.
use thinkgo.Base.{
  ◌≡◌, ◌≢◌, ◌↔◌, ◌⊎◌, inl, inr, refl, ap, sym, ◌∙◌, ◌==◌, Bytes, List, [], ◌∷◌, ◌++◌, Option, none,
  some, codes, equal_comm, count, arith, to_upper, lookup, Bool-cases,
}
use thinkgo.Router.Method.{connect, delete, get, head, options, patch, post, put, trace}
use thinkgo.Modules.Names.{snake_string}
use thinkgo.Modules.Actions.{
  Verb, verb, any_verb, socket, cut_last, verb_of, with_pattern, action_from, action_of,
  action_of-append,
}

-- The verbs, by the text in upper case
abbrev pub verbs : List (Bytes × Verb)
verbs =
    (codes "CONNECT", verb connect)
    ∷ (codes "DELETE", verb delete)
    ∷ (codes "GET", verb get)
    ∷ (codes "HEAD", verb head)
    ∷ (codes "OPTIONS", verb options)
    ∷ (codes "PATCH", verb patch)
    ∷ (codes "POST", verb post)
    ∷ (codes "PUT", verb put)
    ∷ (codes "TRACE", verb trace)
    ∷ (codes "ANY", any_verb)
    ∷ (codes "SOCKET", socket)
    ∷ []

verb_of-lookup : (u : Bytes) → verb_of u ≡ lookup u verbs
unfolding verb_of lookup
verb_of-lookup u =
    rw
      (
        equal_comm u (codes "CONNECT"),
        equal_comm u (codes "DELETE"),
        equal_comm u (codes "GET"),
        equal_comm u (codes "HEAD"),
        equal_comm u (codes "OPTIONS"),
        equal_comm u (codes "PATCH"),
        equal_comm u (codes "POST"),
        equal_comm u (codes "PUT"),
        equal_comm u (codes "TRACE"),
        equal_comm u (codes "ANY"),
        equal_comm u (codes "SOCKET"),
      )
      refl

-- The name ends in an underscore and a verb, in any case; the pattern is what stands in front of that, in
-- snake case.
abbrev pub EndsInVerb : Bytes → Bytes → Verb → Type 0
EndsInVerb fname pattern v =
    (p u : Bytes) × (fname ≡ p ++ b'_' ∷ u)
    × (count b'_' u ≡ 0)
    × (pattern ≡ snake_string p)
    × (lookup (to_upper u) verbs ≡ some v)

-- A text has no underscore, or is cut at the last one.
cut_cases :
    (s : Bytes)
    → ((count b'_' s ≡ 0) × (cut_last s ≡ none))
      ⊎ ((p u : Bytes) × (s ≡ p ++ b'_' ∷ u) × (count b'_' u ≡ 0))
unfolding cut_last count
cut_cases [] = inl (refl, refl)
cut_cases (c ∷ s) = elim (cut_cases s) [
  | inr (p, u, e, n) ↦ inr (c ∷ p, u, ap (◌∷◌ c) e, n)
  | inl (n, e) ↦ elim (Bool-cases (c == b'_')) [
    | inl under ↦ inr ([], s, ground (arith, under), n)
    | inr other ↦ inl (ground (arith, other, n), rw (e, other) refl)
  ]
]

with_pattern-some :
    (p pattern : Bytes) (o : Option Verb) (v : Verb)
    → with_pattern p o ≡ some (pattern, v)
    → (pattern ≡ snake_string p) × (o ≡ some v)
with_pattern-some p pattern none v h = cc
with_pattern-some p pattern (some w) v h = (cc h, cc h)

no_action : {x : Bytes × Verb} → none ≢ some x
no_action e = cc

action_of-EndsInVerb :
    (fname pattern : Bytes) (v : Verb)
    → action_of fname ≡ some (pattern, v)
    → EndsInVerb fname pattern v
unfolding action_of
action_of-EndsInVerb fname pattern v h = elim (cut_cases fname) [
  | inl (n, e) ↦ absurd (no_action (sym (ap action_from e) ∙ h))
  | inr (p, u, e, n) ↦
      let cut = sym (action_of-append p u n) ∙ sym (ap action_of e) ∙ h in
      let (q, w) = with_pattern-some p pattern (verb_of (to_upper u)) v cut in
      (p, u, e, n, q, sym (verb_of-lookup (to_upper u)) ∙ w)
]

EndsInVerb-action_of :
    (fname pattern : Bytes) (v : Verb)
    → EndsInVerb fname pattern v
    → action_of fname ≡ some (pattern, v)
EndsInVerb-action_of fname pattern v (p, u, e, n, q, w) =
    ap action_of e
    ∙ action_of-append p u n
    ∙ ap (with_pattern p) (verb_of-lookup (to_upper u) ∙ w)
    ∙ ap (λ z. some (z, v)) (sym q)

pub action_of_iff :
    (fname pattern : Bytes) (v : Verb)
    → (action_of fname ≡ some (pattern, v)) ↔ EndsInVerb fname pattern v
action_of_iff fname pattern v =
    (action_of-EndsInVerb fname pattern v, EndsInVerb-action_of fname pattern v)
