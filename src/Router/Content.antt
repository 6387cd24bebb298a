-- ===== src/Router/Content.antt =====
-- The tree of core/router.go as a map: the handler that is registered for a method at a key, where
-- the key of a node is the text of the prefixes on the way to it.
use thinkgo.Base.{
  ◌<◌, Bool, true, false, ◌&&◌, ◌==◌, ◌≡◌, ◌≢◌, refl, sym, ◌∙◌, lcp_pos, if◌then◌else◌, Bytes, [],
  ◌∷◌, Option, none, some, first, strip, lcp, arith,
}
use thinkgo.Router.Method.{
  Method, connect, other, MethodHandler, no_handlers, same, add_handler, find_handler,
}
use thinkgo.Router.Tree.{Node, Nodes, node, nil, cons, label_of, info}
use thinkgo.Router.Insert.{Write}

-- The methods that the switches of `addHandler` and `findHandler` name.
abbrev pub is_known : Method → Bool
is_known (other _) = false
is_known _ = true

pub find_handler-add_handler :
    {H : Type 0} (m m' : Method) (h : Option H) (hs : MethodHandler H)
    → find_handler m (add_handler m' h hs)
      ≡ (if is_known m && same m m' then h else find_handler m hs)
unfolding find_handler add_handler same
find_handler-add_handler connect connect h hs = refl
find_handler-add_handler _ _ h hs = ground arith

pub find_handler-no_handlers : {H : Type 0} (m : Method) → find_handler {H = H} m no_handlers ≡ none
unfolding find_handler
find_handler-no_handlers connect = refl
find_handler-no_handlers _ = refl

module _ {H E : Type 0} where
  unfoldable mutual
    pub handler_at : Method → Bytes → Node H E → Option H
    handler_at m key (node i cs) = elim (strip i.prefix key) [
      | none ↦ none
      | some rest ↦ elim rest [
        | [] ↦ find_handler m i.handlers
        | c ∷ r ↦ handler_below m (c ∷ r) cs
      ]
    ]

    pub handler_below : Method → Bytes → Nodes H E → Option H
    handler_below m key nil = none
    handler_below m key (cons c cs) =
        if label_of c == first key then handler_at m key c else handler_below m key cs

  -- What a write does to the handler of its own key.
  abbrev pub written : Write H E → Method → Option H → Option H
  written w m old = elim w.handler [
    | none ↦ old
    | some h ↦ if is_known m && same m w.method then some h else old
  ]

  abbrev mutual
    pub IsSound : Node H E → Type 0
    IsSound (node i cs) = (i.label ≡ first i.prefix) × (i.prefix ≢ []) × AllSound cs

    pub AllSound : Nodes H E → Type 0
    AllSound nil = Unit
    AllSound (cons c cs) = IsSound c × AllSound cs

  pub IsSound-label : (n : Node H E) → IsSound n → label_of n ≡ first (info n).prefix
  IsSound-label (node i cs) h = h.0

  -- A search that starts with the label of a sound node shares a byte with its prefix.
  pub IsSound-lcp :
      (n : Node H E) (search : Bytes)
      → IsSound n
      → search ≢ []
      → label_of n ≡ first search
      → 0 < lcp search (info n).prefix
  IsSound-lcp (node i cs) search h ne e = lcp_pos search i.prefix ne h.1 (sym e ∙ h.0)
