-- ===== src/Router/Shaped.antt =====
-- The shape of the nodes of core/router.go: a colon or a star stands in a prefix of its own, and every
-- other node is static. So the static nodes alone serve every route without parameters.
use thinkgo.Base.{
  ℕ, ◌==◌, ◌&&◌, ◌||◌, ◌≡◌, ◌≢◌, refl, sym, ap, ◌∙◌, inl, inr, Bool, true, false, not, Bytes, [],
  ◌∷◌, ◌++◌, Option, none, some, arith, first, strip, Bool-cases,
}
use thinkgo.Router.Method.{Method, find_handler}
use thinkgo.Router.Tree.{
  Kind, skind, pkind, mkind, same_kind, Info, Node, Nodes, node, nil, cons, info,
}
use thinkgo.Router.Content.{handler_at, handler_below, IsSound, AllSound}
use thinkgo.Router.StaticFirst.{static_at, static_below}

abbrev pub is_mark : ℕ → Bool
is_mark c = c == b':' || c == b'*'

-- A text with no colon and no star
abbrev pub is_plain : Bytes → Bool
is_plain [] = true
is_plain (c ∷ s) = not (is_mark c) && is_plain s

pub is_plain-append : (s t : Bytes) → is_plain (s ++ t) ≡ (is_plain s && is_plain t)
is_plain-append [] t = refl
is_plain-append (c ∷ s) t = ground (arith, is_plain-append s t)

pub strip-some : (p k r : Bytes) → strip p k ≡ some r → k ≡ p ++ r
unfolding strip
strip-some [] k r h = ground arith
strip-some (c ∷ p) [] r h = cc
strip-some (c ∷ p) (d ∷ k) r h = ground (arith, strip-some p k r)

-- The mark of a kind of nodes
abbrev pub marks : Kind → ℕ → Bool
marks skind c = false
marks pkind c = c == b':'
marks mkind c = c == b'*'

abbrev pub is_alone : Kind → Bytes → Bool
is_alone t [] = false
is_alone t (c ∷ []) = marks t c
is_alone t (c ∷ d ∷ s) = false

-- The prefix is the mark of the kind, or the node is static and its prefix has no mark.
abbrev pub is_piece : Kind → Bytes → Bool
is_piece t s = is_alone t s || (same_kind t skind && is_plain s)

plain_first : (p : Bytes) → p ≢ [] → is_plain p ≡ true → is_mark (first p) ≡ false
plain_first [] ne h = absurd (ne refl)
plain_first (c ∷ p) ne h = ground arith

static_prefix :
    (k : Kind) (p : Bytes) → is_piece k p ≡ true → p ≢ [] → is_mark (first p) ≡ false → k ≡ skind
static_prefix k [] f ne h = absurd (ne refl)
static_prefix skind (c ∷ p) f ne h = refl
static_prefix pkind (c ∷ []) f ne h = ground arith
static_prefix mkind (c ∷ []) f ne h = ground arith
static_prefix k (c ∷ d ∷ p) f ne h = ground arith

module _ {H E : Type 0} where
  abbrev pub fits : Info H E → Bool
  fits i = is_piece i.kind i.prefix

  abbrev mutual
    pub IsShaped : Node H E → Type 0
    IsShaped (node i cs) = (fits i ≡ true) × AllShaped cs

    pub AllShaped : Nodes H E → Type 0
    AllShaped nil = Unit
    AllShaped (cons c cs) = IsShaped c × AllShaped cs

  -- A node that answers a plain key that starts with its label is static.
  pub static_kind :
      (i : Info H E)
      → fits i ≡ true
      → i.label ≡ first i.prefix
      → i.prefix ≢ []
      → is_mark i.label ≡ false
      → i.kind ≡ skind
  static_kind i f l ne p = static_prefix i.kind i.prefix f ne (ap is_mark (sym l) ∙ p)

  pub plain_label :
      (i : Info H E) (key r : Bytes)
      → i.label ≡ first i.prefix
      → i.prefix ≢ []
      → strip i.prefix key ≡ some r
      → is_plain key ≡ true
      → (is_mark i.label ≡ false) × (is_plain r ≡ true)
  plain_label i key r l ne o p =
      let split : is_plain (i.prefix ++ r) ≡ true =
        ap is_plain (sym (strip-some i.prefix key r o)) ∙ p in
      let both : (is_plain i.prefix && is_plain r) ≡ true =
        sym (is_plain-append i.prefix r) ∙ split in
      (ap is_mark l ∙ plain_first i.prefix ne (ground (arith, both)), ground (arith, both))

  -- A static node with this handler is found at the key.
  abbrev Reached : Method → H → Option (Node H E) → Type 0
  Reached m h o = (d : Node H E) × (o ≡ some d) × (find_handler m (info d).handlers ≡ some h)

  at_rest :
      (m : Method) (key : Bytes) (i : Info H E) (cs : Nodes H E) (h : H)
      → i.label ≡ first i.prefix
      → i.prefix ≢ []
      → is_plain key ≡ true
      → handler_at m key (node i cs) ≡ some h
      → ((c : ℕ) (r : Bytes)
          → is_plain (c ∷ r) ≡ true
          → handler_below m (c ∷ r) cs ≡ some h
          → Reached m h (static_below (c ∷ r) cs))
      → (o : Option Bytes) → strip i.prefix key ≡ o
      → Reached m h (static_at key (node i cs))
  unfolding handler_at static_at
  at_rest m key i cs h l ne p e below none o = absurd (ground (arith, o, e))
  at_rest m key i cs h l ne p e below (some []) o =
      let (mark, _) = plain_label i key [] l ne o p in
      (node i cs, ground (arith, o, mark), ground (arith, o, e))
  at_rest m key i cs h l ne p e below (some (c ∷ r)) o =
      let (mark, q) = plain_label i key (c ∷ r) l ne o p in
      let (d, a, f) = below c r q (ground (arith, o, e)) in (d, ground (arith, o, mark, a), f)

  -- The node that a key with a handler leads to is found by static nodes, if the key is plain.
  mutual
    unfolding handler_at static_at

    pub handler_at-static_at :
        (m : Method) (key : Bytes) (n : Node H E) (h : H)
        → IsSound n
        → IsShaped n
        → is_plain key ≡ true
        → handler_at m key n ≡ some h
        → Reached m h (static_at key n)
    handler_at-static_at m key (node i cs) h (l, ne, s) (f, k) p e =
        at_rest m key i cs h l ne p e (λ c r. handler_below-static_below m c r cs h s k)
          (strip i.prefix key) refl

    handler_below-static_below :
        (m : Method) (c : ℕ) (key : Bytes) (cs : Nodes H E) (h : H)
        → AllSound cs
        → AllShaped cs
        → is_plain (c ∷ key) ≡ true
        → handler_below m (c ∷ key) cs ≡ some h
        → Reached m h (static_below (c ∷ key) cs)
    handler_below-static_below m c key nil h s k p e = cc
    handler_below-static_below m c key (cons (node i ds) cs) h ((l, ne, s), ss) ((f, k), ks) p e =
        elim (Bool-cases (i.label == c)) [
          | inl here ↦
              let mark : is_mark i.label ≡ false = ground (arith, here, p) in
              let kind = static_kind i f l ne mark in
              let (d, a, g) =
                handler_at-static_at m (c ∷ key) (node i ds) h (l, ne, s) (f, k) p (rw here at e) in
              (d, rw here (rw kind a), g)
          | inr later ↦
              let (d, a, g) = handler_below-static_below m c key cs h ss ks p (rw later at e) in
              (d, rw later a, g)
        ]
