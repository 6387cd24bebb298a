-- ===== src/Router/Match.antt =====
-- A path that a route of core/router.go matches, byte by byte and segment by segment, where no other
-- route competes: the nodes that `Find` goes through.
use thinkgo.Base.{
  ℕ, true, false, ◌==◌, ◌&&◌, ◌≡◌, ◌≢◌, refl, ap, sym, ◌∙◌, subst, inl, inr, Bytes, List, [], ◌∷◌,
  ◌++◌, none, some, arith, first, append_assoc, append-nil, Bool-cases,
}
use thinkgo.Router.Method.{Method}
use thinkgo.Router.Tree.{
  Kind, skind, pkind, mkind, same_kind, Node, Nodes, node, nil, cons, label_of, find_child,
  find_child_by_kind, find_child_with_label,
}
use thinkgo.Router.Content.{handler_at, handler_below, IsSound, AllSound}
use thinkgo.Router.Shaped.{is_mark, is_plain, marks, is_piece, IsShaped, AllShaped, static_kind}
use thinkgo.Router.Entries.{NodeEntry, entry_at, entry_below}
use thinkgo.Router.Keys.{IsClosed, HasKeys, AllKeys}
use thinkgo.Router.Find.{segment, after_segment}

-- `Matches p k s t vs`: behind the text `k`, the path `t` matches the shape `s` with the values `vs`, and
-- where a parameter takes a segment, no text of the predicate goes on with the byte there; where a star
-- takes the rest, none goes on with a parameter either.
pub data Matches (p : Bytes → Type 0) : Bytes → Bytes → Bytes → List Bytes → Type 0 where
  stop : {k : Bytes} → Matches p k [] [] []
  byte :
      {k s t : Bytes} {c : ℕ} {vs : List Bytes}
      → is_mark c ≡ false
      → Matches p (k ++ (c ∷ [])) s t vs
      → Matches p k (c ∷ s) (c ∷ t) vs
  parameter :
      {k s t : Bytes} {c : ℕ} {vs : List Bytes}
      → ¬ p (k ++ (c ∷ []))
      → Matches p (k ++ (b':' ∷ [])) s (after_segment (c ∷ t)) vs
      → Matches p k (b':' ∷ s) (c ∷ t) (segment (c ∷ t) ∷ vs)
  star :
      {k s t : Bytes} {c : ℕ}
      → s ≡ []
      → ¬ p (k ++ (c ∷ []))
      → ¬ p (k ++ (b':' ∷ []))
      → Matches p k (b'*' ∷ s) (c ∷ t) ((c ∷ t) ∷ [])

module _ (p : Bytes → Type 0) where
  -- Plain text of the shape is text of the path.
  pub peel :
      (q k s t : Bytes) (vs : List Bytes)
      → is_plain q ≡ true
      → Matches p k (q ++ s) t vs
      → (t' : Bytes) × (t ≡ q ++ t') × Matches p (k ++ q) s t' vs
  peel [] k s t vs h x = (t, refl, subst (λ z. Matches p z s t vs) (sym (append-nil k)) x)
  peel (c ∷ q) k s _ vs h (byte {t = t} m x) =
      let (t', e, y) = peel q (k ++ (c ∷ [])) s t vs (ground arith) x in
      (t', ap (λ z. c ∷ z) e, subst (λ z. Matches p z s t' vs) (append_assoc k (c ∷ []) q) y)
  peel (_ ∷ q) k s _ _ h (parameter n x) = cc
  peel (_ ∷ q) k s _ _ h (star z n x) = cc

-- The piece that starts with the mark of a kind is that mark, and of that kind.
piece_kind :
    (t u : Kind) (c : ℕ) (s : Bytes)
    → marks t c ≡ true
    → is_piece u (c ∷ s) ≡ true
    → (u ≡ t) × (s ≡ [])
piece_kind skind u c s m h = cc
piece_kind pkind skind c [] m h = absurd (ground arith)
piece_kind pkind pkind c [] m h = (refl, refl)
piece_kind pkind mkind c [] m h = absurd (ground arith)
piece_kind mkind skind c [] m h = absurd (ground arith)
piece_kind mkind pkind c [] m h = absurd (ground arith)
piece_kind mkind mkind c [] m h = (refl, refl)
piece_kind t u c (d ∷ s) m h = absurd (ground arith)

-- A node of the kind has its mark.
kind_mark :
    (t u : Kind) (c : ℕ) (s : Bytes)
    → marks t c ≡ true
    → same_kind u t ≡ true
    → is_piece u s ≡ true
    → first s ≡ c
kind_mark skind u c s m k h = cc
kind_mark pkind pkind c (d ∷ []) m k h = ground arith
kind_mark pkind skind c (d ∷ []) m k h = cc
kind_mark pkind mkind c (d ∷ []) m k h = cc
kind_mark mkind mkind c (d ∷ []) m k h = ground arith
kind_mark mkind skind c (d ∷ []) m k h = cc
kind_mark mkind pkind c (d ∷ []) m k h = cc
kind_mark t u c (d ∷ e ∷ s) m k h = absurd (ground arith)
kind_mark t u c [] m k h = absurd (ground arith)

-- A text of a closed predicate starts with a text of it.
starts :
    (q : Bytes → Type 0)
    → IsClosed q
    → (s : Bytes) (c : ℕ) → s ≢ []
    → first s ≡ c
    → q s
    → q (c ∷ [])
starts q cl [] c ne e h = absurd (ne refl)
starts q cl (d ∷ s) c ne e h = subst (λ z. q (z ∷ [])) e (cl (d ∷ []) s h)

same_itself : (t : Kind) → same_kind t t ≡ true
same_itself skind = refl
same_itself pkind = refl
same_itself mkind = refl

-- A child with the mark of a kind as its label is that mark.
pub label_piece :
    (t u : Kind) (c : ℕ) (s : Bytes)
    → marks t c ≡ true
    → s ≢ []
    → first s ≡ c
    → is_piece u s ≡ true
    → (u ≡ t) × (s ≡ c ∷ [])
label_piece t u c [] m ne e h = absurd (ne refl)
label_piece t u c (d ∷ s) m ne e h =
    let (x, y) = piece_kind t u d s (ap (marks t) e ∙ m) h in (x, cc (e, y))

module _ {H E : Type 0} where
  -- What `find_child_with_label` leads to has what all children have.
  pub pick :
      (m : Method) (q : Bytes → Type 0) (c : ℕ) (s : Bytes) (cs : Nodes H E) (o : NodeEntry E)
      (h : H)
      → AllSound cs
      → AllShaped cs
      → AllKeys q cs
      → entry_below (c ∷ s) cs ≡ some o
      → handler_below m (c ∷ s) cs ≡ some h
      → (d : Node H E) × (find_child_with_label c cs ≡ some d)
        × (label_of d ≡ c)
        × IsSound d
        × IsShaped d
        × HasKeys q d
        × (entry_at (c ∷ s) d ≡ some o)
        × (handler_at m (c ∷ s) d ≡ some h)
  unfolding find_child_with_label entry_at handler_at
  pick m q c s nil o h a b k e f = cc
  pick m q c s (cons d cs) o h (a, ss) (b, bs) (k, ks) e f = elim (Bool-cases (label_of d == c)) [
    | inl y ↦ (d, rw y refl, ground arith, a, b, k, rw y at e, rw y at f)
    | inr y ↦
        let (d', x, l, a', b', k', e', f') = pick m q c s cs o h ss bs ks (rw y at e) (rw y at f) in
        (d', rw y x, l, a', b', k', e', f')
  ]

  -- The child with a label that is no mark is the static child.
  pub static_child :
      (c : ℕ) (cs : Nodes H E) (d : Node H E)
      → AllSound cs
      → AllShaped cs
      → is_mark c ≡ false
      → find_child_with_label c cs ≡ some d
      → find_child c skind cs ≡ some d
  unfolding find_child_with_label find_child
  static_child c nil d a b m e = cc
  static_child c (cons (node i ds) cs) d ((l, ne, _), ss) ((b, _), bs) m e =
      elim (Bool-cases (i.label == c)) [
        | inl y ↦
            let kind : i.kind ≡ skind = static_kind i b l ne (ground arith) in
            let both : (i.label == c && same_kind i.kind skind) ≡ true = rw (y, kind) refl in
            rw both (rw y at e)
        | inr y ↦ rw y (static_child c cs d ss bs m (rw y at e))
      ]

  -- The child with the mark of a kind as its label is the child of that kind.
  pub kind_child :
      (t : Kind) (c : ℕ) (cs : Nodes H E) (d : Node H E)
      → AllSound cs
      → AllShaped cs
      → marks t c ≡ true
      → find_child_with_label c cs ≡ some d
      → find_child_by_kind t cs ≡ some d
  unfolding find_child_with_label find_child_by_kind
  kind_child t c nil d a b m e = cc
  kind_child t c (cons (node i ds) cs) d ((l, ne, _), ss) ((b, _), bs) m e =
      elim (Bool-cases (i.label == c)) [
        | inl y ↦
            let kind : i.kind ≡ t = (label_piece t i.kind c i.prefix m ne (ground arith) b).0 in
            let own : same_kind i.kind t ≡ true = rw kind (same_itself t) in rw own (rw y at e)
        | inr y ↦
            let other : same_kind i.kind t ≡ false = elim (Bool-cases (same_kind i.kind t)) [
              | inl z ↦ absurd (ground (arith, kind_mark t i.kind c i.prefix m z b))
              | inr z ↦ z
            ] in
            rw other (kind_child t c cs d ss bs m (rw y at e))
      ]

  -- No static child, where none of the texts goes on with the byte
  pub no_static :
      (q : Bytes → Type 0) (c : ℕ) (cs : Nodes H E)
      → IsClosed q
      → AllSound cs
      → AllKeys q cs
      → ¬ q (c ∷ [])
      → find_child c skind cs ≡ none
  unfolding find_child
  no_static q c nil cl a k n = refl
  no_static q c (cons (node i ds) cs) cl ((l, ne, _), ss) ((k, _), ks) n =
      elim (Bool-cases (i.label == c)) [
        | inl y ↦ absurd (n (starts q cl i.prefix c ne (ground arith) k))
        | inr y ↦ rw y (no_static q c cs cl ss ks n)
      ]

  pub no_kind :
      (q : Bytes → Type 0) (t : Kind) (c : ℕ) (cs : Nodes H E)
      → IsClosed q
      → AllSound cs
      → AllShaped cs
      → AllKeys q cs
      → marks t c ≡ true
      → ¬ q (c ∷ [])
      → find_child_by_kind t cs ≡ none
  unfolding find_child_by_kind
  no_kind q t c nil cl a b k m n = refl
  no_kind q t c (cons (node i ds) cs) cl ((l, ne, _), ss) ((b, _), bs) ((k, _), ks) m n =
      elim (Bool-cases (same_kind i.kind t)) [
        | inl y ↦ absurd (n (starts q cl i.prefix c ne (kind_mark t i.kind c i.prefix m y b) k))
        | inr y ↦ rw y (no_kind q t c cs cl ss bs ks m n)
      ]
