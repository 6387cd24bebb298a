-- ===== src/Base/TextLaws.antt =====
-- Laws of the text functions.
use Prim.Native.Nat.{ℕ, suc}
use mathlib.Core.Path.{◌≡◌, refl, ap, ◌∙◌}
use mathlib.Core.Logic.{◌≢◌, inl, inr}
use mathlib.Core.Bool.{false}
use mathlib.Core.Option.{some}
use mathlib.Core.List.{List, [], ◌∷◌, ◌++◌}
use native.Mathlib.Omega.{arith}
use thinkgo.Base.Tests.{Bytes, ◌==◌, ==_refl, Bool-cases}
use thinkgo.Base.Lists.{first, length, strip}
use thinkgo.Base.Text.{to_lower, split_at, split_pair, onto_first, join, count, clean, join_path}

pub to_lower_idem : (s : Bytes) → to_lower (to_lower s) ≡ to_lower s
unfolding to_lower
to_lower_idem [] = refl
to_lower_idem (c ∷ s) = ground (arith, to_lower_idem s)

onto_first-ne-nil : (c : ℕ) (ws : List Bytes) → onto_first c ws ≢ []
onto_first-ne-nil c [] = ground arith
onto_first-ne-nil c (w ∷ ws) = ground arith

onto_first-length : (c : ℕ) (ws : List Bytes) → ws ≢ [] → length (onto_first c ws) ≡ length ws
onto_first-length c [] h = absurd (h refl)
onto_first-length c (w ∷ ws) h = refl

pub split_at-ne-nil : (b : ℕ) (s : Bytes) → split_at b s ≢ []
unfolding split_at
split_at-ne-nil b [] = ground arith
split_at-ne-nil b (c ∷ s) = elim (Bool-cases (c == b)) [
  | inl e ↦ rw e (ground arith)
  | inr e ↦ rw e (onto_first-ne-nil c (split_at b s))
]

pub split_pair-ne-nil : (a b : ℕ) (s : Bytes) → split_pair a b s ≢ []
unfolding split_pair
split_pair-ne-nil a b [] = ground arith
split_pair-ne-nil a b (c ∷ []) = ground arith
split_pair-ne-nil a b (c ∷ d ∷ s) = ground (arith, onto_first-ne-nil c (split_pair a b (d ∷ s)))

-- A text splits into one piece more than it has separators.
pub length-split_at : (b : ℕ) (s : Bytes) → length (split_at b s) ≡ suc (count b s)
unfolding split_at count
length-split_at b [] = refl
length-split_at b (c ∷ s) = elim (Bool-cases (c == b)) [
  | inl e ↦ rw e (ground (arith, length-split_at b s))
  | inr e ↦ rw e (
      ground (arith, onto_first-length c (split_at b s) (split_at-ne-nil b s), length-split_at b s))
]

-- A piece in front of a separator
pub split_at-append :
    (b : ℕ) (w s : Bytes) → count b w ≡ 0 → split_at b (w ++ b ∷ s) ≡ w ∷ split_at b s
unfolding split_at count
split_at-append b [] s h = rw (==_refl b) refl
split_at-append b (c ∷ w) s h =
    let other : (c == b) ≡ false = ground (arith, h) in
    rw other (ap (onto_first c) (split_at-append b w s (ground (arith, h))))

-- A text without the separator is one piece.
pub split_at-plain : (b : ℕ) (w : Bytes) → count b w ≡ 0 → split_at b w ≡ w ∷ []
unfolding split_at count
split_at-plain b [] h = refl
split_at-plain b (c ∷ w) h =
    let other : (c == b) ≡ false = ground (arith, h) in
    rw other (ap (onto_first c) (split_at-plain b w (ground (arith, h))))

pub strip_self : (p s : Bytes) → strip p (p ++ s) ≡ some s
unfolding strip
strip_self [] s = refl
strip_self (x ∷ p) s = rw (==_refl x) (strip_self p s)

join-onto_first : (b c : ℕ) (ws : List Bytes) → ws ≢ [] → join b (onto_first c ws) ≡ c ∷ join b ws
unfolding join
join-onto_first b c [] h = absurd (h refl)
join-onto_first b c (w ∷ []) h = refl
join-onto_first b c (w ∷ v ∷ ws) h = refl

join-nil-cons : (b : ℕ) (ws : List Bytes) → ws ≢ [] → join b ([] ∷ ws) ≡ b ∷ join b ws
unfolding join
join-nil-cons b [] h = absurd (h refl)
join-nil-cons b (w ∷ ws) h = refl

-- Joining the pieces with the separator gives the text back.
pub join-split_at : (b : ℕ) (s : Bytes) → join b (split_at b s) ≡ s
unfolding split_at
join-split_at b [] = unfold join in refl
join-split_at b (c ∷ s) = elim (Bool-cases (c == b)) [
  | inl e ↦
      rw e
        (join-nil-cons b (split_at b s) (split_at-ne-nil b s) ∙ ground (arith, join-split_at b s))
  | inr e ↦
      rw e
        (join-onto_first b c (split_at b s) (split_at-ne-nil b s) ∙ ap (◌∷◌ c) (join-split_at b s))
]

pub clean-rooted : (s : Bytes) → first s ≡ b'/' → first (clean s) ≡ b'/'
unfolding clean
clean-rooted [] h = cc
clean-rooted (c ∷ s) h = ground arith

first-join : (b c : ℕ) (w : Bytes) (ws : List Bytes) → first (join b ((c ∷ w) ∷ ws)) ≡ c
unfolding join
first-join b c w [] = refl
first-join b c w (v ∷ ws) = refl

-- `path.Join` of elements of which the first that is not empty starts with a slash starts with one.
pub join_path-rooted :
    (c : ℕ) (w : Bytes) (ws : List Bytes) → c ≡ b'/' → first (join_path ((c ∷ w) ∷ ws)) ≡ b'/'
unfolding join_path
join_path-rooted c w ws h = clean-rooted (join b'/' ((c ∷ w) ∷ ws)) (first-join b'/' c w ws ∙ h)
