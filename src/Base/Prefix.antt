-- ===== src/Base/Prefix.antt =====
-- Laws of `take`, `drop`, `strip`, `equal` and `lcp`.
use Prim.Native.Nat.{ℕ, zero, suc, ◌+◌, ◌<◌, ◌≤◌}
use mathlib.Core.Path.{◌≡◌, refl, ap}
use mathlib.Core.Logic.{◌≢◌, ◌⊎◌, inl, inr}
use mathlib.Core.Bool.{true, false}
use mathlib.Core.List.{List, [], ◌∷◌, ◌++◌}
use mathlib.Core.Option.{Option, none, some}
use native.Mathlib.Omega.{arith}
use thinkgo.Base.Tests.{Bytes, Bool-cases, ◌==◌, equal}
use thinkgo.Base.Lists.{length, get_elem?, take, drop, first, strip, lcp}

module _ {ℓ} {A : Type ℓ} where
  pub length-append : (xs ys : List A) → length (xs ++ ys) ≡ length xs + length ys
  length-append [] ys = omega arith
  length-append (x ∷ xs) ys = omega (arith, length-append xs ys)

  pub drop-append : (xs ys : List A) → drop (length xs) (xs ++ ys) ≡ ys
  drop-append [] ys = refl
  drop-append (x ∷ xs) ys = drop-append xs ys

  pub take-append : (xs ys : List A) → take (length xs) (xs ++ ys) ≡ xs
  take-append [] ys = refl
  take-append (x ∷ xs) ys = ap (◌∷◌ x) (take-append xs ys)

abbrev and_then : Option Bytes → Bytes → Option Bytes
and_then none r = none
and_then (some k) r = strip r k

pub strip-append : (q r k : Bytes) → strip (q ++ r) k ≡ and_then (strip q k) r
unfolding strip
strip-append [] r k = refl
strip-append (x ∷ q) r [] = refl
strip-append (x ∷ q) r (y ∷ k) = ground (arith, strip-append q r k)

pub equal-append :
    (q s k : Bytes) → equal k (q ++ s) ≡ elim (strip q k) [ none ↦ false | some k' ↦ equal k' s ]
unfolding strip equal
equal-append [] s k = refl
equal-append (x ∷ q) s [] = refl
equal-append (x ∷ q) s (y ∷ k) = ground (arith, equal-append q s k)

pub equal-strip :
    (s k : Bytes)
    → equal k s ≡ elim (strip s k) [ none ↦ false | some r ↦ elim r [ [] ↦ true | _ ∷ _ ↦ false ] ]
unfolding strip equal
equal-strip [] [] = refl
equal-strip [] (y ∷ k) = refl
equal-strip (x ∷ s) [] = refl
equal-strip (x ∷ s) (y ∷ k) = ground (arith, equal-strip s k)

-- Where the longest common prefix of two texts ends.
pub record Shared (a b : Bytes) : Type 0 where
  pub common : Bytes
  pub rest_a : Bytes
  pub rest_b : Bytes
  pub split_a : a ≡ common ++ rest_a
  pub split_b : b ≡ common ++ rest_b
  pub length_is : lcp a b ≡ length common
  pub apart : (rest_a ≡ []) ⊎ (rest_b ≡ []) ⊎ (first rest_a ≢ first rest_b)

pub shared : (a b : Bytes) → Shared a b
unfolding lcp
shared [] b = record {
  common = [];
  rest_a = [];
  rest_b = b;
  split_a = refl;
  split_b = refl;
  length_is = refl;
  apart = inl refl;
}
shared (x ∷ a) [] = record {
  common = [];
  rest_a = x ∷ a;
  rest_b = [];
  split_a = refl;
  split_b = refl;
  length_is = refl;
  apart = inr (inl refl);
}
shared (x ∷ a) (y ∷ b) = elim (Bool-cases (x == y)) [
  | inl same ↦
      let s = shared a b in
      record {
        common = x ∷ s.common;
        rest_a = s.rest_a;
        rest_b = s.rest_b;
        split_a = ap (◌∷◌ x) s.split_a;
        split_b = ground (arith, s.split_b);
        length_is = ground (arith, s.length_is);
        apart = s.apart;
      }
  | inr differ ↦ record {
    common = [];
    rest_a = x ∷ a;
    rest_b = y ∷ b;
    split_a = refl;
    split_b = refl;
    length_is = rw differ;
    apart = inr (inr (ground arith));
  }
]

pub lcp_pos : (a b : Bytes) → a ≢ [] → b ≢ [] → first a ≡ first b → 0 < lcp a b
unfolding lcp
lcp_pos [] b h k e = absurd (h refl)
lcp_pos (x ∷ a) [] h k e = absurd (k refl)
lcp_pos (x ∷ a) (y ∷ b) h k e = ground arith

module _ {ℓ} {A : Type ℓ} where
  pub length-take : (n : ℕ) (xs : List A) → n ≤ length xs → length (take n xs) ≡ n
  length-take zero xs h = refl
  length-take (suc n) [] h = elim h [ ]
  length-take (suc n) (x ∷ xs) h = omega (arith, length-take n xs)

  pub take_all : (xs : List A) → take (length xs) xs ≡ xs
  take_all [] = refl
  take_all (x ∷ xs) = ap (◌∷◌ x) (take_all xs)

  -- An element in range, and the text up to it and with it.
  pub take-suc :
      (n : ℕ) (xs : List A)
      → n < length xs
      → (v : A) × (get_elem? xs n ≡ some v) × (take (suc n) xs ≡ take n xs ++ v ∷ [])
  take-suc n [] h = elim h [ ]
  take-suc zero (x ∷ xs) h = (x, refl, refl)
  take-suc (suc n) (x ∷ xs) h = let (v, e, t) = take-suc n xs (omega arith) in (v, e, ap (◌∷◌ x) t)
