-- ===== src/Router/Values.antt =====
-- The values that a path has for a shape of core/router.go are as many as the names of the route.
use thinkgo.Base.{
  ℕ, List, suc, false, true, ◌≡◌, refl, ap, sym, ◌∙◌, Bytes, [], ◌∷◌, ◌++◌, none, some, arith,
  length, if◌then◌else◌,
}
use thinkgo.Router.Shaped.{is_mark}
use thinkgo.Router.Routes.{shape, shape_from}
use thinkgo.Router.Calls.{names, names_from}
use thinkgo.Router.Match.{Matches, stop, byte, parameter, star}

-- How many marks a text has
abbrev count : Bytes → ℕ
count [] = 0
count (c ∷ s) = if is_mark c then suc (count s) else count s

Matches-count :
    (p : Bytes → Type 0) (k s t : Bytes) (vs : List Bytes)
    → Matches p k s t vs
    → length vs ≡ count s
Matches-count p k _ _ _ stop = refl
Matches-count p k _ _ vs (byte {s = s} {t = t} m x) = rw m (Matches-count p _ s t vs x)
Matches-count p k _ _ _ (parameter {s = s} n x) = ap suc (Matches-count p _ s _ _ x)
Matches-count p k _ _ _ (star e n n') = rw e refl

mutual
  unfolding names_from shape_from

  names-count : (s : Bytes) → length (names_from none s) ≡ count (shape_from false s)
  names-count [] = refl
  names-count (c ∷ s) = ground (arith, names-count s, named-count [] s)

  named-count :
      (name s : Bytes) → length (names_from (some name) s) ≡ suc (count (shape_from true s))
  named-count name [] = refl
  named-count name (c ∷ s) = ground (arith, names-count s, named-count (name ++ c ∷ []) s)

pub Matches-length :
    (p : Bytes → Type 0) (route path : Bytes) (vs : List Bytes)
    → Matches p [] (shape route) path vs
    → length vs ≡ length (names route)
unfolding names shape
Matches-length p route path vs x =
    Matches-count p [] (shape route) path vs x ∙ sym (names-count route)
