-- ===== src/Context/Params.antt =====
-- core/context.go: `P` and `Param`. `none` is the panic of an index out of range.
use native.Mathlib.Nat.{add-zero}
use thinkgo.Base.{
  ℕ, zero, suc, ◌≤◌, ◌<◌, ◌+◌, ◌≡◌, ◌≢◌, ◌∙◌, ap, ltb, if◌then◌else◌, Bytes, List, [], ◌∷◌, Option,
  none, some, length, get_elem?, equal, arith, Bool-cases, inl, inr,
}

module _ (pnames pvalues : List Bytes) where
  -- `P`
  unfoldable pub p : ℕ → Option Bytes
  p i = if ltb i (length pnames) then get_elem? pvalues i else some []

  -- The loop of `Param` over `pnames`, from index `i` on
  unfoldable pub param_from : Bytes → ℕ → List Bytes → Option Bytes
  param_from name i [] = some []
  param_from name i (n ∷ names) =
      let later = param_from name (suc i) names in
      if equal n name then (if ltb i (length pnames) then get_elem? pvalues i else later) else later

  -- `Param`
  unfoldable pub param : Bytes → Option Bytes
  unfolding param_from
  param name = param_from name 0 pnames

-- The place of the first of the names that is `name`; past the end if none is.
unfoldable pub index_of : Bytes → List Bytes → ℕ
index_of name [] = 0
index_of name (n ∷ names) = if equal n name then 0 else suc (index_of name names)

get_elem?-in_range : (xs : List Bytes) (i : ℕ) → i < length xs → get_elem? xs i ≢ none
get_elem?-in_range [] i h = elim h [ ]
get_elem?-in_range (x ∷ xs) zero h = ground arith
get_elem?-in_range (x ∷ xs) (suc i) h = get_elem?-in_range xs i (omega arith)

module _ (pnames pvalues : List Bytes) where
  param_from-index_of :
      (name : Bytes) (i : ℕ) (names : List Bytes)
      → i + length names ≡ length pnames
      → param_from pnames pvalues name i names ≡ p pnames pvalues (i + index_of name names)
  unfolding param_from p index_of
  param_from-index_of name i [] h = ground arith
  param_from-index_of name i (n ∷ names) h = elim (Bool-cases (equal n name)) [
    | inl e ↦ rw e (ground (arith, ap (get_elem? pvalues) (add-zero i)))
    | inr e ↦
        let place : suc i + index_of name names ≡ i + suc (index_of name names) = omega arith in
        rw e (param_from-index_of name (suc i) names (omega arith) ∙ ap (p pnames pvalues) place)
  ]

  -- `Param` is `P` at the first place of the name: the value there, and the empty text where the route
  -- has no such name.
  pub param-p : (name : Bytes) → param pnames pvalues name ≡ p pnames pvalues (index_of name pnames)
  unfolding param
  param-p name =
      param_from-index_of name 0 pnames (omega arith) ∙ ap (p pnames pvalues) (omega arith)

  -- Where there are as many values as names, `P` does not panic at any index.
  pub p-ne-none : length pnames ≤ length pvalues → (i : ℕ) → p pnames pvalues i ≢ none
  unfolding p
  p-ne-none h i = ground (arith, get_elem?-in_range pvalues i)
