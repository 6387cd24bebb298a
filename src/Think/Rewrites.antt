-- ===== src/Think/Rewrites.antt =====
-- What the hook of core/thinkgo.go makes of a URL.
use thinkgo.Base.{
  ℕ, zero, suc, ◌+◌, ◌-◌, ◌≤◌, ◌≡◌, ◌≢◌, refl, sym, ap, ◌∙◌, false, ◌&&◌, not, Bytes, List, [], ◌∷◌,
  ◌++◌, none, some, codes, equal, length, take, count, repeat, split_at, join_path, length-split_at,
  arith, append_assoc, append-nil, take-suc, length-take, take_all, Option-cases, inl, inr, trim,
  has_prefix,
}
use native.Mathlib.Nat.{add-zero}
use thinkgo.Think.Hook.{Url, Settings, with_module, with_index, decimal, query_from, convert, hook}

count-append : (b : ℕ) (s t : Bytes) → count b (s ++ t) ≡ count b s + count b t
unfolding count
count-append b [] t = omega arith
count-append b (c ∷ s) t = omega (arith, count-append b s t)

count-repeat_index : (n : ℕ) → count b'/' (repeat (codes "/index") n) ≡ n
unfolding count repeat
count-repeat_index zero = refl
count-repeat_index (suc n) = omega (arith, count-repeat_index n)

count-with_index : (p : Bytes) → 2 ≤ count b'/' (with_index p)
unfolding with_index
count-with_index p = omega (
  arith,
  count-append b'/' p (repeat (codes "/index") (2 - count b'/' p)),
  count-repeat_index (2 - count b'/' p),
)

-- A padded path has at least three pieces.
data ThreeOrMore : List Bytes → Type 0 where
  three : (a b c : Bytes) (rest : List Bytes) → ThreeOrMore (a ∷ b ∷ c ∷ rest)

three_or_more : (ws : List Bytes) → 3 ≤ length ws → ThreeOrMore ws
three_or_more [] h = elim h [ ]
three_or_more (a ∷ []) h = absurd (omega arith)
three_or_more (a ∷ b ∷ []) h = absurd (omega arith)
three_or_more (a ∷ b ∷ c ∷ rest) h = three a b c rest

pieces : (p : Bytes) → ThreeOrMore (split_at b'/' (with_index p))
pieces p = three_or_more _ (omega (arith, length-split_at b'/' (with_index p), count-with_index p))

-- A parameter of the query, and the query that the segments behind the third give: numbered from 0 on,
-- the last one first.
abbrev pub parameter : ℕ → Bytes → Bytes
parameter i v = b'&' ∷ (decimal i ++ (b'=' ∷ v))

abbrev pub query_of : ℕ → List Bytes → Bytes
query_of i [] = []
query_of i (v ∷ vs) = query_of (suc i) vs ++ parameter i v

query_of-concat :
    (i : ℕ) (vs : List Bytes) (v : Bytes)
    → query_of i (vs ++ v ∷ []) ≡ parameter (i + length vs) v ++ query_of i vs
query_of-concat i [] v = rw (append-nil, add-zero)
query_of-concat i (w ∷ vs) v = rw (query_of-concat (suc i) vs v) (
    append_assoc (parameter (suc i + length vs) v) (query_of (suc i) vs) (parameter i w)
    ∙ ap (λ n. parameter n v ++ query_of i (w ∷ vs)) (omega arith))

query_from-query_of :
    (num : ℕ) (a b c : Bytes) (rest : List Bytes) (q : Bytes)
    → num ≤ length rest
    → query_from num (a ∷ b ∷ c ∷ rest) q ≡ some (q ++ query_of 0 (take num rest))
unfolding query_from
query_from-query_of zero a b c rest q h = ap some (sym (append-nil q))
query_from-query_of (suc n) a b c rest q h =
    let (v, e, t) = take-suc n rest h in
    let i : 2 + suc n ≡ suc (suc (suc n)) = omega arith in
    let place : 0 + length (take n rest) ≡ n = omega (arith, length-take n rest (omega arith)) in
    rw i (
      rw e (
        query_from-query_of n a b c rest (q ++ parameter n v) (omega arith)
        ∙ ap some (
            append_assoc q (parameter n v) (query_of 0 (take n rest))
            ∙ ap (◌++◌ q) (
                sym (
                  ap (query_of 0) t
                  ∙ query_of-concat 0 (take n rest) v
                  ∙ ap (λ k. parameter k v ++ query_of 0 (take n rest)) place)))))

-- The converted URL, from the pieces of the padded path.
abbrev pub Moved : List Bytes → Url → Type 0
Moved (a ∷ b ∷ c ∷ rest) u =
    (u.path ≡ join_path (codes "/" ∷ a ∷ b ∷ c ∷ [])) × (u.raw_query ≡ query_of 0 rest)
Moved _ u = ⊥

convert-Moved :
    (p : Bytes) (ps : List Bytes)
    → split_at b'/' p ≡ ps
    → ThreeOrMore ps
    → (u : Url) × (convert p [] ≡ some u) × Moved ps u
unfolding convert equal
convert-Moved p ps e (three a b c rest) =
    let q = query_from-query_of (length rest) a b c rest [] (omega arith) in
    let n : suc (suc (suc (length rest))) - 3 ≡ length rest = omega arith in
    (
      record { path = join_path (codes "/" ∷ a ∷ b ∷ c ∷ []); raw_query = query_of 0 rest },
      rw e (rw n (rw (q, take_all rest))),
      (refl, refl),
    )

-- With an empty query, a path that gets a module is turned into its first three pieces, padded with
-- "index", and the pieces behind them become the query.
pub hook-Moved :
    (s : Settings) (path p : Bytes)
    → (not (equal s.static_path []) && has_prefix path s.static_path) ≡ false
    → with_module s (trim b'/' path) ≡ some p
    → (u : Url) × (hook s (record { path = path; raw_query = [] }) ≡ some u)
      × Moved (split_at b'/' (with_index p)) u
unfolding hook
hook-Moved s path p n m =
    let (u, e, h) = convert-Moved (with_index p) (split_at b'/' (with_index p)) refl (pieces p) in
    (u, rw n (rw m e), h)

convert-ne-none : (p q : Bytes) → convert (with_index p) q ≢ none
unfolding convert equal
convert-ne-none p [] h =
    let (u, e, _) = convert-Moved (with_index p) (split_at b'/' (with_index p)) refl (pieces p) in
    ground (arith, e, h)
convert-ne-none p (x ∷ q) h = ground arith

-- The hook never indexes out of range.
pub hook-ne-none : (s : Settings) (u : Url) → hook s u ≢ none
unfolding hook
hook-ne-none s u = elim (Option-cases (with_module s (trim b'/' u.path))) [
  | inl n ↦ ground (arith, n)
  | inr (p, m) ↦ ground (arith, m, convert-ne-none p u.raw_query)
]
