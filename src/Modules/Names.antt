-- ===== src/Modules/Names.antt =====
-- core/utils.go: `SnakeString` and `CamelString`.
use thinkgo.Base.{
  ◌≡◌, refl, ◌∙◌, ◌+◌, ◌-◌, ℕ, Bool, true, false, not, ◌&&◌, ◌||◌, ◌==◌, if◌then◌else◌, Bytes, [],
  ◌∷◌, first, is_upper, is_lower, to_lower, arith,
}

-- The loop of `SnakeString`: `inner` is `i > 0`.
unfoldable pub snake_from : Bool → Bool → Bytes → Bytes
snake_from inner j [] = []
snake_from inner j (d ∷ s) =
    let rest = d ∷ snake_from true (j || not (d == b'_')) s in
    if inner && is_upper d && j then b'_' ∷ rest else rest

-- `SnakeString`
unfoldable pub snake_string : Bytes → Bytes
unfolding snake_from to_lower
snake_string s = to_lower (snake_from false false s)

-- A small letter is raised behind a skipped underscore, and where no capital is seen yet.
unfoldable pub is_raised : Bool → Bool → ℕ → Bool
is_raised j seen d = is_lower d && (j || not seen)

unfoldable pub raise : Bool → ℕ → ℕ
raise up d = if up then d - 32 else d

-- An underscore in front of a small letter is skipped.
unfoldable pub is_skipped : Bool → ℕ → Bytes → Bool
is_skipped k c s = k && c == b'_' && is_lower (first s)

unfoldable pub put : Bool → ℕ → Bytes → Bytes
put skip c rest = if skip then rest else c ∷ rest

-- The loop of `CamelString`, a byte at a time
unfoldable pub camel_from : Bool → Bool → Bytes → Bytes
unfolding is_raised raise is_skipped put
camel_from j k [] = []
camel_from j k (d ∷ s) =
    let seen = k || is_upper d in
    let up = is_raised j seen d in
    let skip = is_skipped (seen || up) (raise up d) s in
    put skip (raise up d) (camel_from (skip || (j && not up)) (seen || up) s)

-- `CamelString`
unfoldable pub camel_string : Bytes → Bytes
unfolding camel_from
camel_string s = camel_from false false s

-- The letters of a name: what is left of it without underscores, in lower case.
unfoldable pub letters : Bytes → Bytes
letters [] = []
letters (c ∷ s) =
    let rest = letters s in if c == b'_' then rest else (if is_upper c then c + 32 else c) ∷ rest

letters-snake_from :
    (inner j : Bool) (s : Bytes) → letters (to_lower (snake_from inner j s)) ≡ letters s
unfolding letters snake_from to_lower
letters-snake_from inner j [] = refl
letters-snake_from inner j (d ∷ s) =
    ground (arith, letters-snake_from true (j || not (d == b'_')) s)

letters-put :
    (k : Bool) (c : ℕ) (s rest : Bytes)
    → letters (put (is_skipped k c s) c rest) ≡ letters (c ∷ rest)
unfolding letters put is_skipped
letters-put k c s rest = ground arith

letters-raise :
    (j seen : Bool) (d : ℕ) (rest : Bytes)
    → letters (raise (is_raised j seen d) d ∷ rest) ≡ letters (d ∷ rest)
unfolding letters raise is_raised
letters-raise j seen d rest = ground arith

letters-cons : (d : ℕ) (s t : Bytes) → letters s ≡ letters t → letters (d ∷ s) ≡ letters (d ∷ t)
unfolding letters
letters-cons d s t h = rw h refl

letters-camel_from : (j k : Bool) (s : Bytes) → letters (camel_from j k s) ≡ letters s
unfolding camel_from
letters-camel_from j k [] = refl
letters-camel_from j k (d ∷ s) =
    let seen = k || is_upper d in
    let up = is_raised j seen d in
    let skip = is_skipped (seen || up) (raise up d) s in
    let rest = camel_from (skip || (j && not up)) (seen || up) s in
    letters-put (seen || up) (raise up d) s rest
    ∙ letters-raise j seen d rest
    ∙ letters-cons d rest s (letters-camel_from (skip || (j && not up)) (seen || up) s)

-- `SnakeString` keeps the letters of a name, in their order: only underscores and the case change.
pub letters-snake_string : (s : Bytes) → letters (snake_string s) ≡ letters s
unfolding snake_string
letters-snake_string = letters-snake_from false false

-- So does `CamelString`.
pub letters-camel_string : (s : Bytes) → letters (camel_string s) ≡ letters s
unfolding camel_string
letters-camel_string = letters-camel_from false false
