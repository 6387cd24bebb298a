-- ===== src/Think/Hook.antt =====
-- core/thinkgo.go: `(*Think).Hook`. The map of modules enters as its test for a key, `Modules`; the
-- fields of the request that the hook reads and writes are `Url`.
use Prim.Native.Nat.{◌/◌, ◌%◌}
use thinkgo.Base.{
  ℕ, zero, suc, ◌+◌, ◌-◌, Bool, ◌&&◌, ◌||◌, not, ◌==◌, ltb, if◌then◌else◌, Bytes, List, [], ◌∷◌,
  ◌++◌, Option, none, some, codes, equal, length, get_elem?, trim, has_prefix, count, repeat,
  split_at, join_path,
}

pub record Url : Type 0 where
  pub path : Bytes
  pub raw_query : Bytes

-- What the hook reads of the framework: the URL prefix of the static file system, `DefaultModule`, and
-- whether a module is registered under a name.
pub record Settings : Type 0 where
  pub static_path : Bytes
  pub default_module : Bytes
  pub is_module : Bytes → Bool

-- `p[:idx]` for the first slash, or all of `p`
unfoldable pub module_of : Bytes → Bytes
module_of [] = []
module_of (c ∷ p) = if c == b'/' then [] else c ∷ module_of p

abbrev pub is_reserved : Bytes → Bool
is_reserved m = equal m (codes "common") || equal m (codes "public") || equal m (codes "uploads")

-- The switch on the trimmed path: the path with its module, or `none` for the early returns.
unfoldable pub with_module : Settings → Bytes → Option Bytes
unfolding module_of equal
with_module s p =
    if equal p (codes "favicon.ico")
    then none
    else if equal p []
    then some s.default_module
    else if s.is_module (module_of p)
    then some p
    else if is_reserved (module_of p)
    then none
    else some (s.default_module ++ (b'/' ∷ p))

-- `p += strings.Repeat("/index", num)` for `num` above 0
unfoldable pub with_index : Bytes → Bytes
unfolding repeat count
with_index p = p ++ repeat (codes "/index") (2 - count b'/' p)

-- The decimal digits of a number, with fuel for them
unfoldable pub digits_of : ℕ → ℕ → Bytes
digits_of zero n = []
digits_of (suc fuel) n =
    let front = digits_of fuel (n / 10) in
    if ltb n 10 then (b'0' + n) ∷ [] else front ++ (b'0' + n % 10) ∷ []

-- `fmt.Sprintf("%v", n)`
unfoldable pub decimal : ℕ → Bytes
unfolding digits_of
decimal n = digits_of (suc n) n

infixl 5 ◌>>=◌
abbrev pub ◌>>=◌ {ℓ κ} : {A : Type ℓ} {B : Type κ} → Option A → (A → Option B) → Option B
none >>= f = none
some a >>= f = f a

-- The loop that moves the segments from the fourth on into the query, the last one first. `none` is an
-- index out of range.
unfoldable pub query_from : ℕ → List Bytes → Bytes → Option Bytes
unfolding decimal
query_from zero ps q = some q
query_from (suc num) ps q = do
  v ← get_elem? ps (2 + suc num)
  query_from num ps (q ++ (b'&' ∷ (decimal num ++ (b'=' ∷ v))))

-- "转换url模式": both branches
unfoldable pub convert : Bytes → Bytes → Option Url
unfolding query_from join_path split_at
convert p query =
    let ps = split_at b'/' p in
    let moved = do
      q ← query_from (length ps - 3) ps query
      a ← get_elem? ps 0
      b ← get_elem? ps 1
      c ← get_elem? ps 2
      some (record { path = join_path (codes "/" ∷ a ∷ b ∷ c ∷ []); raw_query = q })
    in if equal query []
      then moved
      else some (record { path = join_path (codes "/" ∷ p ∷ []); raw_query = query })

-- The hook: `none` is a panic.
unfoldable pub hook : Settings → Url → Option Url
unfolding with_module with_index convert
hook s u =
    if not (equal s.static_path []) && has_prefix u.path s.static_path
    then some u
    else elim (with_module s (trim b'/' u.path)) [
      | none ↦ some u
      | some p ↦ convert (with_index p) u.raw_query
    ]
