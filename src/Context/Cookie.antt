-- ===== src/Context/Cookie.antt =====
-- core/context.go: `SetCookie` and `GetCookie`. An optional argument is the dynamic value that Go passes
-- as an empty interface; integers are the bit patterns of their widths.
use Prim.Native.Nat.{◌^◌}
use thinkgo.Base.{
  ℕ, ◌+◌, ◌-◌, ◌≡◌, Bool, true, false, ltb, if◌then◌else◌, Bytes, List, [], ◌∷◌, Option, none, some,
  codes, get_elem?,
}
use thinkgo.Context.Escape.{query_escape, query_unescape, AllBytes, query_unescape-query_escape}

pub data Value : Type 0 where
  int int64 int32 : ℕ → Value
  str : Bytes → Value
  bool : Bool → Value
  nil other : Value

pub record Cookie : Type 0 where
  pub name : Bytes
  pub value : Bytes
  pub max_age : ℕ
  pub path : Bytes
  pub domain : Bytes
  pub secure : Bool
  pub http_only : Bool

-- `int(v)` for an `int32`, where `int` has 64 bits
abbrev pub sign_extend : ℕ → ℕ
sign_extend v = if ltb v (2 ^ 31) then v else v + 2 ^ 64 - 2 ^ 32

abbrev pub max_age_of : Option Value → ℕ
max_age_of (some (int v)) = v
max_age_of (some (int64 v)) = v
max_age_of (some (int32 v)) = sign_extend v
max_age_of _ = 0

-- A text that is not empty, or the default
abbrev pub text_or : Bytes → Option Value → Bytes
text_or d (some (str [])) = d
text_or d (some (str (c ∷ s))) = c ∷ s
text_or d _ = d

abbrev pub secure_of : Option Value → Bool
secure_of none = false
secure_of (some (bool b)) = b
secure_of (some nil) = false
secure_of (some _) = true

abbrev pub http_only_of : Option Value → Bool
http_only_of (some (bool b)) = b
http_only_of _ = false

-- The cookie that `SetCookie` adds to the header, as `cookie.String()` prints it
unfoldable pub set_cookie : Bytes → Bytes → List Value → Cookie
unfolding query_escape
set_cookie name value others = record {
  name = name;
  value = query_escape value;
  max_age = max_age_of (get_elem? others 0);
  path = text_or (codes "/") (get_elem? others 1);
  domain = text_or [] (get_elem? others 2);
  secure = secure_of (get_elem? others 3);
  http_only = http_only_of (get_elem? others 4);
}

-- `GetCookie`, on the value of the request's cookie, `none` where it has none
unfoldable pub get_cookie : Option Bytes → Bytes
unfolding query_unescape
get_cookie none = []
get_cookie (some v) = elim (query_unescape v) [ none ↦ [] | some s ↦ s ]

-- A cookie that comes back as it was set has the value that was set, where that is a text of bytes.
pub get_cookie-set_cookie :
    (name value : Bytes) (others : List Value)
    → AllBytes value
    → get_cookie (some (set_cookie name value others).value) ≡ value
unfolding get_cookie set_cookie
get_cookie-set_cookie name value others h = rw (query_unescape-query_escape value h, get_cookie)
