-- ===== src/Context/Escape.antt =====
-- `url.QueryEscape` and `url.QueryUnescape`, which core/context.go calls on the value of a cookie.
use Prim.Native.Nat.{◌*◌, ◌/◌, ◌%◌}
use thinkgo.Base.{
  ℕ, ◌+◌, ◌-◌, ◌<◌, ◌≡◌, refl, ap, Bool, true, false, ◌||◌, ◌==◌, ltb, if◌then◌else◌, Bytes, [],
  ◌∷◌, ◌++◌, Option, none, some, within, arith, ◌∙◌, Bool-cases, inl, inr,
}

unfoldable pub is_unreserved : ℕ → Bool
is_unreserved c =
    within b'a' b'z' c
    || within b'A' b'Z' c
    || within b'0' b'9' c
    || c == b'-'
    || c == b'_'
    || c == b'.'
    || c == b'~'

unfoldable pub hex : ℕ → ℕ
hex n = if ltb n 10 then b'0' + n else b'A' + (n - 10)

unfoldable pub unhex : ℕ → Option ℕ
unhex c =
    if within b'0' b'9' c
    then some (c - b'0')
    else if within b'a' b'f' c
    then some (c - b'a' + 10)
    else if within b'A' b'F' c
    then some (c - b'A' + 10)
    else none

unfoldable pub escape_byte : ℕ → Bytes
unfolding is_unreserved hex
escape_byte c =
    if c == b' '
    then b'+' ∷ []
    else if is_unreserved c
    then c ∷ []
    else b'%' ∷ hex (c / 16) ∷ hex (c % 16) ∷ []

-- `url.QueryEscape`
unfoldable pub query_escape : Bytes → Bytes
unfolding escape_byte
query_escape [] = []
query_escape (c ∷ s) = escape_byte c ++ query_escape s

abbrev pub onto : ℕ → Option Bytes → Option Bytes
onto c none = none
onto c (some s) = some (c ∷ s)

-- The byte of two hexadecimal digits, in front of the rest
abbrev pub hex_onto : Option ℕ → Option ℕ → Option Bytes → Option Bytes
hex_onto (some a) (some b) r = onto (16 * a + b) r
hex_onto _ _ r = none

-- `url.QueryUnescape`: `none` is its error.
unfoldable pub query_unescape : Bytes → Option Bytes
unfolding unhex
query_unescape [] = some []
query_unescape (c ∷ []) = if c == b'%' then none else some ((if c == b'+' then b' ' else c) ∷ [])
query_unescape (c ∷ d ∷ []) =
    let rest = query_unescape (d ∷ []) in
    if c == b'%' then none else onto (if c == b'+' then b' ' else c) rest
query_unescape (c ∷ d ∷ e ∷ s) =
    let after = query_unescape s in
    let rest = query_unescape (d ∷ e ∷ s) in
    if c == b'%'
    then hex_onto (unhex d) (unhex e) after
    else onto (if c == b'+' then b' ' else c) rest

unhex-hex : (n : ℕ) → n < 16 → unhex (hex n) ≡ some n
unfolding unhex hex
unhex-hex n h = ground arith

query_unescape-plain :
    (c : ℕ) (s : Bytes)
    → (c == b'%') ≡ false
    → query_unescape (c ∷ s) ≡ onto (if c == b'+' then b' ' else c) (query_unescape s)
unfolding query_unescape
query_unescape-plain c [] h = rw h
query_unescape-plain c (d ∷ []) h = rw h
query_unescape-plain c (d ∷ e ∷ s) h = rw h

unreserved-ne : (c : ℕ) → is_unreserved c ≡ true → ((c == b'%') ≡ false) × ((c == b'+') ≡ false)
unfolding is_unreserved
unreserved-ne c h = ground arith

query_unescape-hex :
    (c : ℕ) (s : Bytes)
    → c < 256
    → query_unescape (b'%' ∷ hex (c / 16) ∷ hex (c % 16) ∷ s) ≡ onto c (query_unescape s)
unfolding query_unescape
query_unescape-hex c s h =
    let a = unhex-hex (c / 16) (omega arith) in
    let b = unhex-hex (c % 16) (omega arith) in
    let whole : 16 * (c / 16) + c % 16 ≡ c = omega arith in
    rw (a, b) (ap (λ z. onto z (query_unescape s)) whole)

query_unescape-escape_byte :
    (c : ℕ) (s : Bytes) → c < 256 → query_unescape (escape_byte c ++ s) ≡ onto c (query_unescape s)
unfolding escape_byte
query_unescape-escape_byte c s h = elim (Bool-cases (c == b' ')) [
  | inl space ↦ let e : c ≡ b' ' = ground arith in rw e (query_unescape-plain b'+' s refl)
  | inr other ↦ elim (Bool-cases (is_unreserved c)) [
    | inl plain ↦
        let (percent, plus) = unreserved-ne c plain in
        rw (other, plain) (query_unescape-plain c s percent ∙ rw plus)
    | inr coded ↦ rw (other, coded) (query_unescape-hex c s h)
  ]
]

-- Every byte.
abbrev pub AllBytes : Bytes → Type 0
AllBytes [] = Unit
AllBytes (c ∷ s) = (c < 256) × AllBytes s

-- What is escaped is read back whole.
pub query_unescape-query_escape :
    (s : Bytes) → AllBytes s → query_unescape (query_escape s) ≡ some s
unfolding query_escape
query_unescape-query_escape [] h = unfold query_unescape in refl
query_unescape-query_escape (c ∷ s) h =
    query_unescape-escape_byte c (query_escape s) h.0
    ∙ ap (onto c) (query_unescape-query_escape s h.1)
