-- ===== src/Config/Xml.antt =====
-- core/config/xml/xml.go: `XMLConfigContainer`. The values that x2j makes are a parameter, of which only
-- the texts are told apart; the functions of strconv are arguments, `none` for an error.
use thinkgo.Base.{
  ◌≡◌, ◌↔◌, refl, Bytes, List, [], ◌∷◌, Option, none, some, arith, lookup, insert, split_at,
}

-- An interface value: a text, or a value of another type.
pub data Value (X : Type 0) : Type 0 where
  str : Bytes → Value X
  other : X → Value X

-- How a read ends: with a value, with an error, or with the panic of a type assertion.
pub data Got (A : Type 0) : Type 0 where
  got : A → Got A
  failed panics : Got A

abbrev pub Xml : Type 0 → Type 0
Xml X = List (Bytes × Value X)

abbrev pub or_failed : {A : Type 0} → Option A → Got A
or_failed none = failed
or_failed (some a) = got a

abbrev pub parsed : {A : Type 0} → (Bytes → Option A) → Option Bytes → Got A
parsed parse none = panics
parsed parse (some s) = or_failed (parse s)

abbrev pub or_default : {A : Type 0} → A → Got A → Got A
or_default d (got a) = got a
or_default d failed = got d
or_default d panics = panics

abbrev pub or_empty : Option Bytes → Bytes
or_empty none = []
or_empty (some s) = s

default_parsed-panics :
    {A : Type 0} (parse : Bytes → Option A) (d : A) (o : Option Bytes)
    → (or_default d (parsed parse o) ≡ panics) ↔ (o ≡ none)
default_parsed-panics parse d none = (λ h. refl, λ h. refl)
default_parsed-panics parse d (some s) = ground arith

module _ {X : Type 0} where
  -- `c.data[key].(string)`, without and with the test
  abbrev pub text_of : Option (Value X) → Option Bytes
  text_of (some (str s)) = some s
  text_of _ = none

  unfoldable pub text_at : Bytes → Xml X → Option Bytes
  unfolding lookup
  text_at key c = text_of (lookup key c)

  -- `Bool`, `Int`, `Int64` and `Float`
  unfoldable pub read : {A : Type 0} → (Bytes → Option A) → Bytes → Xml X → Got A
  unfolding text_at
  read parse key c = parsed parse (text_at key c)

  -- `DefaultBool`, `DefaultInt`, `DefaultInt64` and `DefaultFloat`
  unfoldable pub default_read : {A : Type 0} → (Bytes → Option A) → Bytes → A → Xml X → Got A
  unfolding read
  default_read parse key d c = or_default d (read parse key c)

  -- `String`
  unfoldable pub string : Bytes → Xml X → Bytes
  unfolding text_at
  string key c = or_empty (text_at key c)

  -- `DefaultString`
  unfoldable pub default_string : Bytes → Bytes → Xml X → Bytes
  unfolding string
  default_string key d c = elim (string key c) [ [] ↦ d | b ∷ v ↦ b ∷ v ]

  -- `Strings`
  unfoldable pub strings : Bytes → Xml X → List Bytes
  unfolding string split_at
  strings key c = split_at b';' (string key c)

  -- `DefaultStrings`
  unfoldable pub default_strings : Bytes → List Bytes → Xml X → List Bytes
  unfolding strings
  default_strings key d c = elim (strings key c) [ [] ↦ d | w ∷ ws ↦ w ∷ ws ]

  -- `Set`
  unfoldable pub set : Bytes → Bytes → Xml X → Xml X
  unfolding insert
  set key v c = insert key (str v) c

  -- `DIY`
  unfoldable pub diy : Bytes → Xml X → Option (Value X)
  unfolding lookup
  diy key c = lookup key c

  -- A read with a default panics exactly where no text stands under the key: where the key is missing,
  -- the default is never given.
  pub default_read-panics :
      {A : Type 0} (parse : Bytes → Option A) (key : Bytes) (d : A) (c : Xml X)
      → (default_read parse key d c ≡ panics) ↔ (text_at key c ≡ none)
  unfolding default_read read
  default_read-panics parse key d c = default_parsed-panics parse d (text_at key c)
