-- ===== src/Config/Ini/Container.antt =====
-- core/config/ini.go: the reads and writes of `IniConfigContainer`. The functions of strconv are arguments,
-- `none` for an error.
use thinkgo.Base.{Bytes, List, [], ◌∷◌, Option, none, some, lookup, to_lower, split_at, split_pair}
use thinkgo.Config.Fake.{or_empty, or_default}
use thinkgo.Config.Ini.Syntax.{default_section}
use thinkgo.Config.Ini.Parse.{Section, Ini, put}

-- The section and the key that the pieces of a key name
abbrev pub section_key : List Bytes → Bytes × Bytes
section_key [] = (default_section, [])
section_key (k ∷ []) = (default_section, k)
section_key (s ∷ k ∷ rest) = (s, k)

abbrev pub pieces : Bytes → List Bytes
pieces key = split_pair b':' b':' key

abbrev pub value_in : Option Section → Bytes → Bytes
value_in none k = []
value_in (some m) k = or_empty (lookup k m)

-- The value at a section and a key
unfoldable pub value_at : Bytes × Bytes → List (Bytes × Section) → Bytes
unfolding lookup
value_at (s, k) m = value_in (lookup s m) k

-- `getdata`, which is also `String`
unfoldable pub get_data : Bytes → Ini → Bytes
unfolding value_at to_lower split_pair
get_data [] c = []
get_data (b ∷ key) c = value_at (section_key (pieces (to_lower (b ∷ key)))) c.sections

-- `Set`: `none` is the error for an empty key.
unfoldable pub set : Bytes → Bytes → Ini → Option Ini
unfolding put split_pair
set [] v c = none
set (b ∷ key) v c =
    let (s, k) = section_key (pieces (b ∷ key)) in
    some (record c { sections = put s k v c.sections })

-- `DefaultString`
unfoldable pub default_string : Bytes → Bytes → Ini → Bytes
unfolding get_data
default_string key d c = elim (get_data key c) [ [] ↦ d | b ∷ v ↦ b ∷ v ]

-- `Strings`
unfoldable pub strings : Bytes → Ini → List Bytes
unfolding get_data split_at
strings key c = split_at b';' (get_data key c)

-- `DefaultStrings`
unfoldable pub default_strings : Bytes → List Bytes → Ini → List Bytes
unfolding strings
default_strings key d c = elim (strings key c) [ [] ↦ d | w ∷ ws ↦ w ∷ ws ]

module _ {A : Type 0} (parse : Bytes → Option A) where
  -- `Bool`, `Int`, `Int64` and `Float`
  unfoldable pub read : Bytes → Ini → Option A
  unfolding get_data
  read key c = parse (get_data key c)

  -- `DefaultBool`, `DefaultInt`, `DefaultInt64` and `DefaultFloat`
  unfoldable pub default_read : Bytes → A → Ini → A
  unfolding read
  default_read key d c = or_default d (read key c)

-- `GetSection`
unfoldable pub get_section : Bytes → Ini → Option Section
unfolding lookup
get_section s c = lookup s c.sections

-- `DIY`: the section of that name, in lower case
unfoldable pub diy : Bytes → Ini → Option Section
unfolding lookup to_lower
diy key c = lookup (to_lower key) c.sections
