-- ===== src/Config/Json.antt =====
-- core/config/json.go: `JsonConfigContainer`. The values are those that encoding/json makes for an empty
-- interface, with float64 a parameter `F`; `null` is nil. The decoder is a parameter.
use thinkgo.Base.{
  ◌≡◌, ◌≢◌, refl, ap, ◌∙◌, Bool, true, false, if◌then◌else◌, Bytes, List, [], ◌∷◌, Option, none,
  some, codes, equal, lookup, insert, lookup-insert, split_at, split_pair, split_pair-ne-nil,
}
use thinkgo.Config.Fake.{or_default}

module _ (F : Type 0) where
  mutual
    pub data Value : Type 0 where
      null : Value
      bool : Bool → Value
      number : F → Value
      str : Bytes → Value
      array : Values → Value
      object : Fields → Value

    pub data Values : Type 0 where
      no_values : Values
      value : Value → Values → Values

    pub data Fields : Type 0 where
      no_fields : Fields
      field : Bytes → Value → Fields → Fields

module _ {F : Type 0} where
  unfoldable pub lookup_field : Bytes → Fields F → Option (Value F)
  lookup_field k no_fields = none
  lookup_field k (field j v fs) = let rest = lookup_field k fs in if equal j k then some v else rest

-- `JsonConfigContainer`: the map, `none` where it is nil, as decoding "null" leaves it.
abbrev pub Json : Type 0 → Type 0
Json F = Option (List (Bytes × Value F))

-- `ParseData`: an array that is decoded stands under the key "rootArray".
abbrev pub root_array : {F : Type 0} → Option (Values F) → Option (Json F)
root_array none = none
root_array (some vs) = some (some ((codes "rootArray", array vs) ∷ []))

unfoldable pub parse_data :
    {F : Type 0} → (Bytes → Option (Json F)) → (Bytes → Option (Values F)) → Bytes → Option (Json F)
parse_data decode decode_array text = elim (decode text) [
  | some c ↦ some c
  | none ↦ root_array (decode_array text)
]

abbrev pub first_piece : List Bytes → Bytes
first_piece [] = []
first_piece (k ∷ ks) = k

module _ {F : Type 0} where
  abbrev pub lookup_in : Bytes → Json F → Option (Value F)
  lookup_in k none = none
  lookup_in k (some m) = lookup k m

  -- The loop over the keys behind the first: a value that is no map stays as it is.
  unfoldable pub descend : List Bytes → Value F → Value F
  unfolding lookup_field
  descend [] v = v
  descend (k ∷ ks) (object fs) = elim (lookup_field k fs) [ none ↦ null | some v ↦ descend ks v ]
  descend (k ∷ ks) null = descend ks null
  descend (k ∷ ks) (bool b) = descend ks (bool b)
  descend (k ∷ ks) (number x) = descend ks (number x)
  descend (k ∷ ks) (str s) = descend ks (str s)
  descend (k ∷ ks) (array vs) = descend ks (array vs)

  abbrev pub or_descend : List Bytes → Option (Value F) → Value F
  or_descend ks none = null
  or_descend ks (some v) = descend ks v

  -- The value under the pieces of a key
  abbrev pub value_at : List Bytes → Json F → Value F
  value_at [] c = null
  value_at (k ∷ ks) c = or_descend ks (lookup_in k c)

  -- `getData`
  unfoldable pub get_data : Bytes → Json F → Value F
  unfolding descend lookup split_pair
  get_data [] c = null
  get_data (b ∷ key) c = value_at (split_pair b':' b':' (b ∷ key)) c

  -- `Bool`, `Int`, `Int64` and `Float`, by the conversion of a number; `none` is an error.
  abbrev pub as_bool : Value F → Option Bool
  as_bool (bool b) = some b
  as_bool _ = none

  abbrev pub as_number : {A : Type 0} → (F → A) → Value F → Option A
  as_number convert (number x) = some (convert x)
  as_number convert _ = none

  abbrev pub as_string : Value F → Bytes
  as_string (str s) = s
  as_string _ = []

  unfoldable pub read_bool : Bytes → Json F → Option Bool
  unfolding get_data
  read_bool key c = as_bool (get_data key c)

  unfoldable pub read_number : {A : Type 0} → (F → A) → Bytes → Json F → Option A
  unfolding get_data
  read_number convert key c = as_number convert (get_data key c)

  -- `DefaultBool`, `DefaultInt`, `DefaultInt64` and `DefaultFloat`
  abbrev pub default_bool : Bytes → Bool → Json F → Bool
  default_bool key d c = or_default d (read_bool key c)

  abbrev pub default_number : {A : Type 0} → (F → A) → Bytes → A → Json F → A
  default_number convert key d c = or_default d (read_number convert key c)

  -- `String`
  unfoldable pub string : Bytes → Json F → Bytes
  unfolding get_data
  string key c = as_string (get_data key c)

  -- `DefaultString`
  unfoldable pub default_string : Bytes → Bytes → Json F → Bytes
  unfolding string
  default_string key d c = elim (string key c) [ [] ↦ d | b ∷ v ↦ b ∷ v ]

  -- `Strings`
  unfoldable pub strings : Bytes → Json F → List Bytes
  unfolding string split_at
  strings key c = elim (string key c) [ [] ↦ [] | b ∷ v ↦ split_at b';' (b ∷ v) ]

  -- `DefaultStrings`
  unfoldable pub default_strings : Bytes → List Bytes → Json F → List Bytes
  unfolding strings
  default_strings key d c = elim (strings key c) [ [] ↦ d | w ∷ ws ↦ w ∷ ws ]

  -- `Set`: `none` is the panic of a write to a nil map.
  unfoldable pub set : Bytes → Bytes → Json F → Option (Json F)
  unfolding insert
  set key v none = none
  set key v (some m) = some (some (insert key (str v) m))

  -- `DIY`: `none` is the error for a key with no value.
  unfoldable pub diy : Bytes → Json F → Option (Value F)
  unfolding get_data
  diy key c = elim (get_data key c) [ null ↦ none | v ↦ some v ]

  descend-str : (ks : List Bytes) (s : Bytes) → descend ks (str s) ≡ str s
  unfolding descend
  descend-str [] s = refl
  descend-str (k ∷ ks) s = descend-str ks s

  -- A read through a key that holds a text gives the text, whatever keys follow it.
  pub get_data-str :
      (key k s : Bytes) (ks : List Bytes) (c : Json F)
      → key ≢ []
      → split_pair b':' b':' key ≡ k ∷ ks
      → lookup_in k c ≡ some (str s)
      → get_data key c ≡ str s
  unfolding get_data
  get_data-str [] k s ks c ne p h = absurd (ne refl)
  get_data-str (b ∷ key) k s ks c ne p h =
      ap (λ ws. value_at ws c) p ∙ ap (or_descend ks) h ∙ descend-str ks s

  or_descend-if :
      (b : Bool) (ks : List Bytes) (s : Bytes) (o : Option (Value F))
      → or_descend ks (if b then some (str s) else o) ≡ (if b then str s else or_descend ks o)
  or_descend-if true ks s o = descend-str ks s
  or_descend-if false ks s o = refl

  value_at-insert :
      (key v : Bytes) (m : List (Bytes × Value F)) (ws : List Bytes)
      → ws ≢ []
      → value_at ws (some (insert key (str v) m))
        ≡ (if equal key (first_piece ws) then str v else value_at ws (some m))
  value_at-insert key v m [] ne = absurd (ne refl)
  value_at-insert key v m (k ∷ ks) ne =
      ap (or_descend ks) (lookup-insert key k (str v) m)
      ∙ or_descend-if (equal key k) ks v (lookup k m)

  get_data-insert :
      (key v j : Bytes) (m : List (Bytes × Value F))
      → j ≢ []
      → get_data j (some (insert key (str v) m))
        ≡ (if equal key (first_piece (split_pair b':' b':' j)) then str v else get_data j (some m))
  unfolding get_data
  get_data-insert key v [] m ne = absurd (ne refl)
  get_data-insert key v (b ∷ j) m ne =
      value_at-insert key v m (split_pair b':' b':' (b ∷ j)) (split_pair-ne-nil b':' b':' (b ∷ j))

  -- On a map that is not nil `Set` succeeds. A read then gives the new text where the first piece of
  -- its key is the key that was set, whole, and what it gave before where it is not.
  pub get_data-set_piece :
      (key v : Bytes) (m : List (Bytes × Value F))
      → (after : Json F) × (set key v (some m) ≡ some after)
        × ((j : Bytes)
            → j ≢ []
            → get_data j after ≡ (
                if equal key (first_piece (split_pair b':' b':' j))
                then str v
                else get_data j (some m)))
  unfolding set
  get_data-set_piece key v m = (some (insert key (str v) m), refl, λ j. get_data-insert key v j m)
