-- ===== src/Config/Yaml.antt =====
-- core/config/yaml/yaml.go: `YAMLConfigContainer`. The values of an empty interface that the container
-- tells apart are constructors; floats are a parameter `F`, and so is what it never looks into, `X`.
pub mod Paths
use thinkgo.Base.{
  ℕ, zero, suc, ◌≤◌, ◌≡◌, ◌≢◌, refl, ap, ◌∙◌, Bool, if◌then◌else◌, Bytes, List, [], ◌∷◌, Option,
  none, some, arith, equal, equal_iff, equal_refl, split_at, split_pair, length,
}
use thinkgo.Config.Fake.{or_default}

-- `map[string]interface{}` is `map`; `map[interface{}]interface{}`, in which yaml keeps sections, is
-- `any_map`, with its keys as values.
module _ (F X : Type 0) where
  mutual
    pub data Value : Type 0 where
      null : Value
      bool : Bool → Value
      int64 : ℕ → Value
      float64 : F → Value
      str : Bytes → Value
      map : Fields → Value
      any_map : Entries → Value
      other : X → Value

    pub data Fields : Type 0 where
      no_fields : Fields
      field : Bytes → Value → Fields → Fields

    pub data Entries : Type 0 where
      no_entries : Entries
      entry : Value → Value → Entries → Entries

-- How an operation ends that asserts types.
pub data Got (A : Type 0) : Type 0 where
  got : A → Got A
  failed panics : Got A

-- How `SetDIY` ends; it changes the map in any case.
pub data Status : Type 0 where
  stored too_deep empty_key asserted : Status

-- The loop of `GetSection`: both the key and the value have to be texts.
abbrev pub onto : Bytes → Bytes → Got (List (Bytes × Bytes)) → Got (List (Bytes × Bytes))
onto k v (got m) = got ((k, v) ∷ m)
onto k v failed = failed
onto k v panics = panics

module _ {F X : Type 0} where
  unfoldable pub lookup : Bytes → Fields F X → Option (Value F X)
  lookup k no_fields = none
  lookup k (field j v fs) = let rest = lookup k fs in if equal j k then some v else rest

  unfoldable pub insert : Bytes → Value F X → Fields F X → Fields F X
  insert k v no_fields = field k v no_fields
  insert k v (field j w fs) =
      let rest = field j w (insert k v fs) in if equal j k then field k v fs else rest

  pub lookup-insert :
      (k j : Bytes) (v : Value F X) (fs : Fields F X)
      → lookup j (insert k v fs) ≡ (if equal k j then some v else lookup j fs)
  unfolding lookup insert
  lookup-insert k j v no_fields = refl
  lookup-insert k j v (field i w fs) =
      ground (arith, equal_iff k j, equal_iff i k, equal_iff i j, lookup-insert k j v fs)

  abbrev pub as_bool : Option (Value F X) → Option Bool
  as_bool (some (bool b)) = some b
  as_bool _ = none

  abbrev pub as_int64 : Option (Value F X) → Option ℕ
  as_int64 (some (int64 n)) = some n
  as_int64 _ = none

  abbrev pub as_float64 : Option (Value F X) → Option F
  as_float64 (some (float64 x)) = some x
  as_float64 _ = none

  abbrev pub as_string : Option (Value F X) → Bytes
  as_string (some (str s)) = s
  as_string _ = []

  -- `Bool`, `Int64` and `Float`; `Int` is `Int64`, since int has 64 bits.
  unfoldable pub read_bool : Bytes → Fields F X → Option Bool
  unfolding lookup
  read_bool key c = as_bool (lookup key c)

  unfoldable pub read_int64 : Bytes → Fields F X → Option ℕ
  unfolding lookup
  read_int64 key c = as_int64 (lookup key c)

  unfoldable pub read_float : Bytes → Fields F X → Option F
  unfolding lookup
  read_float key c = as_float64 (lookup key c)

  -- `DefaultBool`, `DefaultInt64`, which is also `DefaultInt`, and `DefaultFloat`
  abbrev pub default_bool : Bytes → Bool → Fields F X → Bool
  default_bool key d c = or_default d (read_bool key c)

  abbrev pub default_int64 : Bytes → ℕ → Fields F X → ℕ
  default_int64 key d c = or_default d (read_int64 key c)

  abbrev pub default_float : Bytes → F → Fields F X → F
  default_float key d c = or_default d (read_float key c)

  -- `String`
  unfoldable pub string : Bytes → Fields F X → Bytes
  unfolding lookup
  string key c = as_string (lookup key c)

  -- `DefaultString`
  unfoldable pub default_string : Bytes → Bytes → Fields F X → Bytes
  unfolding string
  default_string key d c = elim (string key c) [ [] ↦ d | b ∷ v ↦ b ∷ v ]

  -- `Strings`
  unfoldable pub strings : Bytes → Fields F X → List Bytes
  unfolding string split_at
  strings key c = split_at b';' (string key c)

  -- `DefaultStrings`
  unfoldable pub default_strings : Bytes → List Bytes → Fields F X → List Bytes
  unfolding strings
  default_strings key d c = elim (strings key c) [ [] ↦ d | w ∷ ws ↦ w ∷ ws ]

  unfoldable pub texts : Entries F X → Got (List (Bytes × Bytes))
  texts no_entries = got []
  texts (entry (str k) (str v) es) = onto k v (texts es)
  texts (entry k v es) = panics

  abbrev pub section_of : Option (Value F X) → Got (List (Bytes × Bytes))
  section_of none = failed
  section_of (some (any_map es)) = texts es
  section_of (some v) = panics

  -- `GetSection`
  unfoldable pub get_section : Bytes → Fields F X → Got (List (Bytes × Bytes))
  unfolding lookup texts
  get_section s c = section_of (lookup s c)

  -- `Set`: `none` is the error for an empty key.
  unfoldable pub set : Bytes → Bytes → Fields F X → Option (Fields F X)
  unfolding insert
  set [] v c = none
  set (b ∷ key) v c = some (insert (b ∷ key) (str v) c)

  -- `DIY`
  unfoldable pub diy : Bytes → Fields F X → Option (Value F X)
  unfolding lookup
  diy key c = lookup key c

  -- The map under a key is made, if the key is not there.
  abbrev pub or_map : Option (Value F X) → Value F X
  or_map none = map no_fields
  or_map (some v) = v

  abbrev pub into : Bytes → Fields F X → Fields F X × Status → Fields F X × Status
  into k fs (sub, status) = (insert k (map sub) fs, status)

  abbrev pub into_value :
      Bytes → Fields F X → (Fields F X → Fields F X × Status) → Value F X → Fields F X × Status
  into_value k fs go (map sub) = into k fs (go sub)
  into_value k fs go w = (fs, asserted)

  -- `SetDIY` on the pieces of a key, with the number of levels left: the assertion that the value under
  -- a piece is a map panics if it is not.
  unfoldable pub set_path : ℕ → List Bytes → Value F X → Fields F X → Fields F X × Status
  unfolding insert lookup
  set_path zero ks v fs = (fs, too_deep)
  set_path (suc n) [] v fs = (fs, empty_key)
  set_path (suc n) (k ∷ []) v fs = (insert k v fs, stored)
  set_path (suc zero) (k ∷ j ∷ ks) v fs = (insert k (or_map (lookup k fs)) fs, too_deep)
  set_path (suc (suc n)) (k ∷ j ∷ ks) v fs =
      into_value k fs (set_path (suc n) (j ∷ ks) v) (or_map (lookup k fs))

  -- `SetDIY`: four levels at most
  unfoldable pub set_diy : Bytes → Value F X → Fields F X → Fields F X × Status
  unfolding set_path split_pair
  set_diy [] v fs = (fs, empty_key)
  set_diy (b ∷ key) v fs = set_path 4 (split_pair b':' b':' (b ∷ key)) v fs

  -- The value at a path through maps
  abbrev pub within_map :
      (Fields F X → Option (Value F X)) → Option (Value F X) → Option (Value F X)
  within_map go (some (map sub)) = go sub
  within_map go _ = none

  unfoldable pub value_at : List Bytes → Fields F X → Option (Value F X)
  unfolding lookup
  value_at [] fs = none
  value_at (k ∷ []) fs = lookup k fs
  value_at (k ∷ j ∷ ks) fs = within_map (value_at (j ∷ ks)) (lookup k fs)

  deep-into :
      (k : Bytes) (fs : Fields F X) (go : Fields F X → Fields F X × Status) (w : Value F X)
      → ((sub : Fields F X) → (go sub).1 ≢ too_deep)
      → (into_value k fs go w).1 ≢ too_deep
  deep-into k fs go (map sub) h = h sub
  deep-into k fs go null h = ground arith
  deep-into k fs go (bool b) h = ground arith
  deep-into k fs go (int64 n) h = ground arith
  deep-into k fs go (float64 x) h = ground arith
  deep-into k fs go (str s) h = ground arith
  deep-into k fs go (any_map es) h = ground arith
  deep-into k fs go (other x) h = ground arith

  -- A key of no more pieces than there are levels is never refused as too deep.
  pub set_path_bounds :
      (n : ℕ) (ks : List Bytes) (v : Value F X) (fs : Fields F X)
      → length ks ≤ n
      → ks ≢ []
      → (set_path n ks v fs).1 ≢ too_deep
  unfolding set_path
  set_path_bounds n [] v fs h ne = absurd (ne refl)
  set_path_bounds zero (k ∷ ks) v fs h ne = absurd (omega arith)
  set_path_bounds (suc zero) (k ∷ []) v fs h ne = ground arith
  set_path_bounds (suc (suc n)) (k ∷ []) v fs h ne = ground arith
  set_path_bounds (suc zero) (k ∷ j ∷ ks) v fs h ne = absurd (omega arith)
  set_path_bounds (suc (suc n)) (k ∷ j ∷ ks) v fs h ne =
      deep-into k fs (set_path (suc n) (j ∷ ks) v) (or_map (lookup k fs))
        (λ sub. set_path_bounds (suc n) (j ∷ ks) v sub (omega arith) (ground arith))
