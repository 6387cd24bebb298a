-- ===== src/Config/Fake.antt =====
-- core/config/fake.go: `fakeConfigContainer`. A typed read takes the function of strconv that it calls as
-- an argument, `none` for an error. The operations that only return an error are left out.
use thinkgo.Base.{
  ◌≡◌, ap, ◌∙◌, if◌then◌else◌, Bytes, List, [], ◌∷◌, Option, none, some, equal, equal_refl, arith,
  lookup, insert, lookup-insert, to_lower, split_at, split_at-ne-nil,
}

abbrev pub Data : Type 0
Data = List (Bytes × Bytes)

abbrev pub or_empty : Option Bytes → Bytes
or_empty none = []
or_empty (some v) = v

-- `getData`, which is also `String`
unfoldable pub get_data : Bytes → Data → Bytes
unfolding lookup to_lower
get_data key entries = or_empty (lookup (to_lower key) entries)

-- `Set`
unfoldable pub set : Bytes → Bytes → Data → Data
unfolding insert to_lower
set key val entries = insert (to_lower key) val entries

-- `DefaultString`
unfoldable pub default_string : Bytes → Bytes → Data → Bytes
unfolding get_data
default_string key d entries = elim (get_data key entries) [ [] ↦ d | c ∷ v ↦ c ∷ v ]

-- `Strings`
unfoldable pub strings : Bytes → Data → List Bytes
unfolding get_data split_at
strings key entries = split_at b';' (get_data key entries)

-- `DefaultStrings`
unfoldable pub default_strings : Bytes → List Bytes → Data → List Bytes
unfolding strings
default_strings key d entries = elim (strings key entries) [ [] ↦ d | w ∷ ws ↦ w ∷ ws ]

abbrev pub or_default : {A : Type 0} → A → Option A → A
or_default d none = d
or_default d (some v) = v

module _ {A : Type 0} (parse : Bytes → Option A) where
  -- `Int`, `Int64`, `Bool` and `Float`
  unfoldable pub read : Bytes → Data → Option A
  unfolding get_data
  read key entries = parse (get_data key entries)

  -- `DefaultInt`, `DefaultInt64`, `DefaultBool` and `DefaultFloat`
  unfoldable pub default_read : Bytes → A → Data → A
  unfolding read
  default_read key d entries = or_default d (read key entries)

-- `DIY`
unfoldable pub diy : Bytes → Data → Option Bytes
unfolding lookup to_lower
diy key entries = lookup (to_lower key) entries

-- A read gives the value that was last set under the key, in whatever case the two were written.
pub get_data-set :
    (k j v : Bytes) (entries : Data)
    → get_data j (set k v entries)
      ≡ (if equal (to_lower k) (to_lower j) then v else get_data j entries)
unfolding get_data set
get_data-set k j v entries =
    ap or_empty (lookup-insert (to_lower k) (to_lower j) v entries) ∙ ground (arith)

-- The default of `DefaultStrings` is never used: it is `Strings` on every container.
pub default_strings-strings :
    (key : Bytes) (d : List Bytes) (entries : Data)
    → default_strings key d entries ≡ strings key entries
unfolding default_strings strings
default_strings-strings key d entries = ground (arith, split_at-ne-nil b';' (get_data key entries))

-- What a writer of values prints, `DefaultInt` and its like read back, where parsing undoes printing.
pub default_read-set :
    {A : Type 0} (parse : Bytes → Option A) (print : A → Bytes)
    → ((a : A) → parse (print a) ≡ some a)
    → (k : Bytes) (a d : A) (entries : Data) → default_read parse k d (set k (print a) entries) ≡ a
unfolding default_read read
default_read-set parse print undo k a d entries =
    let t = ap (λ b. if b then print a else get_data k entries) (equal_refl (to_lower k)) in
    ap (or_default d) (ap parse (get_data-set k k (print a) entries ∙ t) ∙ undo a)
