-- ===== src/Context/Store.antt =====
-- core/context.go: the store of a context, and `H.TrySet` of core/utils.go. A map is an association
-- list; `none` is a nil map.
use thinkgo.Base.{
  ◌≡◌, refl, if◌then◌else◌, Bytes, List, [], Option, none, some, equal, equal_iff, arith, lookup,
  insert, lookup-insert,
}

-- The `store` field
abbrev pub Store : Type 0 → Type 0
Store V = Option (List (Bytes × V))

module _ {V : Type 0} where
  -- `Get`: a nil map has no key.
  unfoldable pub get : Bytes → Store V → Option V
  unfolding lookup
  get k none = none
  get k (some m) = lookup k m

  -- `Set`, which makes the map where it is nil
  unfoldable pub set : Bytes → V → Store V → Store V
  unfolding insert
  set k v none = some (insert k v [])
  set k v (some m) = some (insert k v m)

  -- `TrySet`
  unfoldable pub try_set : Bytes → V → Store V → Store V
  unfolding get set
  try_set k v s = elim (get k s) [ some _ ↦ s | none ↦ set k v s ]

  -- `H.TrySet` of core/utils.go: the write to a nil map panics.
  unfoldable pub h_try_set : Bytes → V → Store V → Option (Store V)
  unfolding get insert
  h_try_set k v none = none
  h_try_set k v (some m) = elim (lookup k m) [
    | some _ ↦ some (some m)
    | none ↦ some (some (insert k v m))
  ]

  -- A read gives the last value that was set under the key, also on a store that was reset.
  pub get-set :
      (k j : Bytes) (v : V) (s : Store V)
      → get j (set k v s) ≡ (if equal k j then some v else get j s)
  unfolding get set
  get-set k j v none = unfold lookup insert in refl
  get-set k j v (some m) = lookup-insert k j v m

  -- `TrySet` gives a key its value only where it has none; no other key changes.
  pub get-try_set :
      (k j : Bytes) (v : V) (s : Store V)
      → get j (try_set k v s)
        ≡ (if equal k j then elim (get k s) [ some w ↦ some w | none ↦ some v ] else get j s)
  unfolding try_set
  get-try_set k j v s = ground (arith, get-set k j v s, equal_iff k j)
