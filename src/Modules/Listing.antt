-- ===== src/Modules/Listing.antt =====
-- core/theme.go: `List`. `sort.Strings` is a parameter.
use mathlib.Core.List.{Perm, Permᴰ, reverse, reverse_perm}
use mathlib.Core.List.Perm
use mathlib.Core.Logic.{∥∥₁_elim}
use mathlib.Core.Option
use native.Mathlib.Decide.{ℕ_discrete}
use thinkgo.Base.{
  ◌≡◌, refl, Bool, true, false, ltb, ◌==◌, subst, ap, ◌∙◌, Bool-cases, inl, inr, if◌then◌else◌,
  Bytes, List, [], ◌∷◌, Option, none, some, map, equal, equal_iff, equal_refl, equal_comm, lookup,
  insert, lookup-insert, arith,
}
use thinkgo.Modules.Themes.{Theme, Themes, set, insert_all}

abbrev pub Sort : Type 0
Sort = List Bytes → List Bytes

abbrev pub keys : List (Bytes × Theme) → List Bytes
keys m = map (λ e. e.0) m

abbrev pub values : List (Bytes × Theme) → List Theme
values m = map (λ e. e.1) m

-- `List`: the names are stored from the end of the slice. `none` is a nil theme.
unfoldable pub list : Sort → Themes → List (Option Theme)
unfolding lookup
list sort s = elim s.themes [ none ↦ [] | some m ↦ map (λ k. lookup k m) (sort (reverse (keys m))) ]

-- Each theme stands under its name, once.
abbrev pub IsKeyed : List (Bytes × Theme) → Type 0
IsKeyed [] = Unit
IsKeyed ((k, t) ∷ m) = (t.name ≡ k) × (lookup k m ≡ none) × IsKeyed m

insert-IsKeyed : (t : Theme) (m : List (Bytes × Theme)) → IsKeyed m → IsKeyed (insert t.name t m)
unfolding insert
insert-IsKeyed t [] h = (refl, unfold lookup in refl, tt)
insert-IsKeyed t ((k, u) ∷ m) (n, f, h) = elim (Bool-cases (equal k t.name)) [
  | inl e ↦ rw e (refl, subst (λ j. lookup j m ≡ none) ((equal_iff k t.name).0 e) f, h)
  | inr e ↦
      rw e (n, lookup-insert t.name k t m ∙ rw (equal_comm t.name k ∙ e) f, insert-IsKeyed t m h)
]

insert_all-IsKeyed :
    (ts : List Theme) (m : List (Bytes × Theme)) → IsKeyed m → IsKeyed (insert_all ts m)
unfolding insert_all
insert_all-IsKeyed [] m h = h
insert_all-IsKeyed (t ∷ ts) m h = insert_all-IsKeyed ts (insert t.name t m) (insert-IsKeyed t m h)

-- A map gives the entries of a list.
abbrev Finds : List (Bytes × Theme) → List (Bytes × Theme) → Type 0
Finds [] m = Unit
Finds ((k, t) ∷ es) m = (lookup k m ≡ some t) × Finds es m

Finds-cons :
    (es m : List (Bytes × Theme)) (k : Bytes) (t : Theme)
    → lookup k es ≡ none
    → Finds es m
    → Finds es ((k, t) ∷ m)
unfolding lookup
Finds-cons [] m k t h f = tt
Finds-cons ((j, u) ∷ es) m k t h f =
    (ground (arith, equal_comm j k, h, f.0), Finds-cons es m k t (ground (arith, h)) f.1)

IsKeyed-Finds : (m : List (Bytes × Theme)) → IsKeyed m → Finds m m
unfolding lookup
IsKeyed-Finds [] h = tt
IsKeyed-Finds ((k, t) ∷ m) (n, f, h) =
    (rw (equal_refl k) refl, Finds-cons m m k t f (IsKeyed-Finds m h))

map-lookup-keys :
    (es m : List (Bytes × Theme))
    → Finds es m
    → map (λ k. lookup k m) (keys es) ≡ map some (values es)
map-lookup-keys [] m f = refl
map-lookup-keys ((k, t) ∷ es) m f = cc (map-lookup-keys es m f.1, f.0)

-- The name of the theme that stands under a key
abbrev name_under : List (Bytes × Theme) → Bytes → Option Bytes
name_under m k = Option.map (λ t. t.name) (lookup k m)

map-name_under :
    (es m : List (Bytes × Theme))
    → IsKeyed es
    → Finds es m
    → map (name_under m) (keys es) ≡ map some (keys es)
map-name_under [] m h f = refl
map-name_under ((k, t) ∷ es) m (n, _, h) f =
    let e : name_under m k ≡ some k = rw f.0 (ap some n) in cc (e, map-name_under es m h f.1)

-- What holds at each element of a list holds at each of a permutation of it.
map-Permᴰ :
    {A B : Type 0} (f g : A → B) {xs ys : List A}
    → Permᴰ xs ys
    → map f ys ≡ map g ys
    → map f xs ≡ map g xs
map-Permᴰ f g Permᴰ.nil h = refl
map-Permᴰ f g (Permᴰ.cons e p) h = cc (map-Permᴰ f g p (cc), ap f e, ap g e)
map-Permᴰ f g (Permᴰ.swap e e') h = cc (ap f e, ap g e, ap f e', ap g e')
map-Permᴰ f g (Permᴰ.trans p q) h = map-Permᴰ f g p (map-Permᴰ f g q h)

-- The order of Go's strings
unfoldable pub at_most : Bytes → Bytes → Bool
at_most [] t = true
at_most (c ∷ s) [] = false
at_most (c ∷ s) (d ∷ t) = if ltb c d then true else if c == d then at_most s t else false

abbrev pub AtMost : Bytes → Bytes → Type 0
AtMost s t = at_most s t ≡ true

pub at_most_total : (s t : Bytes) → at_most s t ≡ false → AtMost t s
unfolding at_most
at_most_total [] t h = cc
at_most_total (c ∷ s) [] h = refl
at_most_total (c ∷ s) (d ∷ t) h = ground (arith, at_most_total s t)

abbrev pub IsAscending : List Bytes → Type 0
IsAscending [] = Unit
IsAscending (s ∷ []) = Unit
IsAscending (s ∷ t ∷ ks) = AtMost s t × IsAscending (t ∷ ks)

-- What is known of `sort.Strings`
pub record Sorts (sort : Sort) : Type 0 where
  pub same : (ks : List Bytes) → Perm (sort ks) ks
  pub ascending : (ks : List Bytes) → IsAscending (sort ks)

map-name-lookup :
    (m : List (Bytes × Theme)) (ks : List Bytes)
    → map (Option.map (λ (t : Theme). t.name)) (map (λ k. lookup k m) ks) ≡ map (name_under m) ks
map-name-lookup m [] = refl
map-name-lookup m (k ∷ ks) = ap (◌∷◌ (name_under m k)) (map-name-lookup m ks)

texts_set : IsSet (List (Option Bytes))
texts_set = hlevel ℕ_discrete

module _ (sort : Sort) (sorts : Sorts sort) (s : Themes) (m : List (Bytes × Theme)) where
  sorted_keys : Perm (sort (reverse (keys m))) (keys m)
  sorted_keys = Perm.trans (sorts.same (reverse (keys m))) (reverse_perm (keys m))

  -- Where each theme stands under its name, `List` gives each theme once, and their names ascend.
  pub list-Perm :
      s.themes ≡ some m
      → IsKeyed m
      → Perm (list sort s) (map some (values m))
        × ((names : List Bytes) × (map (Option.map (λ (t : Theme). t.name)) (list sort s)
              ≡ map some names)
            × IsAscending names)
  unfolding list
  list-Perm e h =
      let f = IsKeyed-Finds m h in
      let found = λ (k : Bytes). lookup k m in
      let sorted = sort (reverse (keys m)) in
      let all : Perm (map found sorted) (map some (values m)) =
        subst (Perm (map found sorted)) (map-lookup-keys m m f) (Perm.map found sorted_keys) in
      let named : map (name_under m) sorted ≡ map some sorted =
        ∥∥₁_elim sorted_keys (texts_set _ _)
          (λ p. map-Permᴰ (name_under m) some p (map-name_under m m h f)) in
      rw e (all, (sorted, map-name-lookup m sorted ∙ named, sorts.ascending (reverse (keys m))))

-- `Set` and `Add` put each theme under its name.
pub set-IsKeyed :
    (t : Theme) (ts : List Theme) (s : Themes)
    → (m : List (Bytes × Theme)) × ((set (t ∷ ts) s).themes ≡ some m) × IsKeyed m
unfolding set
set-IsKeyed t ts s = (insert_all (t ∷ ts) [], refl, insert_all-IsKeyed (t ∷ ts) [] tt)
