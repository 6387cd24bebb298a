-- ===== src/Config/Ini/Lookups.antt =====
-- Reads after writes in the container of core/config/ini.go.
use thinkgo.Base.{
  ℕ, ◌&&◌, ◌≡◌, ◌≢◌, inl, inr, refl, sym, ap, subst, ◌∙◌, Bool, true, false, if◌then◌else◌, Bytes,
  List, [], ◌∷◌, Option, none, some, map, arith, equal, equal_iff, lookup, lookup-insert, to_lower,
  to_lower_idem, split_pair, Bool-cases, insert, onto_first, lower_byte,
}
use thinkgo.Config.Fake.{or_empty}
use thinkgo.Config.Ini.Parse.{Section, Ini, or_new, put}
use thinkgo.Config.Ini.Container.{section_key, pieces, value_in, value_at, get_data, set}

-- Whether two names name the same section and key.
abbrev pub same_place : Bytes × Bytes → Bytes × Bytes → Bool
same_place (s, k) (t, j) = equal s t && equal k j

value_in-or_new : (o : Option Section) (k : Bytes) → value_in o k ≡ or_empty (lookup k (or_new o))
value_in-or_new none k = unfold lookup in refl
value_in-or_new (some m) k = refl

value_in-if :
    (b : Bool) (x : Section) (o : Option Section) (k : Bytes)
    → value_in (if b then some x else o) k ≡ (if b then or_empty (lookup k x) else value_in o k)
value_in-if true x o k = refl
value_in-if false x o k = refl

pub value_at-put :
    (s k v : Bytes) (m : List (Bytes × Section)) (t j : Bytes)
    → value_at (t, j) (put s k v m) ≡ (if same_place (s, k) (t, j) then v else value_at (t, j) m)
unfolding value_at put
value_at-put s k v m t j =
    let own = insert k v (or_new (lookup s m)) in
    ap (λ o. value_in o j) (lookup-insert s t own m)
    ∙ value_in-if (equal s t) own (lookup t m) j
    ∙ ground (
      arith,
      equal_iff s t,
      lookup-insert k j v (or_new (lookup s m)),
      value_in-or_new (lookup s m) j,
    )

onto_first-to_lower :
    (c : ℕ) (ws : List Bytes)
    → onto_first (lower_byte c) (map to_lower ws) ≡ map to_lower (onto_first c ws)
unfolding to_lower
onto_first-to_lower c [] = refl
onto_first-to_lower c (w ∷ ws) = refl

-- A text in lower case splits into pieces in lower case.
split_pair-to_lower :
    (s : Bytes) → split_pair b':' b':' (to_lower s) ≡ map to_lower (split_pair b':' b':' s)
unfolding split_pair to_lower
split_pair-to_lower [] = refl
split_pair-to_lower (c ∷ []) = refl
split_pair-to_lower (c ∷ d ∷ s) = ground (
  arith,
  split_pair-to_lower s,
  split_pair-to_lower (d ∷ s),
  onto_first-to_lower c (split_pair b':' b':' (d ∷ s)),
)

-- What both parts of a place are, where the pieces come from a text in lower case.
abbrev pub IsLower : Bytes × Bytes → Type 0
IsLower (s, k) = (to_lower s ≡ s) × (to_lower k ≡ k)

section_key-IsLower : (ws : List Bytes) → IsLower (section_key (map to_lower ws))
section_key-IsLower [] = unfold to_lower in (refl, refl)
section_key-IsLower (k ∷ []) = (unfold to_lower in refl, to_lower_idem k)
section_key-IsLower (s ∷ k ∷ rest) = (to_lower_idem s, to_lower_idem k)

place-IsLower : (key : Bytes) → IsLower (section_key (pieces (to_lower key)))
place-IsLower key =
    subst (λ ws. IsLower (section_key ws)) (sym (split_pair-to_lower key))
      (section_key-IsLower (pieces key))

get_data-put :
    (s k v j : Bytes) (c : Ini)
    → j ≢ []
    → get_data j (record c { sections = put s k v c.sections })
      ≡ (if same_place (s, k) (section_key (pieces (to_lower j))) then v else get_data j c)
unfolding get_data
get_data-put s k v [] c ne = absurd (ne refl)
get_data-put s k v (b ∷ j) c ne =
    let (t, i) = section_key (pieces (to_lower (b ∷ j))) in value_at-put s k v c.sections t i

-- A value that is set under a key in lower case is what reads of that place give, in whatever case they
-- are written; other places read as before.
pub get_data-set_lower :
    (key v : Bytes) (c : Ini)
    → key ≢ []
    → to_lower key ≡ key
    → (after : Ini) × (set key v c ≡ some after)
      × ((j : Bytes)
          → j ≢ []
          → get_data j after ≡ (
              if same_place (section_key (pieces key)) (section_key (pieces (to_lower j)))
              then v
              else get_data j c))
unfolding set
get_data-set_lower [] v c ne low = absurd (ne refl)
get_data-set_lower (b ∷ key) v c ne low =
    let (s, k) = section_key (pieces (b ∷ key)) in
    (record c { sections = put s k v c.sections }, refl, λ j. get_data-put s k v j c)

same_place-IsLower : (p q : Bytes × Bytes) → ¬ IsLower p → IsLower q → same_place p q ≡ false
same_place-IsLower (s, k) (t, j) h low = elim (Bool-cases (equal s t && equal k j)) [
  | inl e ↦
      let p : s ≡ t = ground (arith, e, equal_iff s t) in
      let q : k ≡ j = ground (arith, e, equal_iff k j) in absurd (h (rw p (low.0), rw q (low.1)))
  | inr e ↦ e
]

get_data-put_capital :
    (s k v j : Bytes) (c : Ini)
    → ¬ IsLower (s, k)
    → get_data j (record c { sections = put s k v c.sections }) ≡ get_data j c
unfolding get_data
get_data-put_capital s k v [] c h = refl
get_data-put_capital s k v (b ∷ j) c h =
    let place = section_key (pieces (to_lower (b ∷ j))) in
    value_at-put s k v c.sections place.0 place.1
    ∙ rw (same_place-IsLower (s, k) place h (place-IsLower (b ∷ j))) refl

-- `Set` keeps the case of its key, while a read lowers it: a value that is set under a section or key
-- with a capital letter is never read, and no read changes.
pub get_data-set_capital :
    (key v : Bytes) (c : Ini)
    → key ≢ []
    → ¬ (IsLower (section_key (pieces key)))
    → (after : Ini) × (set key v c ≡ some after) × ((j : Bytes) → get_data j after ≡ get_data j c)
unfolding set
get_data-set_capital [] v c ne h = absurd (ne refl)
get_data-set_capital (b ∷ key) v c ne h =
    let (s, k) = section_key (pieces (b ∷ key)) in
    (record c { sections = put s k v c.sections }, refl, λ j. get_data-put_capital s k v j c h)
