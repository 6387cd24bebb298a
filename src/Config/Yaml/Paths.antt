-- ===== src/Config/Yaml/Paths.antt =====
-- `SetDIY` of core/config/yaml/yaml.go, by the values at the paths through maps.
use thinkgo.Base.{
  ℕ, zero, suc, ◌≡◌, ◌≢◌, refl, ap, sym, ◌∙◌, Bytes, List, [], ◌∷◌, Option, none, some, arith,
  equal_iff, equal_refl,
}
use thinkgo.Config.Yaml.{
  Value, null, bool, int64, float64, str, map, any_map, other, Fields, no_fields, Status, stored,
  lookup, insert, lookup-insert, or_map, into_value, set_path, within_map, value_at,
}

-- Two paths part before either ends: none of them goes through the value at the other.
pub data Parts : List Bytes → List Bytes → Type 0 where
  here : {k j : Bytes} {ks js : List Bytes} → k ≢ j → Parts (k ∷ ks) (j ∷ js)
  later : {k : Bytes} {ks js : List Bytes} → Parts ks js → Parts (k ∷ ks) (k ∷ js)

nothing-Parts : {js : List Bytes} → ¬ (Parts [] js)
nothing-Parts p = elim p [ ]

Parts-nothing : {ks : List Bytes} → ¬ (Parts ks [])
Parts-nothing p = elim p [ ]

module _ {F X : Type 0} where
  abbrev Onto : Bytes → Fields F X → (Fields F X → Fields F X × Status) → Value F X → Type 0
  Onto k fs go w =
      (sub : Fields F X) × (w ≡ map sub)
      × ((go sub).1 ≡ stored)
      × ((into_value k fs go w).0 ≡ insert k (map (go sub).0) fs)

  stored-into :
      (k : Bytes) (fs : Fields F X) (go : Fields F X → Fields F X × Status) (w : Value F X)
      → (into_value k fs go w).1 ≡ stored
      → Onto k fs go w
  stored-into k fs go (map sub) h = (sub, refl, h, refl)
  stored-into k fs go null h = cc
  stored-into k fs go (bool b) h = cc
  stored-into k fs go (int64 n) h = cc
  stored-into k fs go (float64 x) h = cc
  stored-into k fs go (str s) h = cc
  stored-into k fs go (any_map es) h = cc
  stored-into k fs go (other x) h = cc

  lookup-insert_self :
      (k : Bytes) (v : Value F X) (fs : Fields F X) → lookup k (insert k v fs) ≡ some v
  lookup-insert_self k v fs = lookup-insert k k v fs ∙ rw (equal_refl k) refl

  lookup-insert_other :
      (k j : Bytes) (v : Value F X) (fs : Fields F X)
      → k ≢ j
      → lookup j (insert k v fs) ≡ lookup j fs
  lookup-insert_other k j v fs h = lookup-insert k j v fs ∙ ground (arith, equal_iff k j, h)

  value_at-lookup :
      (j : Bytes) (js : List Bytes) (fs gs : Fields F X)
      → lookup j fs ≡ lookup j gs
      → value_at (j ∷ js) fs ≡ value_at (j ∷ js) gs
  unfolding value_at
  value_at-lookup j [] fs gs e = e
  value_at-lookup j (i ∷ js) fs gs e = ap (within_map (value_at (i ∷ js))) e

  -- A map that is made where there is none has no values.
  value_at-or_map :
      (j : Bytes) (js : List Bytes) (o : Option (Value F X)) (sub : Fields F X)
      → or_map o ≡ map sub
      → within_map (value_at (j ∷ js)) o ≡ value_at (j ∷ js) sub
  unfolding value_at lookup
  value_at-or_map j [] none sub e = let q : sub ≡ no_fields = cc in rw q refl
  value_at-or_map j (i ∷ js) none sub e = let q : sub ≡ no_fields = cc in rw q refl
  value_at-or_map j js (some w) sub e = rw e refl

  value_at-insert :
      (k j : Bytes) (js : List Bytes) (fs sub : Fields F X)
      → value_at (k ∷ j ∷ js) (insert k (map sub) fs) ≡ value_at (j ∷ js) sub
  unfolding value_at
  value_at-insert k j js fs sub =
      ap (within_map (value_at (j ∷ js))) (lookup-insert_self k (map sub) fs)

  value_at-set_self :
      (n : ℕ) (k : Bytes) (ks : List Bytes) (v : Value F X) (fs : Fields F X)
      → (set_path n (k ∷ ks) v fs).1 ≡ stored
      → value_at (k ∷ ks) (set_path n (k ∷ ks) v fs).0 ≡ some v
  unfolding set_path value_at
  value_at-set_self zero k ks v fs h = cc
  value_at-set_self (suc zero) k [] v fs h = lookup-insert_self k v fs
  value_at-set_self (suc (suc n)) k [] v fs h = lookup-insert_self k v fs
  value_at-set_self (suc zero) k (i ∷ ks) v fs h = cc
  value_at-set_self (suc (suc n)) k (i ∷ ks) v fs h =
      let go = set_path (suc n) (i ∷ ks) v in
      let (sub, _, p, e) = stored-into k fs go (or_map (lookup k fs)) h in
      ap (value_at (k ∷ i ∷ ks)) e
      ∙ value_at-insert k i ks fs (go sub).0
      ∙ value_at-set_self (suc n) i ks v sub p

  value_at-set_here :
      (n : ℕ) (k : Bytes) (ks : List Bytes) (v : Value F X) (fs : Fields F X) (j : Bytes)
      → (set_path n (k ∷ ks) v fs).1 ≡ stored
      → k ≢ j
      → lookup j (set_path n (k ∷ ks) v fs).0 ≡ lookup j fs
  unfolding set_path
  value_at-set_here zero k ks v fs j h ne = cc
  value_at-set_here (suc zero) k [] v fs j h ne = lookup-insert_other k j v fs ne
  value_at-set_here (suc (suc n)) k [] v fs j h ne = lookup-insert_other k j v fs ne
  value_at-set_here (suc zero) k (i ∷ ks) v fs j h ne = cc
  value_at-set_here (suc (suc n)) k (i ∷ ks) v fs j h ne =
      let go = set_path (suc n) (i ∷ ks) v in
      let (sub, _, _, e) = stored-into k fs go (or_map (lookup k fs)) h in
      ap (lookup j) e ∙ lookup-insert_other k j (map (go sub).0) fs ne

  value_at-set_other :
      (n : ℕ) (ks js : List Bytes) (v : Value F X) (fs : Fields F X)
      → (set_path n ks v fs).1 ≡ stored
      → Parts ks js
      → value_at js (set_path n ks v fs).0 ≡ value_at js fs
  unfolding set_path value_at
  value_at-set_other n _ _ v fs h (here {k = k} {j = j} {ks = ks} {js = js} ne) =
      value_at-lookup j js (set_path n (k ∷ ks) v fs).0 fs (value_at-set_here n k ks v fs j h ne)
  value_at-set_other zero _ _ v fs h (later p) = cc
  value_at-set_other (suc n) _ _ v fs h (later {ks = []} p) = absurd (nothing-Parts p)
  value_at-set_other (suc n) _ _ v fs h (later {ks = i ∷ ks} {js = []} p) = absurd (Parts-nothing p)
  value_at-set_other (suc zero) _ _ v fs h (later {ks = i ∷ ks} {js = j ∷ js} p) = cc
  value_at-set_other (suc (suc n)) _ _ v fs h (later {k = k} {ks = i ∷ ks} {js = j ∷ js} p) =
      let go = set_path (suc n) (i ∷ ks) v in
      let (sub, q, s, e) = stored-into k fs go (or_map (lookup k fs)) h in
      ap (value_at (k ∷ j ∷ js)) e
      ∙ value_at-insert k j js fs (go sub).0
      ∙ value_at-set_other (suc n) (i ∷ ks) (j ∷ js) v sub s p
      ∙ sym (value_at-or_map j js (lookup k fs) sub q)

  -- Where `SetDIY` succeeds at the pieces of a key, the value stands at that path, and at every path
  -- that parts from it, at whatever depth, stands what stood there before.
  pub value_at-set_path :
      (n : ℕ) (k : Bytes) (ks : List Bytes) (v : Value F X) (fs : Fields F X)
      → (set_path n (k ∷ ks) v fs).1 ≡ stored
      → (value_at (k ∷ ks) (set_path n (k ∷ ks) v fs).0 ≡ some v)
        × ((js : List Bytes)
            → Parts (k ∷ ks) js
            → value_at js (set_path n (k ∷ ks) v fs).0 ≡ value_at js fs)
  value_at-set_path n k ks v fs h =
      (value_at-set_self n k ks v fs h, λ js. value_at-set_other n (k ∷ ks) js v fs h)
