-- ===== src/Config/Registry.antt =====
-- core/config/config.go: the adapters by name. An adapter is a parameter with its two functions, `none`
-- for an error.
use thinkgo.Base.{
  ◌≡◌, refl, ap, ◌∙◌, Bool, true, false, if◌then◌else◌, Bytes, List, Option, none, some, equal,
  equal_refl, lookup, insert, lookup-insert,
}

pub record Config (C : Type 0) : Type 0 where
  pub parse : Bytes → Option C
  pub parse_data : Bytes → Option C

module _ {C : Type 0} where
  -- A new adapter, where the name is not taken.
  abbrev pub add_new :
      Bytes
      → Config C
      → List (Bytes × Config C)
      → Option (Config C)
      → Option (List (Bytes × Config C))
  add_new name a adapters none = some (insert name a adapters)
  add_new name a adapters (some _) = none

  -- `Register`: `none` is a panic, for a nil adapter or a name that is taken.
  unfoldable pub register :
      Bytes → Option (Config C) → List (Bytes × Config C) → Option (List (Bytes × Config C))
  unfolding lookup insert
  register name none adapters = none
  register name (some a) adapters = add_new name a adapters (lookup name adapters)

  -- What an adapter does, where there is one.
  abbrev pub parsed : (Config C → Option C) → Option (Config C) → Option C
  parsed f none = none
  parsed f (some a) = f a

  -- `NewConfig`
  unfoldable pub new_config : Bytes → Bytes → List (Bytes × Config C) → Option C
  unfolding lookup
  new_config name file adapters = parsed (λ a. a.parse file) (lookup name adapters)

  -- `NewConfigData`
  unfoldable pub new_config_data : Bytes → Bytes → List (Bytes × Config C) → Option C
  unfolding lookup
  new_config_data name text adapters = parsed (λ a. a.parse_data text) (lookup name adapters)

  parsed-if :
      (f : Config C → Option C) (b : Bool) (a : Config C) (o : Option (Config C))
      → parsed f (if b then some a else o) ≡ (if b then f a else parsed f o)
  parsed-if f true a o = refl
  parsed-if f false a o = refl

  -- Registering an adapter under a name that is free succeeds; from then on that name parses with the
  -- adapter, other names as before, and a second registration of the name panics.
  pub register-new_config :
      (name : Bytes) (a : Config C) (adapters : List (Bytes × Config C))
      → lookup name adapters ≡ none
      → (after : List (Bytes × Config C)) × (register name (some a) adapters ≡ some after)
        × ((j text : Bytes)
            → new_config_data j text after
              ≡ (if equal name j then a.parse_data text else new_config_data j text adapters))
        × ((b : Config C) → register name (some b) after ≡ none)
  unfolding register new_config_data
  register-new_config name a adapters free = (
    insert name a adapters,
    ap (add_new name a adapters) free,
    λ j text.
        ap (parsed (λ c. c.parse_data text)) (lookup-insert name j a adapters)
        ∙ parsed-if (λ c. c.parse_data text) (equal name j) a (lookup j adapters),
    λ b. ap (add_new name b (insert name a adapters)) (
        lookup-insert name name a adapters
        ∙ ap (λ t. if t then some a else lookup name adapters) (equal_refl name)),
  )
