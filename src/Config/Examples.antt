-- ===== src/Config/Examples.antt =====
-- The containers for json and yaml at concrete inputs.
use thinkgo.Base.{ℕ, ◌≡◌, refl, if◌then◌else◌, Bytes, List, [], ◌∷◌, some, equal, codes}
use thinkgo.Base.{ℕ, ◌≢◌, split_pair}
use thinkgo.Config.Json
use thinkgo.Config.Json.{Json, first_piece, get_data-set_piece}
use thinkgo.Config.Yaml
use thinkgo.Config.Yaml.{stored, too_deep, value_at, set_path, set_path_bounds}
use thinkgo.Config.Yaml.Paths.{Parts, value_at-set_path}

abbrev json_map : List (Bytes × Json.Value ℕ)
json_map = (codes "port", Json.number 80) ∷ []

get_data-set_piece_example :
    (after : Json ℕ) × (Json.set (codes "host") (codes "x") (some json_map) ≡ some after)
    × ((j : Bytes)
        → j ≢ []
        → Json.get_data j after ≡ (
            if equal (codes "host") (first_piece (split_pair b':' b':' j))
            then Json.str (codes "x")
            else Json.get_data j (some json_map)))
get_data-set_piece_example = get_data-set_piece (codes "host") (codes "x") json_map

abbrev no_sections : Yaml.Fields ℕ ℕ
no_sections = Yaml.no_fields

-- A section that has a port
abbrev port_1 : Yaml.Fields ℕ ℕ
port_1 =
    Yaml.field (codes "db") (Yaml.map (Yaml.field (codes "port") (Yaml.int64 1) Yaml.no_fields))
      Yaml.no_fields

abbrev host_x : Yaml.Fields ℕ ℕ
host_x = (set_path 4 (codes "db" ∷ codes "host" ∷ []) (Yaml.int64 1) port_1).0

host_x_stored : (set_path 4 (codes "db" ∷ codes "host" ∷ []) (Yaml.int64 1) port_1).1 ≡ stored
unfolding set_path Yaml.lookup equal
host_x_stored = refl

value_at-set_path_example :
    (value_at (codes "db" ∷ codes "host" ∷ []) host_x ≡ some (Yaml.int64 1))
    × ((js : List Bytes)
        → Parts (codes "db" ∷ codes "host" ∷ []) js
        → value_at js host_x ≡ value_at js port_1)
value_at-set_path_example =
    value_at-set_path 4 (codes "db") (codes "host" ∷ []) (Yaml.int64 1) port_1 host_x_stored
