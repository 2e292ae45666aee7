-- ===== src/Operator/Complete.antt =====
-- What a configuration that `OperatorConfig.from_dict` returns has been checked for.
use radius_todolist_app.Prelude.{String, ◌≡◌, ◌⊎◌, Bool, Option, List, [], In}
use radius_todolist_app.Dict.{Dict}
use radius_todolist_app.Text.{concat}
use radius_todolist_app.Json.{Json}
use radius_todolist_app.Network.{Address}
use radius_todolist_app.Network.Separate.{IsAuthorized, Separate}
use radius_todolist_app.Operator.Allocation.{check_each, keys_of}
use radius_todolist_app.Operator.Load.{OperatorConfig, pairs_of}

-- The slot is one of the two slots of a pair, and both are in the list.
abbrev pub IsPaired : List String → String → Type 0
unfolding concat
IsPaired slots slot =
    (pair : String) × ((slot ≡ concat pair "-control") ⊎ (slot ≡ concat pair "-data"))
    × In (concat pair "-control") slots
    × In (concat pair "-data") slots

-- The slots are the management slot and both slots of each pair, and one pair is "shared".
abbrev pub IsComplete : List String → Type 0
unfolding IsPaired pairs_of
IsComplete slots =
    In "management" slots
    × In "shared" (pairs_of slots)
    × ((slot : String) → In slot slots → (slot ≡ "management") ⊎ IsPaired slots slot)

module _ (uuid : String → Option String) (hash : String → String) (is_public : Address → Bool) where
  -- The configuration keeps the foundation and the allocations, and they are accepted.
  abbrev pub IsPlaced : Dict Json → Dict Json → OperatorConfig → Type 0
  unfolding check_each keys_of
  IsPlaced foundation allocations config =
      (config.foundation ≡ foundation)
      × (config.allocations ≡ allocations)
      × IsAuthorized is_public foundation
      × Separate [] allocations
      × IsComplete (keys_of allocations)
