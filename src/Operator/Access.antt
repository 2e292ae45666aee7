-- ===== src/Operator/Access.antt =====
-- The accessors of `OperatorConfig` in src/plane_demo/management/provisioning.py. The order of the
-- texts that `sorted` uses is a parameter.
use radius_todolist_app.Prelude.{String, Bool, none, some, List, [], ◌∷◌, str_eq, if◌then◌else◌}
use radius_todolist_app.Error.{Result, ok, err, provisioning, ◌>>=◌}
use radius_todolist_app.Dict.{Dict, get}
use radius_todolist_app.Text.{concat, rpartition}
use radius_todolist_app.Json.{Json, dict_of}
use radius_todolist_app.Identity.Config.{stem}
use radius_todolist_app.Identity.Values.{public_values}
use radius_todolist_app.Identity.Names as Names
use radius_todolist_app.Operator.{is_slug, is_text, text_at}
use radius_todolist_app.Operator.Allocation.{keys_of}
use radius_todolist_app.Operator.Load.{OperatorConfig, pairs_of}
use radius_todolist_app.Provisioning.{reporting_role_of}

module _ (config : OperatorConfig) where
  unfoldable pub bootstrap_settings : Result (Dict String)
  unfolding public_values
  bootstrap_settings = elim config.identity [
    | none ↦ err (provisioning "bootstrap_identity_required")
    | some c ↦ ok (public_values c)
  ]

  unfoldable pub project_name : Result String
  unfolding text_at
  project_name = text_at "projectName" config.foundation

  unfoldable pub prepared_environments : Bool
  unfolding get
  prepared_environments = is_text (get "environmentMode" config.foundation) "prepared-v1"

  unfoldable pub resource_prefix : String
  unfolding stem
  resource_prefix = elim config.identity [ none ↦ "radplanes" | some c ↦ stem c ]

  -- `allocation`
  unfoldable pub allocation : String → Result (Dict Json)
  unfolding is_slug get
  allocation slot =
      if is_slug slot
      then elim (get slot config.allocations) [
        | none ↦ err (provisioning "allocation_unavailable")
        | some value ↦ dict_of value
      ]
      else err (provisioning "allocation_unavailable")

  -- `slot.rsplit("-", 1)[1]`; every slot but "management" has a "-"
  role_of : String → String
  unfolding rpartition
  role_of slot =
      if str_eq slot "management"
      then "management"
      else elim (rpartition slot) [ none ↦ slot | some (pair, role) ↦ role ]

  -- `namespace`
  unfoldable pub namespace : String → Result String
  unfolding allocation role_of concat Names.namespace
  namespace slot = do
    found ← allocation slot
    elim config.identity [
      | some c ↦ Names.namespace c slot
      | none ↦ ok (concat "radplanes-" (concat slot (concat "-" (role_of slot))))
    ]

  -- `workspace`
  unfoldable pub workspace : String → Result String
  unfolding allocation resource_prefix concat
  workspace slot = do found ← allocation slot; ok (concat resource_prefix (concat "-" slot))

  module _ (precedes : String → String → Bool) where
    insert : String → List String → List String
    insert s [] = s ∷ []
    insert s (t ∷ ts) = let rest = insert s ts in if precedes t s then t ∷ rest else s ∷ t ∷ ts

    sorted : List String → List String
    unfolding insert
    sorted [] = []
    sorted (s ∷ ss) = insert s (sorted ss)

    roles_of : List String → List (String × String)
    unfolding reporting_role_of
    roles_of [] = []
    roles_of (pair ∷ pairs) = (pair, reporting_role_of pair) ∷ roles_of pairs

    -- `pair_slots`, as pairs of a pair's id and its reporting role
    unfoldable pub pair_slots : List (String × String)
    unfolding sorted roles_of pairs_of keys_of
    pair_slots = roles_of (sorted (pairs_of (keys_of config.allocations)))
