-- ===== src/Operator/Foundation.antt =====
-- The checks of `OperatorConfig.from_dict` on the saved identity and the foundation, in
-- src/plane_demo/management/provisioning.py. A saved setting that is neither a text nor null is
-- refused with one message.

use radius_todolist_app.Prelude.{
  ℕ, String, Bool, true, false, not, ◌&&◌, ◌||◌, Option, none, some, List, [], ◌∷◌, str_eq, ◌==◌,
  if◌then◌else◌,
}
use radius_todolist_app.Error.{Result, ok, err, value_error, ◌>>=◌, ◌>>◌, raise_if}
use radius_todolist_app.Dict.{Dict, get}
use radius_todolist_app.Text.{concat, is_one_of, str}
use radius_todolist_app.Json.{Json, null, int, text, obj, fields}
use radius_todolist_app.Identity.Config.{
  DemoConfig, is_choice, aks_tiers, node_counts, node_disks, postgres_storages, redis_skus,
  gateway_capacities, registry_skus, vault_skus,
}
use radius_todolist_app.Identity.Values.{
  public_keys, public_values, from_values, resource_sizes, sizing_keys,
}

-- The settings of `bootstrapIdentity` as texts; null is None, and a sizing choice is no None.
setting_texts : Dict Json → Result (Dict String)
unfolding is_one_of
setting_texts [] = ok []
setting_texts ((k, text s) ∷ m) = do rest ← setting_texts m; ok ((k, s) ∷ rest)
setting_texts ((k, null) ∷ m) =
    if is_one_of k sizing_keys then err (value_error "Invalid sizing choice") else setting_texts m
setting_texts ((k, _) ∷ m) = err (value_error "Invalid setting")

eq_dict : Dict String → Dict String → Bool
eq_dict [] [] = true
eq_dict ((k, v) ∷ m) ((k', v') ∷ m') = str_eq k k' && str_eq v v' && eq_dict m m'
eq_dict _ _ = false

knows_keys : Dict Json → Bool
unfolding is_one_of
knows_keys [] = true
knows_keys ((k, v) ∷ m) = is_one_of k public_keys && knows_keys m

module _ (uuid : String → Option String) where
  saved_identity : Json → Result DemoConfig
  unfolding setting_texts from_values knows_keys
  saved_identity value = elim value [
    | obj fs ↦
        if knows_keys (fields fs)
        then (do settings ← setting_texts (fields fs); from_values uuid settings)
        else err (value_error "bootstrap identity accepts public settings only")
    | _ ↦ err (value_error "bootstrap identity accepts public settings only")
  ]

  -- The identity that is used: the given one, or the saved one.
  unfoldable pub select_identity : Dict Json → Option DemoConfig → Result (Option DemoConfig)
  unfolding saved_identity eq_dict public_values get
  select_identity m identity = elim (get "bootstrapIdentity" m) [
    | none ↦ ok identity
    | some value ↦ do
      saved ← saved_identity value
      elim identity [
        | none ↦ ok (some saved)
        | some given ↦ do
          raise_if (not (eq_dict (public_values saved) (public_values given)))
              (value_error "bootstrap identity mismatch")
          ok (some given)
      ]
  ]

-- `type(value) is type(choices[0]) and value in choices`
text_choice : Option Json → List String → Bool
unfolding is_one_of
text_choice (some (text s)) choices = is_one_of s choices
text_choice _ choices = false

number_choice : Option Json → List ℕ → Bool
unfolding is_choice
number_choice (some (int n)) choices = is_choice n choices
number_choice _ choices = false

sizing_field : Bool → String → Result (Unit {0})
unfolding concat
sizing_field valid key =
    raise_if (not valid) (value_error (concat "invalid foundation sizing field: " key))

-- The loop over RESOURCE_SIZING.
unfoldable pub check_sizing : Dict Json → Result (Unit {0})
unfolding text_choice number_choice sizing_field get
check_sizing foundation = do
  sizing_field (text_choice (get "aksTier" foundation) aks_tiers) "aksTier"
  sizing_field (number_choice (get "nodeCount" foundation) node_counts) "nodeCount"
  sizing_field (number_choice (get "nodeOsDiskSizeGb" foundation) node_disks) "nodeOsDiskSizeGb"
  sizing_field (number_choice (get "postgresStorageSizeGb" foundation) postgres_storages)
      "postgresStorageSizeGb"
  sizing_field (text_choice (get "redisSkuName" foundation) redis_skus) "redisSkuName"
  sizing_field (number_choice (get "gatewayCapacity" foundation) gateway_capacities)
      "gatewayCapacity"
  sizing_field (text_choice (get "registrySkuName" foundation) registry_skus) "registrySkuName"
  sizing_field (text_choice (get "vaultSkuName" foundation) vault_skus) "vaultSkuName"

-- A size of the foundation is the identity's, which is kept as a text.
shows_size : Option Json → String → Bool
unfolding str
shows_size (some (text s)) v = str_eq s v
shows_size (some (int n)) v = str_eq (str n) v
shows_size _ v = false

has_sizes : Dict Json → Dict String → Bool
unfolding shows_size get
has_sizes foundation [] = true
has_sizes foundation ((k, v) ∷ m) = shows_size (get k foundation) v && has_sizes foundation m

-- `profile is None`, and `type(profile) is int and profile == 1`
unfoldable pub is_absent : Option Json → Bool
is_absent none = true
is_absent (some null) = true
is_absent _ = false

is_one : Option Json → Bool
is_one (some (int n)) = n == 1
is_one _ = false

unfoldable pub check_profile : Dict Json → Result (Unit {0})
unfolding is_absent is_one check_sizing get
check_profile foundation =
    let profile = get "resourceSizingVersion" foundation in
    let sizes = check_sizing foundation in
    do
      raise_if (not (is_absent profile) && not (is_one profile))
          (value_error "unsupported resource sizing profile")
      if is_one profile then sizes else ok tt

unfoldable pub check_identity_sizes : Dict Json → DemoConfig → Result (Unit {0})
unfolding is_one has_sizes resource_sizes get
check_identity_sizes foundation c = elim (resource_sizes c) [
  | [] ↦ ok tt
  | size ∷ sizes ↦
      raise_if
        (not (is_one (get "resourceSizingVersion" foundation))
          || not (has_sizes foundation (size ∷ sizes)))
        (value_error "foundation resource sizing differs from the selected configuration")
]
