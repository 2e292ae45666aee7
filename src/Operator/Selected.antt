-- ===== src/Operator/Selected.antt =====
-- The checks of `OperatorConfig.from_dict` on the foundation of the selected deployment, in
-- src/plane_demo/management/provisioning.py.

use radius_todolist_app.Prelude.{
  String, Bool, false, not, ◌&&◌, ◌||◌, Option, none, some, [], ◌∷◌, str_eq,
}
use radius_todolist_app.Error.{Result, ok, value_error, ◌>>=◌, ◌>>◌, raise_if}
use radius_todolist_app.Dict.{Dict, get}
use radius_todolist_app.Text.{concat, is_one_of, is_alnum, is_run}
use radius_todolist_app.Json.{Json, text, at_key}
use radius_todolist_app.Identity.Config.{DemoConfig, stem, is_standard_size}
use radius_todolist_app.Identity.Names.{registry_name, vault_name}
use radius_todolist_app.Operator.{is_text, text_at, check_uuid}
use radius_todolist_app.Operator.Foundation.{is_absent, check_profile, check_identity_sizes}

is_size_text : Option Json → Bool
unfolding is_standard_size
is_size_text (some (text s)) = is_standard_size s
is_size_text _ = false

is_tier_text : Option Json → Bool
unfolding is_one_of
is_tier_text (some (text s)) = is_one_of s ("Burstable" ∷ "GeneralPurpose" ∷ "MemoryOptimized" ∷ [])
is_tier_text _ = false

-- `actual == expected`, for a setting of the identity
eq_setting : Option Json → Option String → Bool
unfolding is_absent
eq_setting actual none = is_absent actual
eq_setting actual (some expected) = is_text actual expected

check_postgres : Dict Json → Result (Unit {0})
unfolding is_absent is_size_text is_tier_text get
check_postgres foundation =
    let name = get "postgresSkuName" foundation in
    let tier = get "postgresSkuTier" foundation in
    raise_if
      (not (is_absent name && is_absent tier) && not (is_size_text name && is_tier_text tier))
      (value_error "invalid foundation PostgreSQL compute selection")

check_identity_postgres : Dict Json → DemoConfig → Result (Unit {0})
unfolding eq_setting get
check_identity_postgres foundation c = elim c.postgres_sku_name [
  | none ↦ ok tt
  | some name ↦
      raise_if
        (not (eq_setting (get "postgresSkuName" foundation) (some name))
          || not (eq_setting (get "postgresSkuTier" foundation) c.postgres_sku_tier))
        (value_error "foundation PostgreSQL compute does not match the selected deployment")
]

-- The foundation is the identity's.
unfoldable pub is_selected : Dict Json → DemoConfig → Bool
unfolding eq_setting stem get
is_selected foundation c =
    str_eq c.environment "azure"
    && is_text (get "projectName" foundation) c.project
    && is_text (get "deploymentName" foundation) c.deployment
    && is_text (get "environment" foundation) "azure"
    && eq_setting (get "subscriptionId" foundation) c.subscription
    && eq_setting (get "location" foundation) c.location
    && is_text (get "resourcePrefix" foundation) (stem c)
    && is_text (get "radiusResourceGroup" foundation) (stem c)

check_selected : Dict Json → DemoConfig → Result (Unit {0})
unfolding is_selected get
check_selected foundation c = do
  raise_if (not (is_text (get "resourceGroupLayout" foundation) "plane-v2"))
      (value_error "unsupported resource group layout; use a fresh deployment")
  raise_if (not (is_selected foundation c))
      (value_error "foundation does not match the selected deployment")

-- The branch without an identity.
check_default : Dict Json → Result (Unit {0})
unfolding at_key
check_default foundation = do
  project ← at_key "projectName" foundation
  raise_if (not (is_text (some project) "radplanes"))
      (value_error "this deployment requires radplanes in centralus")
  location ← at_key "location" foundation
  raise_if (not (is_text (some location) "centralus"))
      (value_error "this deployment requires radplanes in centralus")

check_mode : Option Json → Result (Unit {0})
unfolding is_absent
check_mode mode =
    raise_if (not (is_absent mode || is_text mode "prepared-v1"))
      (value_error "unsupported environment preparation mode")

-- The checks for an identity, where there is one.
abbrev pub for_identity : Option DemoConfig → (DemoConfig → Result (Unit {0})) → Result (Unit {0})
for_identity none check = ok tt
for_identity (some c) check = check c

module _ (uuid : String → Option String) (hash : String → String) where
  -- The registry of the foundation.
  check_registry : Dict Json → Option DemoConfig → Result String
  unfolding text_at at_key is_run concat registry_name vault_name get
  check_registry foundation identity = do
    registry ← text_at "registryName" foundation
    raise_if (not (is_run is_alnum 5 50 registry)) (value_error "invalid registry")
    server ← at_key "registryLoginServer" foundation
    raise_if (not (is_text (some server) (concat registry ".azurecr.io")))
        (value_error "invalid registry")
    for_identity identity (λ c.
        raise_if
          (not (str_eq registry (registry_name hash c))
            || not (is_text (get "vaultName" foundation) (vault_name hash c)))
          (value_error "foundation stores do not match the selected deployment"))
    ok registry

  -- The checks on the foundation, with the registry's name.
  unfoldable pub check_foundation : Dict Json → Option DemoConfig → Result String
  unfolding check_mode check_profile check_identity_sizes check_postgres check_identity_postgres
      check_selected check_default at_key check_uuid check_registry get
  check_foundation foundation identity = do
    check_mode (get "environmentMode" foundation)
    check_profile foundation
    for_identity identity (check_identity_sizes foundation)
    check_postgres foundation
    for_identity identity (check_identity_postgres foundation)
    elim identity [ some c ↦ check_selected foundation c | none ↦ check_default foundation ]
    subscription ← at_key "subscriptionId" foundation
    check_uuid uuid subscription
    tenant ← at_key "tenantId" foundation
    check_uuid uuid tenant
    check_registry foundation identity
