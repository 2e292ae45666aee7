-- ===== src/Identity/Config.antt =====
-- `DemoConfig` of src/plane_demo/management/providers/identity.py: the checks of `__post_init__`,
-- the values that are written and read, and the derived names. `str(UUID(text))` is a parameter.
use radius_todolist_app.Prelude.{
  ℕ, String, Bool, false, not, ◌&&◌, ◌||◌, Option, none, some, List, [], ◌∷◌, str_eq, leb,
  if◌then◌else◌,
}
use radius_todolist_app.Error.{Result, ok, err, value_error, ◌>>=◌, ◌>>◌, raise_if}
use radius_todolist_app.Dict.{Dict}
use radius_todolist_app.Text.{is_lower, is_alnum, is_run, is_headed, concat, is_one_of, text_length}
use radius_todolist_app.Identity.{all_slots}
unfoldable pub use radius_todolist_app.Identity.Patterns.{
  aks_tiers, node_counts, node_disks, postgres_storages, redis_skus, gateway_capacities,
  registry_skus, vault_skus, lower_code, eq_lower, is_standard_size, ends_hyphen, is_vault_name,
  is_hex, is_name, is_demo_key, all_keys, all_values, is_choice, absent_or, is_given,
}

pub record DemoConfig : Type 0 where
  pub environment : String
  pub project : String
  pub deployment : String
  pub subscription : Option String
  pub location : Option String
  pub key_vault : Option String
  pub revision : Option String
  pub demo_keys : Dict String
  pub node_vm_size : Option String
  pub postgres_sku_name : Option String
  pub postgres_sku_tier : Option String
  pub aks_tier : Option String
  pub node_count : Option ℕ
  pub node_os_disk_gb : Option ℕ
  pub postgres_storage_gb : Option ℕ
  pub redis_sku_name : Option String
  pub gateway_capacity : Option ℕ
  pub registry_sku : Option String
  pub key_vault_sku : Option String

-- `stem`
unfoldable pub stem : DemoConfig → String
unfolding concat
stem c = concat c.project (concat "-" (concat c.deployment (concat "-" c.environment)))

-- One key of the loop over DEMO_PROJECT and DEMO_DEPLOYMENT.
check_name : String → String → Result (Unit {0})
unfolding is_name ends_hyphen concat
check_name key value = do
  raise_if (not (is_name value))
      (value_error (concat key " must be a lowercase name of 1-16 characters"))
  raise_if (ends_hyphen value) (value_error (concat key " must not end with a hyphen"))

-- The checks of `__post_init__` before the environment's.
unfoldable pub check_names : DemoConfig → Result (Unit {0})
unfolding is_one_of check_name stem text_length
check_names c = do
  raise_if (not (is_one_of c.environment ("azure" ∷ "local" ∷ [])))
      (value_error "DEMO_ENV must be azure or local")
  check_name "DEMO_PROJECT" c.project
  check_name "DEMO_DEPLOYMENT" c.deployment
  raise_if (not (leb (text_length (stem c)) 25))
      (value_error "Combined project, deployment and environment name is too long")

-- A sizing choice other than None must be one of the choices.
unfoldable pub check_text_choice : String → List String → Option String → Result (Unit {0})
unfolding is_one_of concat
check_text_choice key choices value =
    raise_if (not (absent_or (λ s. is_one_of s choices) value))
      (value_error (concat "Invalid " (concat key " sizing choice")))

unfoldable pub check_number_choice : String → List ℕ → Option ℕ → Result (Unit {0})
unfolding is_choice concat
check_number_choice key choices value =
    raise_if (not (absent_or (λ n. is_choice n choices) value))
      (value_error (concat "Invalid " (concat key " sizing choice")))

-- The checks of `__post_init__` on the sizes of nodes and of PostgreSQL.
unfoldable pub check_compute : DemoConfig → Result (Unit {0})
unfolding is_standard_size is_one_of
check_compute c = do
  raise_if (not (absent_or is_standard_size c.node_vm_size))
      (value_error "AZURE_NODE_VM_SIZE must be an Azure VM size")
  raise_if
      ((is_given c.postgres_sku_name && not (is_given c.postgres_sku_tier))
        || (not (is_given c.postgres_sku_name) && is_given c.postgres_sku_tier))
      (value_error "AZURE_POSTGRES_SKU and AZURE_POSTGRES_TIER must be set together")
  raise_if
      (not (absent_or is_standard_size c.postgres_sku_name)
        || not (
            absent_or (λ s. is_one_of s ("Burstable" ∷ "GeneralPurpose" ∷ "MemoryOptimized" ∷ []))
              c.postgres_sku_tier))
      (value_error "Invalid PostgreSQL SKU or tier")

-- The checks of `__post_init__` on the sizes.
unfoldable pub check_sizes : DemoConfig → Result (Unit {0})
unfolding check_compute check_text_choice check_number_choice
check_sizes c = do
  check_compute c
  check_text_choice "AZURE_AKS_TIER" aks_tiers c.aks_tier
  check_number_choice "AZURE_NODE_COUNT" node_counts c.node_count
  check_number_choice "AZURE_NODE_OS_DISK_GB" node_disks c.node_os_disk_gb
  check_number_choice "AZURE_POSTGRES_STORAGE_GB" postgres_storages c.postgres_storage_gb
  check_text_choice "AZURE_REDIS_SKU" redis_skus c.redis_sku_name
  check_number_choice "AZURE_GATEWAY_CAPACITY" gateway_capacities c.gateway_capacity
  check_text_choice "AZURE_REGISTRY_SKU" registry_skus c.registry_sku
  check_text_choice "AZURE_KEY_VAULT_SKU" vault_skus c.key_vault_sku

-- The checks of `__post_init__` on the vault's name and the revision.
unfoldable pub check_texts : DemoConfig → Result (Unit {0})
unfolding is_vault_name is_run is_hex
check_texts c = do
  raise_if (not (absent_or is_vault_name c.key_vault))
      (value_error "DEMO_KEY_VAULT must be a vault name")
  raise_if (not (absent_or (is_run is_hex 40 40) c.revision))
      (value_error "DEMO_REVISION must be a full Git commit")

-- The checks of `__post_init__` on the demo keys.
unfoldable pub check_demo_keys : Dict String → Result (Unit {0})
unfolding all_keys all_values is_one_of is_demo_key
check_demo_keys keys = do
  raise_if (not (all_keys (λ slot. is_one_of slot all_slots) keys))
      (value_error "Unknown demo-key slot")
  raise_if (not (all_values is_demo_key keys))
      (value_error "Demo keys must contain 32-512 printable ASCII characters without whitespace")

unfoldable pub check_keys : DemoConfig → Result (Unit {0})
unfolding check_texts check_demo_keys
check_keys c = do check_texts c; check_demo_keys c.demo_keys

unfoldable pub has_azure_settings : DemoConfig → Bool
has_azure_settings c =
    is_given c.subscription
    || is_given c.location
    || is_given c.key_vault
    || is_given c.node_vm_size
    || is_given c.postgres_sku_name
    || is_given c.postgres_sku_tier
    || is_given c.aks_tier
    || is_given c.node_count
    || is_given c.node_os_disk_gb
    || is_given c.postgres_storage_gb
    || is_given c.redis_sku_name
    || is_given c.gateway_capacity
    || is_given c.registry_sku
    || is_given c.key_vault_sku

unfoldable pub is_location : Option String → Bool
unfolding is_headed
is_location none = false
is_location (some s) = is_headed is_lower is_alnum 1 31 s

module _ (uuid : String → Option String) where
  -- The subscription in its canonical form.
  unfoldable pub canonical : Option String → Result (Option String)
  unfolding eq_lower
  canonical none = err (value_error "AZURE_SUBSCRIPTION_ID is required")
  canonical (some text) = elim (uuid text) [
    | none ↦ err (value_error "AZURE_SUBSCRIPTION_ID must be a UUID")
    | some identifier ↦
        if eq_lower identifier text
        then ok (some identifier)
        else err (value_error "AZURE_SUBSCRIPTION_ID must use the canonical UUID format")
  ]

  -- The branches of `__post_init__` on the environment, with the subscription that is stored.
  unfoldable pub check_environment : DemoConfig → Result (Option String)
  unfolding canonical is_location has_azure_settings
  check_environment c =
      if str_eq c.environment "azure"
      then (do
        identifier ← canonical c.subscription
        raise_if (not (is_location c.location))
            (value_error "AZURE_LOCATION must be an Azure location identifier")
        ok identifier)
      else (do
        raise_if (has_azure_settings c)
            (value_error "Local configuration must not contain Azure settings")
        ok c.subscription)

  -- `DemoConfig(...)`, with `__post_init__`
  unfoldable pub construct : DemoConfig → Result DemoConfig
  unfolding check_names check_environment check_sizes check_keys
  construct c = do
    check_names c
    identifier ← check_environment c
    check_sizes c
    check_keys c
    ok (record c { subscription = identifier })
