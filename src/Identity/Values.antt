-- ===== src/Identity/Values.antt =====
-- `values`, `public_values`, `resource_sizes` and `from_values` of `DemoConfig` in
-- src/plane_demo/management/providers/identity.py.
use radius_todolist_app.Prelude.{
  ℕ, String, Bool, false, not, ◌||◌, Option, none, some, List, [], ◌∷◌, ◌++◌, if◌then◌else◌,
}
use radius_todolist_app.Error.{Result, ok, err, value_error, ◌>>=◌, ◌>>◌, raise_if}
use radius_todolist_app.Dict.{Dict, get, collect}
use radius_todolist_app.Text.{concat, is_one_of, digits_value, str}
use radius_todolist_app.Identity.Config.{DemoConfig, construct, all_keys}

abbrev pub number_text : Option ℕ → Option String
number_text none = none
number_text (some n) = some (str n)

-- The loop of `values` over the optional texts.
abbrev pub text_entries : DemoConfig → List (String × Option String)
text_entries c =
    ("AZURE_SUBSCRIPTION_ID", c.subscription)
    ∷ ("AZURE_LOCATION", c.location)
    ∷ ("AZURE_NODE_VM_SIZE", c.node_vm_size)
    ∷ ("AZURE_POSTGRES_SKU", c.postgres_sku_name)
    ∷ ("AZURE_POSTGRES_TIER", c.postgres_sku_tier)
    ∷ ("DEMO_KEY_VAULT", c.key_vault)
    ∷ ("DEMO_REVISION", c.revision)
    ∷ []

abbrev pub shown : Bool → Option String → Option String
shown include_secrets none = none
shown include_secrets (some key) = some (if include_secrets then key else "[redacted]")

-- The loop of `values` over SECRET_KEYS.
abbrev pub secret_entries : Bool → DemoConfig → List (String × Option String)
secret_entries include_secrets c =
    ("DEMO_KEY_MANAGEMENT", shown include_secrets (get "management" c.demo_keys))
    ∷ ("DEMO_KEY_SHARED_CONTROL", shown include_secrets (get "shared-control" c.demo_keys))
    ∷ ("DEMO_KEY_SHARED_DATA", shown include_secrets (get "shared-data" c.demo_keys))
    ∷ ("DEMO_KEY_ISOLATED_1_CONTROL", shown include_secrets (get "isolated-1-control" c.demo_keys))
    ∷ ("DEMO_KEY_ISOLATED_1_DATA", shown include_secrets (get "isolated-1-data" c.demo_keys))
    ∷ []

-- The loop of `values` over RESOURCE_SIZING.
abbrev pub size_entries : DemoConfig → List (String × Option String)
size_entries c =
    ("AZURE_AKS_TIER", c.aks_tier)
    ∷ ("AZURE_NODE_COUNT", number_text c.node_count)
    ∷ ("AZURE_NODE_OS_DISK_GB", number_text c.node_os_disk_gb)
    ∷ ("AZURE_POSTGRES_STORAGE_GB", number_text c.postgres_storage_gb)
    ∷ ("AZURE_REDIS_SKU", c.redis_sku_name)
    ∷ ("AZURE_GATEWAY_CAPACITY", number_text c.gateway_capacity)
    ∷ ("AZURE_REGISTRY_SKU", c.registry_sku)
    ∷ ("AZURE_KEY_VAULT_SKU", c.key_vault_sku)
    ∷ []

unfoldable pub entries : Bool → DemoConfig → List (String × Option String)
entries include_secrets c =
    (("DEMO_ENV", some c.environment)
      ∷ ("DEMO_PROJECT", some c.project)
      ∷ ("DEMO_DEPLOYMENT", some c.deployment)
      ∷ [])
    ++ text_entries c
    ++ secret_entries include_secrets c
    ++ size_entries c

-- `values`
unfoldable pub values : Bool → DemoConfig → Dict String
unfolding collect entries
values include_secrets c = collect (entries include_secrets c)

-- PUBLIC_KEYS
abbrev pub public_keys : List String
public_keys =
    "DEMO_ENV" ∷ "DEMO_PROJECT" ∷ "DEMO_DEPLOYMENT" ∷ "AZURE_SUBSCRIPTION_ID" ∷ "AZURE_LOCATION"
    ∷ "AZURE_NODE_VM_SIZE" ∷ "AZURE_POSTGRES_SKU" ∷ "AZURE_POSTGRES_TIER" ∷ "DEMO_KEY_VAULT"
    ∷ "DEMO_REVISION" ∷ "AZURE_AKS_TIER" ∷ "AZURE_NODE_COUNT" ∷ "AZURE_NODE_OS_DISK_GB"
    ∷ "AZURE_POSTGRES_STORAGE_GB" ∷ "AZURE_REDIS_SKU" ∷ "AZURE_GATEWAY_CAPACITY"
    ∷ "AZURE_REGISTRY_SKU" ∷ "AZURE_KEY_VAULT_SKU" ∷ []

-- The keys of RESOURCE_SIZING.
abbrev pub sizing_keys : List String
sizing_keys =
    "AZURE_AKS_TIER" ∷ "AZURE_NODE_COUNT" ∷ "AZURE_NODE_OS_DISK_GB" ∷ "AZURE_POSTGRES_STORAGE_GB"
    ∷ "AZURE_REDIS_SKU" ∷ "AZURE_GATEWAY_CAPACITY" ∷ "AZURE_REGISTRY_SKU" ∷ "AZURE_KEY_VAULT_SKU"
    ∷ []

-- SECRET_KEYS
abbrev pub secret_keys : List String
secret_keys =
    "DEMO_KEY_MANAGEMENT" ∷ "DEMO_KEY_SHARED_CONTROL" ∷ "DEMO_KEY_SHARED_DATA"
    ∷ "DEMO_KEY_ISOLATED_1_CONTROL" ∷ "DEMO_KEY_ISOLATED_1_DATA" ∷ []

unfoldable pub select_keys : List String → Dict String → Dict String
unfolding is_one_of
select_keys keys [] = []
select_keys keys ((k, v) ∷ m) =
    let rest = select_keys keys m in if is_one_of k keys then (k, v) ∷ rest else rest

-- `public_values`
unfoldable pub public_values : DemoConfig → Dict String
unfolding values select_keys
public_values c = select_keys public_keys (values false c)

-- `resource_sizes`; a number is kept as its text
unfoldable pub resource_sizes : DemoConfig → Dict String
unfolding collect
resource_sizes c = collect (
    ("aksTier", c.aks_tier)
    ∷ ("nodeCount", number_text c.node_count)
    ∷ ("nodeOsDiskSizeGb", number_text c.node_os_disk_gb)
    ∷ ("postgresStorageSizeGb", number_text c.postgres_storage_gb)
    ∷ ("redisSkuName", c.redis_sku_name)
    ∷ ("gatewayCapacity", number_text c.gateway_capacity)
    ∷ ("registrySkuName", c.registry_sku)
    ∷ ("vaultSkuName", c.key_vault_sku)
    ∷ [])

-- A numeric choice of the loop over RESOURCE_SIZING in `from_values`.
unfoldable pub number_value : String → Option String → Result (Option ℕ)
unfolding digits_value concat
number_value key none = ok none
number_value key (some text) = elim (digits_value text) [
  | some n ↦ ok (some n)
  | none ↦ err (value_error (concat "Invalid " (concat key " sizing choice")))
]

abbrev pub or_blank : Option String → String
or_blank none = ""
or_blank (some text) = text

-- The demo keys of `from_values`.
unfoldable pub slot_keys : (String → Option String) → Dict String
unfolding collect
slot_keys key_of = collect (
    ("management", key_of "DEMO_KEY_MANAGEMENT")
    ∷ ("shared-control", key_of "DEMO_KEY_SHARED_CONTROL")
    ∷ ("shared-data", key_of "DEMO_KEY_SHARED_DATA")
    ∷ ("isolated-1-control", key_of "DEMO_KEY_ISOLATED_1_CONTROL")
    ∷ ("isolated-1-data", key_of "DEMO_KEY_ISOLATED_1_DATA")
    ∷ [])

module _ (uuid : String → Option String) where
  -- `from_values` once the keys are known, on `values.get`.
  unfoldable pub read_values : (String → Option String) → Result DemoConfig
  unfolding is_one_of construct number_value slot_keys
  read_values value_of = do
    raise_if (not (is_one_of (or_blank (value_of "DEMO_ENV")) ("azure" ∷ "local" ∷ [])))
        (value_error "DEMO_ENV must be azure or local")
    node_count ← number_value "AZURE_NODE_COUNT" (value_of "AZURE_NODE_COUNT")
    node_os_disk_gb ← number_value "AZURE_NODE_OS_DISK_GB" (value_of "AZURE_NODE_OS_DISK_GB")
    postgres_storage_gb ←
        number_value "AZURE_POSTGRES_STORAGE_GB" (value_of "AZURE_POSTGRES_STORAGE_GB")
    gateway_capacity ← number_value "AZURE_GATEWAY_CAPACITY" (value_of "AZURE_GATEWAY_CAPACITY")
    construct uuid (record {
      environment = or_blank (value_of "DEMO_ENV");
      project = or_blank (value_of "DEMO_PROJECT");
      deployment = or_blank (value_of "DEMO_DEPLOYMENT");
      subscription = value_of "AZURE_SUBSCRIPTION_ID";
      location = value_of "AZURE_LOCATION";
      key_vault = value_of "DEMO_KEY_VAULT";
      revision = value_of "DEMO_REVISION";
      demo_keys = slot_keys value_of;
      node_vm_size = value_of "AZURE_NODE_VM_SIZE";
      postgres_sku_name = value_of "AZURE_POSTGRES_SKU";
      postgres_sku_tier = value_of "AZURE_POSTGRES_TIER";
      aks_tier = value_of "AZURE_AKS_TIER";
      node_count = node_count;
      node_os_disk_gb = node_os_disk_gb;
      postgres_storage_gb = postgres_storage_gb;
      redis_sku_name = value_of "AZURE_REDIS_SKU";
      gateway_capacity = gateway_capacity;
      registry_sku = value_of "AZURE_REGISTRY_SKU";
      key_vault_sku = value_of "AZURE_KEY_VAULT_SKU";
    })

  -- `from_values`
  unfoldable pub from_values : Dict String → Result DemoConfig
  unfolding all_keys is_one_of read_values get
  from_values m = do
    raise_if (not (all_keys (λ k. is_one_of k public_keys || is_one_of k secret_keys) m))
        (value_error "Unknown configuration key")
    read_values (λ k. get k m)
