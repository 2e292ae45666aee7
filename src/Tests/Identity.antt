-- ===== src/Tests/Identity.antt =====
-- An Azure configuration with a subscription in upper case, and the names that it derives.
use radius_todolist_app.Prelude.{
  String, ◌≡◌, refl, inl, inr, true, ◌||◌, Option, none, some, [], ◌∷◌, str_eq, arith, Bool-cases,
  if◌then◌else◌,
}
use mathlib.Core.Option.{some-injective}
use radius_todolist_app.Error.{ok}
use radius_todolist_app.Text.{concat}
use radius_todolist_app.Identity.{isolated_pair, azure_slot}
use radius_todolist_app.Identity.Slots.{isolated_pair-Slots}
use radius_todolist_app.Identity.Config.{DemoConfig, construct}
use radius_todolist_app.Identity.Values.{values, from_values, public_values}
use radius_todolist_app.Identity.RoundTrip.{in_order, IsCanonical}
use radius_todolist_app.Identity.RoundTrip.Written.{from_values-values}
use radius_todolist_app.Identity.Public.{public_values-demo_keys}
use radius_todolist_app.Identity.Names.{plane_group, plane_group-injective}

isolated_pair-Slots_example :
    (isolated_pair "isolated-team-1" ≡ ok "isolated-team-1")
    × (azure_slot (concat "isolated-team-1" "-control") ≡ true)
    × (azure_slot (concat "isolated-team-1" "-data") ≡ true)
unfolding isolated_pair
isolated_pair-Slots_example = isolated_pair-Slots "team-1" "isolated-team-1" refl

abbrev upper : String
upper = "0B3C5E7A-1111-4222-8333-ABCDEF012345"

abbrev lower : String
lower = "0b3c5e7a-1111-4222-8333-abcdef012345"

abbrev uuid : String → Option String
uuid text = if str_eq text upper || str_eq text lower then some lower else none

uuid-IsCanonical : IsCanonical uuid
uuid-IsCanonical text id h = elim (Bool-cases (str_eq text upper || str_eq text lower)) [
  | inl e ↦ rw (← some-injective lower id (rw e at h)) refl
  | inr e ↦ ground arith
]

abbrev given : DemoConfig
given = record {
  environment = "azure";
  project = "todo";
  deployment = "demo-1";
  subscription = some upper;
  location = some "westeurope";
  key_vault = none;
  revision = none;
  demo_keys =
      ("shared-data", "abcdefghijklmnopqrstuvwxyz012345")
      ∷ ("management", "0123456789012345678901234567890123")
      ∷ [];
  node_vm_size = some "Standard_D4s_v5";
  postgres_sku_name = some "Standard_B1ms";
  postgres_sku_tier = some "Burstable";
  aks_tier = some "Free";
  node_count = some 3;
  node_os_disk_gb = some 128;
  postgres_storage_gb = some 32;
  redis_sku_name = none;
  gateway_capacity = some 1;
  registry_sku = none;
  key_vault_sku = some "premium";
}

abbrev accepted : DemoConfig
accepted = record given { subscription = some lower }

from_values-values_example :
    from_values uuid (values true accepted)
    ≡ ok (record accepted { demo_keys = in_order given.demo_keys })
unfolding construct
from_values-values_example = from_values-values uuid given accepted uuid-IsCanonical refl

public_values-demo_keys_example :
    public_values accepted ≡ public_values (record accepted { demo_keys = [] })
public_values-demo_keys_example = public_values-demo_keys accepted []

plane_group-injective_example :
    (◌≡◌ {A = String} "shared-data" "shared-data") × (azure_slot "shared-data" ≡ true)
unfolding plane_group
plane_group-injective_example =
    plane_group-injective accepted "shared-data" "shared-data" "rg-todo-demo-1-azure-shared-data"
      refl refl
