-- ===== src/Identity/RoundTrip/Written.antt =====
-- `from_values` on what `values` gives.

use std.Path.{fun_ext}
use radius_todolist_app.Prelude.{
  ℕ, String, ◌≡◌, refl, ap, ◌∙◌, true, not, ◌||◌, Option, none, some, List, [], ◌∷◌, not-eq-false,
}
use radius_todolist_app.Error.{ok, >>-eq-ok, raise_if-eq-ok, value_error, raise_if}
use radius_todolist_app.Dict.{get}
use radius_todolist_app.Dict.Collect.{distinct, value_at, get-collect}
use radius_todolist_app.Text.{is_one_of}
use radius_todolist_app.Identity.Config.{
  DemoConfig, all_keys, construct, check_names, check_sizes, is_choice, absent_or, stem,
  node_counts, node_disks, postgres_storages, gateway_capacities, aks_tiers, redis_skus,
  check_number_choice, check_text_choice, check_compute,
}
use radius_todolist_app.Identity.Values.{
  values, entries, from_values, read_values, slot_keys, shown, public_keys, secret_keys,
}
use radius_todolist_app.Identity.RoundTrip.{
  in_order, slot_items, all_items, all_keys-collect, all_written, number_choice, Checked,
  construct-Checked, Checked-construct, IsCanonical, check_environment-stored, check_keys-stored,
  stored,
}

is_valid_number :
    (key : String) (choices : List ℕ) (value : Option ℕ)
    → check_number_choice key choices value ≡ ok tt
    → absent_or (λ n. is_choice n choices) value ≡ true
unfolding check_number_choice
is_valid_number key choices value h = not-eq-false _ (raise_if-eq-ok _ _ h)

AreChoices : DemoConfig → Type 0
AreChoices c =
    (absent_or (λ n. is_choice n node_counts) c.node_count ≡ true)
    × (absent_or (λ n. is_choice n node_disks) c.node_os_disk_gb ≡ true)
    × (absent_or (λ n. is_choice n postgres_storages) c.postgres_storage_gb ≡ true)
    × (absent_or (λ n. is_choice n gateway_capacities) c.gateway_capacity ≡ true)

check_sizes-AreChoices : (c : DemoConfig) → check_sizes c ≡ ok tt → AreChoices c
unfolding check_sizes AreChoices
check_sizes-AreChoices c h =
    let (_, h1) = >>-eq-ok (check_compute c) _ h in
    let (_, h2) = >>-eq-ok (check_text_choice "AZURE_AKS_TIER" aks_tiers c.aks_tier) _ h1 in
    let (count, h3) =
      >>-eq-ok (check_number_choice "AZURE_NODE_COUNT" node_counts c.node_count) _ h2 in
    let (disk, h4) =
      >>-eq-ok (check_number_choice "AZURE_NODE_OS_DISK_GB" node_disks c.node_os_disk_gb) _ h3 in
    let (storage, h5) =
      >>-eq-ok
        (check_number_choice "AZURE_POSTGRES_STORAGE_GB" postgres_storages c.postgres_storage_gb) _
        h4 in
    let (_, h6) = >>-eq-ok (check_text_choice "AZURE_REDIS_SKU" redis_skus c.redis_sku_name) _ h5 in
    let (capacity, _) =
      >>-eq-ok (check_number_choice "AZURE_GATEWAY_CAPACITY" gateway_capacities c.gateway_capacity)
        _ h6 in
    (
      is_valid_number "AZURE_NODE_COUNT" node_counts c.node_count count,
      is_valid_number "AZURE_NODE_OS_DISK_GB" node_disks c.node_os_disk_gb disk,
      is_valid_number "AZURE_POSTGRES_STORAGE_GB" postgres_storages c.postgres_storage_gb storage,
      is_valid_number "AZURE_GATEWAY_CAPACITY" gateway_capacities c.gateway_capacity capacity,
    )

-- What `values` has written for a key.
written : DemoConfig → String → Option String
unfolding value_at entries
written c k = value_at k (entries true c)

get-values : (c : DemoConfig) → (λ (k : String). get k (values true c)) ≡ written c
unfolding values written distinct entries
get-values c = fun_ext (λ k. get-collect k (entries true c) refl)

known-values :
    (c : DemoConfig)
    → all_keys (λ k. is_one_of k public_keys || is_one_of k secret_keys) (values true c) ≡ true
unfolding values entries all_items is_one_of
known-values c =
    all_keys-collect (λ k. is_one_of k public_keys || is_one_of k secret_keys) (entries true c) refl

shown-true : (o : Option String) → shown true o ≡ o
shown-true none = refl
shown-true (some k) = refl

slot_keys-written : (c : DemoConfig) → slot_keys (written c) ≡ in_order c.demo_keys
unfolding slot_keys written value_at entries in_order slot_items
slot_keys-written c =
    rw
      (
        shown-true (get "management" c.demo_keys),
        shown-true (get "shared-control" c.demo_keys),
        shown-true (get "shared-data" c.demo_keys),
        shown-true (get "isolated-1-control" c.demo_keys),
        shown-true (get "isolated-1-data" c.demo_keys),
      )
      refl

ordered : DemoConfig → DemoConfig
ordered c = record c { demo_keys = in_order c.demo_keys }

module _ (uuid : String → Option String) where
  read_values-written :
      (c : DemoConfig)
      → AreChoices c
      → is_one_of c.environment ("azure" ∷ "local" ∷ []) ≡ true
      → read_values uuid (written c) ≡ construct uuid (ordered c)
  unfolding read_values written value_at entries AreChoices ordered all_written
  read_values-written c (count, disk, storage, capacity) e =
      rw
        (
          read_values,
          e,
          number_choice "AZURE_NODE_COUNT" node_counts c.node_count refl count,
          number_choice "AZURE_NODE_OS_DISK_GB" node_disks c.node_os_disk_gb refl disk,
          number_choice "AZURE_POSTGRES_STORAGE_GB" postgres_storages c.postgres_storage_gb refl
              storage,
          number_choice "AZURE_GATEWAY_CAPACITY" gateway_capacities c.gateway_capacity refl
              capacity,
          slot_keys-written c,
        )
        refl

  check_names-environment :
      (c : DemoConfig)
      → check_names c ≡ ok tt
      → is_one_of c.environment ("azure" ∷ "local" ∷ []) ≡ true
  unfolding check_names
  check_names-environment c h =
      let (known, _) =
        >>-eq-ok
          (raise_if (not (is_one_of c.environment ("azure" ∷ "local" ∷ [])))
            (value_error "DEMO_ENV must be azure or local"))
          _ h in
      not-eq-false _ (raise_if-eq-ok _ _ known)

  construct-stored :
      (d : DemoConfig) (id : Option String)
      → IsCanonical uuid
      → Checked uuid d id
      → construct uuid (stored d id) ≡ ok (stored d id)
  unfolding stored check_names check_sizes check_compute stem Checked
  construct-stored d id can (names, environment, sizes, keys) =
      Checked-construct uuid (stored d id) id (
        names,
        check_environment-stored uuid d id can environment,
        sizes,
        check_keys-stored d id keys,
      )

  from_values-written :
      (c : DemoConfig)
      → AreChoices c
      → is_one_of c.environment ("azure" ∷ "local" ∷ []) ≡ true
      → from_values uuid (values true c) ≡ construct uuid (ordered c)
  unfolding from_values
  from_values-written c sizes e =
      rw (from_values, known-values c)
        (ap (read_values uuid) (get-values c) ∙ read_values-written c sizes e)

  from_values-Checked :
      (d : DemoConfig) (id : Option String)
      → IsCanonical uuid
      → Checked uuid d id
      → from_values uuid (values true (record d { subscription = id })) ≡ ok (stored d id)
  unfolding Checked AreChoices stored ordered
  from_values-Checked d id can checked =
      from_values-written (record d { subscription = id }) (check_sizes-AreChoices d checked.2)
        (check_names-environment d checked.0)
      ∙ construct-stored d id can checked

  -- If `str(UUID(text))` is a canonical form, which `UUID` reads as itself: each configuration that
  -- `DemoConfig` accepts is read back by `from_values` from the values that it writes with its
  -- secrets, with the demo keys in the order of the slots.
  pub from_values-values :
      (d c : DemoConfig)
      → IsCanonical uuid
      → construct uuid d ≡ ok c
      → from_values uuid (values true c) ≡ ok (record c { demo_keys = in_order c.demo_keys })
  unfolding stored
  from_values-values d c can h =
      let (id, checked, e) = construct-Checked uuid d c h in
      rw e (from_values-Checked d id can checked)
