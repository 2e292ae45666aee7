-- ===== src/Identity/RoundTrip.antt =====
-- What `DemoConfig(...)` of src/plane_demo/management/providers/identity.py has checked when it
-- returns, and the stored form of a configuration.
pub mod Written
use Prim.Native.Char.{Char, code}
use Prim.Native.Nat.{◌+◌}
use Prim.Native.String
use radius_todolist_app.Prelude.{
  ℕ, String, ◌≡◌, refl, sym, ap, ◌∙◌, ◌⊎◌, inl, inr, Bool, true, false, not, ◌&&◌, ◌||◌, Option,
  none, some, List, [], ◌∷◌, ◌++◌, str_eq, ◌==◌, leb, eq_iff, eq_refl, arith, Bool-cases,
  Option-cases, not-eq-false, if◌then◌else◌,
}
use radius_todolist_app.Error.{
  Error, Result, ok, err, ok-injective, >>=-eq-ok, >>-eq-ok, raise_if-eq-ok, value_error, ◌>>=◌,
  ◌>>◌, raise_if,
}
use radius_todolist_app.Dict.{Dict, get, collect}
use radius_todolist_app.Dict.Collect.{distinct, value_at, get-collect}
use radius_todolist_app.Text.{concat, is_one_of, digits_value, str}
use radius_todolist_app.Identity.{all_slots}
use radius_todolist_app.Identity.Config.{
  DemoConfig, construct, check_names, check_environment, check_sizes, check_keys, canonical,
  eq_lower, lower_code, all_keys, all_values, is_choice, absent_or, stem, is_given,
  has_azure_settings, check_texts, check_demo_keys, is_location, is_demo_key, node_counts,
  node_disks, postgres_storages, gateway_capacities,
}
use radius_todolist_app.Identity.Values.{
  values, entries, from_values, read_values, number_text, number_value, slot_keys, shown,
}
unfoldable pub use radius_todolist_app.Identity.Items.{slot_items, in_order, all_items, all_written}
pub use radius_todolist_app.Identity.Items.{
  all_keys-collect, all_values-in_order, eq_lower_refl, number_choice,
}

module _ (uuid : String → Option String) where
  -- What `DemoConfig(...)` has checked when it returns.
  pub Checked : DemoConfig → Option String → Type 0
  Checked d id =
      (check_names d ≡ ok tt)
      × (check_environment uuid d ≡ ok id)
      × (check_sizes d ≡ ok tt)
      × (check_keys d ≡ ok tt)

  pub construct-Checked :
      (d c : DemoConfig)
      → construct uuid d ≡ ok c
      → (id : Option String) × Checked d id × (c ≡ record d { subscription = id })
  unfolding construct Checked
  construct-Checked d c h =
      let (names, h1) = >>-eq-ok (check_names d) _ h in
      let (id, environment, h2) = >>=-eq-ok (check_environment uuid d) _ h1 in
      let (sizes, h3) = >>-eq-ok (check_sizes d) _ h2 in
      let (keys, h4) = >>-eq-ok (check_keys d) _ h3 in
      (id, (names, environment, sizes, keys), sym (ok-injective _ c h4))

  Checked-construct :
      (d : DemoConfig) (id : Option String)
      → Checked d id
      → construct uuid d ≡ ok (record d { subscription = id })
  unfolding construct Checked
  Checked-construct d id (names, environment, sizes, keys) =
      rw (construct, names, environment, sizes, keys) refl

-- The stored form of an accepted configuration, with the demo keys in the order of SLOTS.
stored : DemoConfig → Option String → DemoConfig
unfolding in_order
stored d id = record d { subscription = id; demo_keys = in_order d.demo_keys }

all_keys-in_order :
    (m : Dict String) → all_keys (λ slot. is_one_of slot all_slots) (in_order m) ≡ true
unfolding in_order all_items is_one_of slot_items
all_keys-in_order m = all_keys-collect (λ slot. is_one_of slot all_slots) (slot_items m) refl

check_demo_keys-in_order :
    (m : Dict String) → check_demo_keys m ≡ ok tt → check_demo_keys (in_order m) ≡ ok tt
unfolding check_demo_keys
check_demo_keys-in_order m h =
    let (_, values) =
      >>-eq-ok
        (raise_if (not (all_keys (λ slot. is_one_of slot all_slots) m))
          (value_error "Unknown demo-key slot"))
        (raise_if (not (all_values is_demo_key m)) (
          value_error
            "Demo keys must contain 32-512 printable ASCII characters without whitespace"))
        h in
    let printable : all_values is_demo_key m ≡ true =
      not-eq-false (all_values is_demo_key m) (raise_if-eq-ok _ _ values) in
    rw (check_demo_keys, all_keys-in_order m, all_values-in_order is_demo_key m printable) refl

check_keys-stored :
    (d : DemoConfig) (id : Option String) → check_keys d ≡ ok tt → check_keys (stored d id) ≡ ok tt
unfolding check_keys stored check_texts
check_keys-stored d id h =
    let (texts, keys) = >>-eq-ok (check_texts d) (check_demo_keys d.demo_keys) h in
    rw (check_keys, stored, texts, check_demo_keys-in_order d.demo_keys keys) refl

module _ (uuid : String → Option String) where
  -- `str(UUID(text))` is a canonical form.
  abbrev pub IsCanonical : Type 0
  IsCanonical = (text id : String) → uuid text ≡ some id → uuid id ≡ some id

  canonical-stored :
      (given id : Option String)
      → IsCanonical
      → canonical uuid given ≡ ok id
      → canonical uuid id ≡ ok id
  unfolding canonical
  canonical-stored none id can h = cc
  canonical-stored (some text) id can h = elim (Option-cases (uuid text)) [
    | inl e ↦ ground arith
    | inr (i, e) ↦ elim (Bool-cases (eq_lower i text)) [
      | inr f ↦ ground arith
      | inl t ↦
          rw
            (
              ← ok-injective (some i) id (rw (canonical, e, t) at h),
              canonical,
              can text i e,
              eq_lower_refl i text t,
            )
            refl
    ]
  ]

  check_environment-stored :
      (d : DemoConfig) (id : Option String)
      → IsCanonical
      → check_environment uuid d ≡ ok id
      → check_environment uuid (stored d id) ≡ ok id
  unfolding check_environment stored
  check_environment-stored d id can h = elim (Bool-cases (str_eq d.environment "azure")) [
    | inl t ↦
        let (i, e, h1) =
          >>=-eq-ok (canonical uuid d.subscription) _ (rw (check_environment, t) at h) in
        let (location, h2) =
          >>-eq-ok
            (raise_if (not (is_location d.location))
              (value_error "AZURE_LOCATION must be an Azure location identifier"))
            (ok i) h1 in
        let kept : canonical uuid id ≡ ok id = canonical-stored d.subscription id can (e ∙ h2) in
        rw (check_environment, stored, t, kept, location) refl
    | inr f ↦
        let (none_given, h1) =
          >>-eq-ok
            (raise_if (has_azure_settings d)
              (value_error "Local configuration must not contain Azure settings"))
            (ok d.subscription) (rw (check_environment, f) at h) in
        rw (check_environment, stored, f, ← ok-injective d.subscription id h1, none_given) refl
  ]
