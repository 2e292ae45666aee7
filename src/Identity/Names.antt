-- ===== src/Identity/Names.antt =====
-- The derived names of `DemoConfig` in src/plane_demo/management/providers/identity.py. The first 20
-- hexadecimal digits of SHA-256 are a parameter.

use radius_todolist_app.Prelude.{
  String, ◌≡◌, sym, ◌∙◌, inl, inr, Bool, true, not, ◌&&◌, ◌||◌, Option, none, some, [], ◌∷◌, str_eq,
  arith, Bool-cases, if◌then◌else◌,
}
use text.Mathlib.TextLemmas.{append_cancel_left}
use radius_todolist_app.Error.{
  Result, ok, value_error, ◌>>=◌, ◌>>◌, raise_if, raise_if-eq-ok, >>-eq-ok, >>=-eq-ok, ok-injective,
}
use radius_todolist_app.Prelude.{not-eq-false}
use radius_todolist_app.Text.{concat, rpartition, is_one_of}
use radius_todolist_app.Identity.{all_slots, azure_slot}
use radius_todolist_app.Identity.Config.{DemoConfig, stem}

or_text : Option String → String → String
or_text none default = default
or_text (some text) default = text

module _ (hash : String → String) (c : DemoConfig) where
  -- `identity_hash`
  unfoldable pub identity_hash : String
  unfolding concat or_text
  identity_hash = hash (
      concat (or_text c.subscription "") (
        concat "/"
          (concat c.project (concat "/" (concat c.deployment (concat "/" c.environment))))))

  -- `vault_name`; a vault's name is not the empty text
  unfoldable pub vault_name : String
  unfolding or_text concat identity_hash
  vault_name = or_text c.key_vault (concat "kv-" identity_hash)

  -- `registry_name`
  unfoldable pub registry_name : String
  unfolding concat identity_hash
  registry_name = concat "acr" identity_hash

module _ (c : DemoConfig) where
  is_slot : String → Bool
  unfolding azure_slot is_one_of
  is_slot slot = if str_eq c.environment "azure" then azure_slot slot else is_one_of slot all_slots

  -- `slot_name`
  unfoldable pub slot_name : String → Result String
  unfolding is_slot concat stem
  slot_name slot = do
    raise_if (not (is_slot slot)) (value_error "Unknown plane slot")
    ok (concat (stem c) (concat "-" slot))

  -- `slot.rsplit("-", 1)[1]`, for a slot with a "-"
  role_of : String → String
  unfolding rpartition
  role_of slot =
      if str_eq slot "management"
      then "management"
      else elim (rpartition slot) [ none ↦ slot | some (pair, role) ↦ role ]

  -- `namespace`
  unfoldable pub namespace : String → Result String
  unfolding slot_name concat role_of
  namespace slot = do name ← slot_name slot; ok (concat name (concat "-" (role_of slot)))

  -- `plane_group`
  unfoldable pub plane_group : String → Result String
  unfolding slot_name concat
  plane_group slot = do
    raise_if (not (str_eq c.environment "azure"))
        (value_error "Azure resource groups require an Azure configuration")
    name ← slot_name slot
    ok (concat "rg-" name)

  -- `plane_group_id`; an Azure configuration has a subscription
  unfoldable pub plane_group_id : String → Result String
  unfolding plane_group concat or_text
  plane_group_id slot = do
    group ← plane_group slot
    ok (
        concat "/subscriptions/"
          (concat (or_text c.subscription "None") (concat "/resourceGroups/" group)))

  is_purpose : String → String → Bool
  unfolding is_one_of
  is_purpose slot purpose =
      is_one_of purpose
        ("control-plane" ∷ "kubelet" ∷ "radius" ∷ "gateway" ∷ "certificate-issuer" ∷ [])
      || (str_eq slot "management" && is_one_of purpose ("coordinator" ∷ "harness" ∷ []))

  -- The name that an identity's purpose follows.
  owner_name : String → String → Result String
  unfolding is_one_of slot_name stem
  owner_name slot purpose =
      if is_one_of purpose ("coordinator" ∷ "harness" ∷ []) then ok (stem c) else slot_name slot

  -- `managed_identity_id`
  unfoldable pub managed_identity_id : String → String → Result String
  unfolding is_purpose owner_name plane_group_id concat
  managed_identity_id slot purpose = do
    raise_if (not (is_purpose slot purpose)) (value_error "Unknown managed identity purpose")
    name ← owner_name slot purpose
    group ← plane_group_id slot
    ok (
        concat group (
          concat "/providers/Microsoft.ManagedIdentity/userAssignedIdentities/id-"
            (concat name (concat "-" purpose))))

  slot_name_ok :
      (slot name : String)
      → slot_name slot ≡ ok name
      → (is_slot slot ≡ true) × (name ≡ concat (stem c) (concat "-" slot))
  unfolding slot_name
  slot_name_ok slot name h = elim (Bool-cases (is_slot slot)) [
    | inr f ↦ ground arith
    | inl t ↦ (t, sym (ok-injective _ name (rw (slot_name, t) at h)))
  ]

  slot_name-injective : (a b name : String) → slot_name a ≡ ok name → slot_name b ≡ ok name → a ≡ b
  unfolding concat
  slot_name-injective a b name ha hb =
      let (_, ea) = slot_name_ok a name ha in
      let (_, eb) = slot_name_ok b name hb in
      append_cancel_left "-" a b
        (append_cancel_left (stem c) (concat "-" a) (concat "-" b) (sym ea ∙ eb))

  plane_group_ok :
      (slot group : String)
      → plane_group slot ≡ ok group
      → (name : String) × (slot_name slot ≡ ok name)
        × (group ≡ concat "rg-" name)
        × (str_eq c.environment "azure" ≡ true)
  unfolding plane_group
  plane_group_ok slot group h =
      let (azure, h1) =
        >>-eq-ok
          (raise_if (not (str_eq c.environment "azure"))
            (value_error "Azure resource groups require an Azure configuration"))
          (slot_name slot >>= λ name. ok (concat "rg-" name)) h in
      let (name, named, h2) = >>=-eq-ok (slot_name slot) (λ x. ok (concat "rg-" x)) h1 in
      (
        name,
        named,
        sym (ok-injective (concat "rg-" name) group h2),
        not-eq-false (str_eq c.environment "azure") (raise_if-eq-ok _ _ azure),
      )

  is_slot-azure :
      (slot : String)
      → str_eq c.environment "azure" ≡ true
      → is_slot slot ≡ true
      → azure_slot slot ≡ true
  unfolding is_slot
  is_slot-azure slot e h = rw (is_slot, e) at h

  -- If two slots of a configuration have the same resource group, they are the same slot, and it is
  -- a slot that `azure_slot` accepts.
  pub plane_group-injective :
      (a b group : String)
      → plane_group a ≡ ok group
      → plane_group b ≡ ok group
      → (a ≡ b) × (azure_slot a ≡ true)
  unfolding concat
  plane_group-injective a b group ha hb =
      let (na, named_a, ea, azure) = plane_group_ok a group ha in
      let (nb, named_b, eb, _) = plane_group_ok b group hb in
      let same : na ≡ nb = append_cancel_left "rg-" na nb (sym ea ∙ eb) in
      (
        slot_name-injective a b nb (rw same at named_a) named_b,
        is_slot-azure a azure (slot_name_ok a na named_a).0,
      )
