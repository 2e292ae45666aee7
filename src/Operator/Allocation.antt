-- ===== src/Operator/Allocation.antt =====
-- The loop of `OperatorConfig.from_dict` over the allocations, in
-- src/plane_demo/management/provisioning.py.

use radius_todolist_app.Prelude.{
  String, Bool, true, false, not, ◌&&◌, ◌||◌, Option, none, some, List, [], ◌∷◌, str_eq,
  if◌then◌else◌,
}
use radius_todolist_app.Error.{Result, ok, value_error, ◌>>=◌, ◌>>◌, raise_if}
use radius_todolist_app.Dict.{Dict, get}
use radius_todolist_app.Text.{concat, is_one_of, is_lower, is_label_char, is_headed, rpartition}
use radius_todolist_app.Json.{Json, dict_of, at_key}
use radius_todolist_app.Identity.Config.{DemoConfig, stem}
use radius_todolist_app.Identity.Names.{
  slot_name, namespace, plane_group, plane_group_id, managed_identity_id,
}
use radius_todolist_app.Operator.{is_slug, is_text, starts_text, text_at, check_uuid}

-- `slot.endswith(("-control", "-data"))`: what follows the last "-" is the role.
unfoldable pub role_suffix : String → Option (String × String)
unfolding rpartition is_one_of
role_suffix slot = elim (rpartition slot) [
  | none ↦ none
  | some (pair, role) ↦ if is_one_of role ("control" ∷ "data" ∷ []) then some (pair, role) else none
]

ends_role : String → Bool
unfolding role_suffix
ends_role slot = elim (role_suffix slot) [ none ↦ false | some _ ↦ true ]

check_slot : String → Dict Json → Result (Unit {0})
unfolding ends_role at_key
check_slot slot allocation = do
  named ← at_key "slot" allocation
  raise_if (not (is_text (some named) slot)) (value_error "invalid allocation slot")
  raise_if (not (str_eq slot "management") && not (ends_role slot))
      (value_error "invalid allocation slot")

-- The pattern of the allocated names.
is_resource_name : Option DemoConfig → String → Bool
unfolding is_headed is_slug
is_resource_name none s = is_slug s
is_resource_name (some c) s = is_headed is_lower is_label_char 0 89 s

check_resource_names : Option DemoConfig → Dict Json → List String → Result (Unit {0})
unfolding is_resource_name text_at
check_resource_names identity allocation [] = ok tt
check_resource_names identity allocation (key ∷ keys) = do
  name ← text_at key allocation
  raise_if (not (is_resource_name identity name)) (value_error "invalid allocated resource name")
  check_resource_names identity allocation keys

has_texts : Dict Json → List (String × String) → Bool
unfolding get
has_texts allocation [] = true
has_texts allocation ((k, v) ∷ m) = is_text (get k allocation) v && has_texts allocation m

-- The allocation has the names that the identity derives for the slot.
check_names_of : DemoConfig → String → Dict Json → Result (Unit {0})
unfolding slot_name namespace plane_group plane_group_id concat has_texts
check_names_of c slot allocation = do
  name ← slot_name c slot
  group ← plane_group c slot
  space ← namespace c slot
  group_id ← plane_group_id c slot
  raise_if
      (not (
        has_texts allocation (
          ("clusterName", concat "aks-" name)
          ∷ ("clusterResourceGroup", group)
          ∷ ("appResourceGroup", group)
          ∷ ("namespace", space)
          ∷ ("clusterResourceGroupId", group_id)
          ∷ ("appResourceGroupId", group_id)
          ∷ ("nodeResourceGroup", concat "rg-" (concat name "-nodes"))
          ∷ [])))
      (value_error "allocation does not match the selected deployment")

check_prefixes : String → Dict Json → List String → Result (Unit {0})
unfolding text_at starts_text
check_prefixes prefix allocation [] = ok tt
check_prefixes prefix allocation (key ∷ keys) = do
  id ← text_at key allocation
  raise_if (not (starts_text prefix id))
      (value_error "allocation is outside the configured subscription")
  check_prefixes prefix allocation keys

resource_ids : List String
resource_ids =
    "nodeSubnetId" ∷ "gatewaySubnetId" ∷ "privateEndpointSubnetId" ∷ "postgresqlSubnetId"
    ∷ "clusterResourceGroupId" ∷ "appResourceGroupId" ∷ []

-- IDENTITY_PURPOSES
purposes : List (String × String)
purposes =
    ("controlPlane", "control-plane")
    ∷ ("kubelet", "kubelet")
    ∷ ("radius", "radius")
    ∷ ("gateway", "gateway")
    ∷ ("certificateIssuer", "certificate-issuer")
    ∷ []

unfoldable pub keys_of : {A : Type 0} → List (String × A) → List String
keys_of [] = []
keys_of ((k, v) ∷ m) = k ∷ keys_of m

unfoldable pub all_in : List String → List String → Bool
unfolding is_one_of
all_in [] ys = true
all_in (x ∷ xs) ys = is_one_of x ys && all_in xs ys

module _ (uuid : String → Option String) where
  check_managed : String → Dict Json → Result (Unit {0})
  unfolding at_key check_uuid text_at starts_text
  check_managed prefix [] = ok tt
  check_managed prefix ((k, value) ∷ m) = do
    managed ← dict_of value
    client ← at_key "clientId" managed
    check_uuid uuid client
    id ← text_at "id" managed
    raise_if (not (starts_text prefix id))
        (value_error "identity is outside the configured subscription")
    check_managed prefix m

  check_purposes : DemoConfig → String → Dict Json → List (String × String) → Result (Unit {0})
  unfolding at_key check_uuid managed_identity_id
  check_purposes c slot identities [] = ok tt
  check_purposes c slot identities ((key, purpose) ∷ rest) = do
    value ← at_key key identities
    selected ← dict_of value
    id ← at_key "id" selected
    expected ← managed_identity_id c slot purpose
    raise_if (not (is_text (some id) expected))
        (value_error "identity does not match the selected plane")
    principal ← at_key "principalId" selected
    check_uuid uuid principal
    check_purposes c slot identities rest

  check_identities : Option DemoConfig → String → Dict Json → Result (Unit {0})
  unfolding all_in keys_of purposes check_purposes
  check_identities none slot identities = ok tt
  check_identities (some c) slot identities = do
    raise_if
        (not (
          all_in (keys_of identities) (keys_of purposes)
          && all_in (keys_of purposes) (keys_of identities)))
        (value_error "allocated identity purposes differ")
    check_purposes c slot identities purposes

  certificate_slot : Option DemoConfig → String → String
  unfolding concat stem
  certificate_slot none slot = slot
  certificate_slot (some c) slot = concat (stem c) (concat "-" slot)

  system_of : Option DemoConfig → String
  unfolding stem
  system_of none = "radplanes"
  system_of (some c) = stem c

  check_certificate : Option DemoConfig → String → Dict Json → Dict Json → Result (Unit {0})
  unfolding has_texts concat certificate_slot system_of is_one_of keys_of
  check_certificate identity slot allocation identities =
      raise_if
        (not (
            has_texts allocation (
              ("certificateName", concat "gateway-" (certificate_slot identity slot))
              ∷ ("acmeStateSecretName", concat "acme-" (certificate_slot identity slot))
              ∷ (
                "certificateIssuerSubject",
                concat "system:serviceaccount:"
                    (concat (system_of identity) "-system:certificate-issuer"),
              )
              ∷ []))
          || not (is_one_of "certificateIssuer" (keys_of identities)))
        (value_error "certificate allocation does not match its prebound identity")

  -- The loop's body, after the test of the slot's pattern.
  unfoldable pub check_resources :
      Option DemoConfig → String → String → Dict Json → Result (Unit {0})
  unfolding check_slot check_resource_names check_names_of check_prefixes resource_ids at_key
      check_managed check_identities check_certificate
  check_resources identity prefix slot allocation = do
    check_slot slot allocation
    check_resource_names identity allocation
        ("clusterName" ∷ "clusterResourceGroup" ∷ "appResourceGroup" ∷ [])
    elim identity [ none ↦ ok tt | some c ↦ check_names_of c slot allocation ]
    check_prefixes prefix allocation resource_ids
    value ← at_key "identities" allocation
    identities ← dict_of value
    check_managed prefix identities
    check_identities identity slot identities
    check_certificate identity slot allocation identities

  -- The loop.
  unfoldable pub check_each : Option DemoConfig → String → Dict Json → Result (Unit {0})
  unfolding check_resources is_slug
  check_each identity prefix [] = ok tt
  check_each identity prefix ((slot, value) ∷ m) = do
    raise_if (not (is_slug slot)) (value_error "invalid allocation slot")
    allocation ← dict_of value
    check_resources identity prefix slot allocation
    check_each identity prefix m
