-- ===== src/Network/Separate.antt =====
-- The subnets and addresses of the allocations that `validate_network` accepts.
use radius_todolist_app.Prelude.{
  ℕ, ◌-◌, String, ◌≡◌, Bool, true, false, List, [], ◌∷◌, str_eq, ◌==◌,
}
use radius_todolist_app.Error.{ok}
use radius_todolist_app.Dict.{Dict, get}
use radius_todolist_app.Json.{Json, dict_of}
use radius_todolist_app.Network.{
  Address, Network, ipv4, ipv4_cidr, is_gateway, node_address, is_used, check_authorized,
  has_network, all_public,
}

-- The subnets and addresses that an allocation has for an index: 10.64.(16 + index).0/24 for the
-- gateway, and two addresses of 10.64.index.0/24.
pub HasIndex : String → Dict Json → ℕ → Type 0
unfolding ipv4_cidr ipv4 get node_address is_gateway
HasIndex slot allocation index =
    ((gateway : Network) × (ipv4_cidr (get "gatewaySubnetCidr" allocation) "gatewaySubnetCidr"
        ≡ ok gateway)
      × (is_gateway gateway ≡ true)
      × (gateway.base.c - 16 ≡ index))
    × (ipv4 (get "apiPrivateIp" allocation) "apiPrivateIp" ≡ ok (node_address index 240))
    × (ipv4 (get "challengePrivateIp" allocation) "challengePrivateIp"
        ≡ ok (node_address index 241))
    × (str_eq slot "management" ≡ (index == 0))

-- The allocations have indexes, and none has the index of one before it or a used one.
abbrev pub Separate : List ℕ → Dict Json → Type 0
unfolding is_used
Separate used [] = Unit
Separate used ((slot, value) ∷ m) =
    (allocation : Dict Json) × (index : ℕ) × (dict_of value ≡ ok allocation)
    × HasIndex slot allocation index
    × (is_used index used ≡ false)
    × Separate (index ∷ used) m

module _ (is_public : Address → Bool) where
  -- The authorized ranges are public /32 networks, and the egress address is one of them.
  abbrev pub IsAuthorized : Dict Json → Type 0
  unfolding check_authorized all_public has_network ipv4 get
  IsAuthorized foundation =
      (authorized : List Network) × (egress : Address) × (check_authorized is_public foundation
        ≡ ok authorized)
      × (all_public is_public authorized ≡ true)
      × (ipv4 (get "egressIp" foundation) "egressIp" ≡ ok egress)
      × (has_network (record { base = egress; prefix = 32 }) authorized ≡ true)
