-- ===== src/Network.antt =====
-- `ipv4`, `ipv4_cidr` and `validate_network` of src/plane_demo/management/provisioning.py, with what
-- `ipaddress` does on their texts. Which addresses are global is a parameter.
pub mod Separate
use Prim.Native.Nat.{◌/◌, ◌%◌}
use Prim.Native.Char.{Char, code}
use Prim.Native.String
use radius_todolist_app.Prelude.{
  ℕ, zero, suc, ◌+◌, ◌-◌, ◌*◌, String, Bool, true, false, not, ◌&&◌, ◌||◌, Option, none, some, List,
  [], ◌∷◌, str_eq, ◌==◌, leb, if◌then◌else◌,
}
use radius_todolist_app.Error.{Error, Result, ok, err, value_error, ◌>>=◌, ◌>>◌, raise_if}
use radius_todolist_app.Dict.{Dict, get}
use radius_todolist_app.Text.{is_digit, is_run, concat, digits_value, text_length}
use radius_todolist_app.Json.{Json, arr, items, dict_of, text_of}

pub record Address : Type 0 where
  pub a : ℕ
  pub b : ℕ
  pub c : ℕ
  pub d : ℕ

abbrev pub eq_address : Address → Address → Bool
eq_address x y = x.a == y.a && x.b == y.b && x.c == y.c && x.d == y.d

pub record Network : Type 0 where
  pub base : Address
  pub prefix : ℕ

abbrev pub eq_network : Network → Network → Bool
eq_network x y = eq_address x.base y.base && x.prefix == y.prefix

-- The texts before and after the first character `sep`.
split : ℕ → String → Option (String × String)
split sep String.[] = none
split sep (String.◌∷◌ c s) = elim (split sep s) [
  | some (x, y) ↦ if code c == sep then some ("", s) else some (String.◌∷◌ c x, y)
  | none ↦ if code c == sep then some ("", s) else none
]

has_leading_zero : String → Bool
has_leading_zero String.[] = false
has_leading_zero (String.◌∷◌ c String.[]) = false
has_leading_zero (String.◌∷◌ c (String.◌∷◌ d s)) = code c == b'0'

-- A decimal octet.
octet : String → Option ℕ
unfolding digits_value has_leading_zero text_length
octet s = elim (digits_value s) [
  | none ↦ none
  | some n ↦ if leb n 255 && not (has_leading_zero s) && leb (text_length s) 3 then some n else none
]

abbrev address_of : Option ℕ → Option ℕ → Option ℕ → Option ℕ → Option Address
address_of (some a) (some b) (some c) (some d) = some (record { a = a; b = b; c = c; d = d })
address_of _ _ _ _ = none

-- `IPv4Address(text)`
unfoldable pub parse_address : String → Option Address
unfolding split octet
parse_address s = elim (split b'.' s) [
  | none ↦ none
  | some (a, s1) ↦ elim (split b'.' s1) [
    | none ↦ none
    | some (b, s2) ↦ elim (split b'.' s2) [
      | none ↦ none
      | some (c, d) ↦ address_of (octet a) (octet b) (octet c) (octet d)
    ]
  ]
]

pow2 : ℕ → ℕ
pow2 zero = 1
pow2 (suc n) = 2 * pow2 n

value_of : Address → ℕ
value_of x = ((x.a * 256 + x.b) * 256 + x.c) * 256 + x.d

-- `IPv4Network(text, strict=True)`, for the parts around "/"
network_of : Option Address → Option ℕ → Option Network
unfolding pow2 value_of
network_of (some base) (some prefix) =
    if leb prefix 32 && (value_of base % pow2 (32 - prefix) == 0)
    then some (record { base = base; prefix = prefix })
    else none
network_of _ _ = none

is_cidr_char : Char → Bool
is_cidr_char c = is_digit c || code c == b'.'

-- `ipv4`
unfoldable pub ipv4 : Option Json → String → Result Address
unfolding parse_address concat
ipv4 value label = elim (text_of value) [
  | none ↦ err (value_error (concat label " must be an IPv4 address"))
  | some s ↦ elim (parse_address s) [
    | none ↦ err (value_error (concat label " must be an IPv4 address"))
    | some address ↦ ok address
  ]
]

parse_cidr : String → String → String → Result Network
unfolding is_run is_cidr_char network_of parse_address digits_value concat text_length
parse_cidr label base prefix =
    if is_run is_cidr_char 1 (text_length base) base && is_run is_digit 1 2 prefix
    then elim (network_of (parse_address base) (digits_value prefix)) [
      | none ↦ err (value_error (concat label " must be a canonical IPv4 CIDR"))
      | some network ↦ ok network
    ]
    else err (value_error (concat label " must be an IPv4 CIDR"))

-- `ipv4_cidr`
unfoldable pub ipv4_cidr : Option Json → String → Result Network
unfolding split parse_cidr concat
ipv4_cidr value label = elim (text_of value) [
  | none ↦ err (value_error (concat label " must be an IPv4 CIDR"))
  | some s ↦ elim (split b'/' s) [
    | none ↦ err (value_error (concat label " must be an IPv4 CIDR"))
    | some (base, prefix) ↦ parse_cidr label base prefix
  ]
]

-- `gateway.prefixlen == 24 and gateway.subnet_of(IPv4Network("10.64.16.0/20"))`
unfoldable pub is_gateway : Network → Bool
is_gateway n =
    n.prefix == 24 && n.base.a == 10 && n.base.b == 64 && leb 16 n.base.c && leb n.base.c 31

unfoldable pub node_address : ℕ → ℕ → Address
node_address index offset = record { a = 10; b = 64; c = index; d = offset }

unfoldable pub node_network : ℕ → Network
unfolding node_address
node_network index = record { base = node_address index 0; prefix = 24 }

unfoldable pub is_used : ℕ → List ℕ → Bool
is_used n [] = false
is_used n (m ∷ ms) = n == m || is_used n ms

-- The condition on `nodeSubnetCidr`.
check_node : Option Json → ℕ → Result (Unit {0})
unfolding ipv4_cidr node_network
check_node none index = ok tt
check_node (some value) index = do
  node ← ipv4_cidr (some value) "nodeSubnetCidr"
  raise_if (not (eq_network node (node_network index)))
      (value_error "nodeSubnetCidr does not match the bootstrap address contract")

-- The loop's body over `apiPrivateIp` and `challengePrivateIp`.
check_private : Dict Json → String → ℕ → ℕ → Result (Unit {0})
unfolding ipv4 node_address concat get
check_private allocation key index offset = do
  address ← ipv4 (get key allocation) key
  raise_if (not (eq_address address (node_address index offset)))
      (value_error (concat key " does not match the allocated node subnet address"))

-- The loop's body over `allocations`, with the index that it adds to `used`.
unfoldable pub check_allocation : List ℕ → String → Dict Json → Result ℕ
unfolding ipv4_cidr is_gateway is_used check_node check_private get
check_allocation used slot allocation = do
  gateway ← ipv4_cidr (get "gatewaySubnetCidr" allocation) "gatewaySubnetCidr"
  raise_if (not (is_gateway gateway))
      (value_error "gatewaySubnetCidr does not match the bootstrap address contract")
  let index = gateway.base.c - 16
  raise_if
      ((str_eq slot "management" && not (index == 0))
        || (not (str_eq slot "management") && index == 0)
        || is_used index used)
      (value_error "slot subnet allocations must be distinct with management at index zero")
  check_node (get "nodeSubnetCidr" allocation) index
  check_private allocation "apiPrivateIp" index 240
  check_private allocation "challengePrivateIp" index 241
  ok index

-- The loop over `allocations`.
unfoldable pub check_allocations : List ℕ → Dict Json → Result (Unit {0})
unfolding check_allocation
check_allocations used [] = ok tt
check_allocations used ((slot, value) ∷ m) = do
  allocation ← dict_of value
  index ← check_allocation used slot allocation
  check_allocations (index ∷ used) m

list_of : Option Json → List Json
list_of (some (arr vs)) = items vs
list_of _ = []

-- `[ipv4_cidr(value, "authorizedIpRanges") for value in ranges]`
parse_ranges : List Json → Result (List Network)
unfolding ipv4_cidr
parse_ranges [] = ok []
parse_ranges (v ∷ vs) = do
  network ← ipv4_cidr (some v) "authorizedIpRanges"
  rest ← parse_ranges vs
  ok (network ∷ rest)

unfoldable pub has_network : Network → List Network → Bool
has_network n [] = false
has_network n (m ∷ ms) = eq_network n m || has_network n ms

-- `is_public` is `address.is_global and not address.is_multicast`.
module _ (is_public : Address → Bool) where
  -- The test of the loop over `authorized`.
  unfoldable pub all_public : List Network → Bool
  all_public [] = true
  all_public (n ∷ ns) = n.prefix == 32 && is_public n.base && all_public ns

  -- The checks on `ranges` in `validate_network`.
  check_listed : List Json → Result (List Network)
  unfolding parse_ranges all_public
  check_listed [] =
      err (value_error "authorizedIpRanges must contain explicit public IPv4 /32 entries")
  check_listed (v ∷ vs) = do
    authorized ← parse_ranges (v ∷ vs)
    raise_if (not (all_public authorized))
        (value_error "authorizedIpRanges must contain explicit public IPv4 /32 entries")
    ok authorized

  unfoldable pub check_authorized : Dict Json → Result (List Network)
  unfolding list_of check_listed get
  check_authorized foundation = check_listed (list_of (get "authorizedIpRanges" foundation))

  -- `validate_network`
  unfoldable pub validate_network : Dict Json → Dict Json → Result (Unit {0})
  unfolding check_authorized ipv4 has_network check_allocations get
  validate_network foundation allocations = do
    authorized ← check_authorized foundation
    egress ← ipv4 (get "egressIp" foundation) "egressIp"
    raise_if (not (has_network (record { base = egress; prefix = 32 }) authorized))
        (value_error "authorizedIpRanges must include the NAT egress IPv4 /32")
    check_allocations [] allocations
