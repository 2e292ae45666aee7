-- ===== src/Tests/Allocations.antt =====
-- Three allocations that `validate_network` accepts.
use radius_todolist_app.Prelude.{String, [], ◌∷◌}
use radius_todolist_app.Dict.{Dict}
use radius_todolist_app.Json.{Json, text, arr, obj, end, item, stop, field}
use radius_todolist_app.Network.Separate.{Separate}

abbrev foundation : Dict Json
foundation =
    ("authorizedIpRanges", arr (item (text "20.1.2.3/32") end)) ∷ ("egressIp", text "20.1.2.3") ∷ []

abbrev subnet : String → String → String → Json
subnet gateway api challenge = obj (
    field "gatewaySubnetCidr" (text gateway)
      (field "apiPrivateIp" (text api) (field "challengePrivateIp" (text challenge) stop)))

abbrev allocations : Dict Json
allocations =
    ("management", subnet "10.64.16.0/24" "10.64.0.240" "10.64.0.241")
    ∷ ("shared-control", subnet "10.64.17.0/24" "10.64.1.240" "10.64.1.241")
    ∷ ("shared-data", subnet "10.64.18.0/24" "10.64.2.240" "10.64.2.241")
    ∷ []
