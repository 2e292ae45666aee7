-- ===== src/Tests/Operator.antt =====
-- A file that `OperatorConfig.from_dict` accepts, without an identity.
use radius_todolist_app.Prelude.{String, ◌≡◌, none, List, [], ◌∷◌}
use radius_todolist_app.Dict.{Dict}
use radius_todolist_app.Text.{concat}
use radius_todolist_app.Json.{Json, int, text, arr, obj, end, item, Fields, stop, field, fields}
use radius_todolist_app.Operator.Frozen.{freeze, plain, plain-freeze}
use radius_todolist_app.Operator.Load.{OperatorConfig}

abbrev texts : List (String × String) → Fields → Fields
texts [] rest = rest
texts ((k, v) ∷ m) rest = field k (text v) (texts m rest)

abbrev group : String → String
unfolding concat
group name = concat "/subscriptions/s-1/resourceGroups/" name

abbrev identities : Json
unfolding group
identities = obj (
    field "certificateIssuer" (obj (texts (("clientId", "c-1") ∷ ("id", group "issuer") ∷ []) stop))
      stop)

abbrev allocation : String → String → String → String → Json
unfolding group concat identities
allocation slot gateway api challenge = obj (
    texts
      (("slot", slot)
        ∷ ("clusterName", concat "aks-" slot)
        ∷ ("clusterResourceGroup", concat "rg-" slot)
        ∷ ("appResourceGroup", concat "app-" slot)
        ∷ ("nodeSubnetId", group "nodes")
        ∷ ("gatewaySubnetId", group "gateways")
        ∷ ("privateEndpointSubnetId", group "endpoints")
        ∷ ("postgresqlSubnetId", group "postgres")
        ∷ ("clusterResourceGroupId", group "clusters")
        ∷ ("appResourceGroupId", group "apps")
        ∷ ("certificateName", concat "gateway-" slot)
        ∷ ("acmeStateSecretName", concat "acme-" slot)
        ∷ ("certificateIssuerSubject", "system:serviceaccount:radplanes-system:certificate-issuer")
        ∷ ("gatewaySubnetCidr", gateway)
        ∷ [])
      (field "identities" identities
        (texts (("apiPrivateIp", api) ∷ ("challengePrivateIp", challenge) ∷ []) stop)))

abbrev foundation : Fields
foundation = field "authorizedIpRanges" (arr (item (text "20.1.2.3/32") end)) (
    texts
      (("egressIp", "20.1.2.3")
        ∷ ("projectName", "radplanes")
        ∷ ("location", "centralus")
        ∷ ("subscriptionId", "s-1")
        ∷ ("tenantId", "t-1")
        ∷ ("registryName", "radreg")
        ∷ ("registryLoginServer", "radreg.azurecr.io")
        ∷ [])
      stop)

abbrev allocations : Fields
unfolding allocation
allocations =
    field "management" (allocation "management" "10.64.16.0/24" "10.64.0.240" "10.64.0.241") (
      field "shared-control"
        (allocation "shared-control" "10.64.17.0/24" "10.64.1.240" "10.64.1.241")
        (field "shared-data" (allocation "shared-data" "10.64.18.0/24" "10.64.2.240" "10.64.2.241")
          stop))

abbrev digest : String
unfolding concat
digest = concat "sha256:" "0123456789abcdef0123456789abcdef0123456789abcdef0123456789abcdef"

abbrev recipe : Json
unfolding digest
recipe =
    obj
      (texts (("reference", "radreg.azurecr.io/recipes/cluster:v1") ∷ ("digest", digest) ∷ []) stop)

abbrev recipes : Json
unfolding recipe
recipes = obj (
    field "cluster" recipe
      (field "postgresql" recipe (field "gateway" recipe (field "redis" recipe stop))))

abbrev image : Json
unfolding digest concat
image = text (concat "radreg.azurecr.io/app@" digest)

abbrev images : Fields
unfolding image
images = field "api" image (field "provisioner" image stop)

abbrev coordinator : Json
coordinator = obj (texts (("clientId", "c-2") ∷ []) stop)

abbrev file : Dict Json
unfolding allocations recipes images
file =
    ("version", int 1)
    ∷ ("foundation", obj foundation)
    ∷ ("allocations", obj allocations)
    ∷ ("recipes", recipes)
    ∷ ("images", obj images)
    ∷ ("coordinatorIdentity", coordinator)
    ∷ ("managementCluster", obj stop)
    ∷ []

abbrev config : OperatorConfig
unfolding allocations recipes images
config = record {
  foundation = fields foundation;
  allocations = fields allocations;
  recipes = recipes;
  images = fields images;
  coordinator_identity = coordinator;
  management_cluster = obj stop;
  certificate_command = [];
  identity = none;
}

plain-freeze_example : plain (freeze (obj foundation)) ≡ obj foundation
plain-freeze_example = plain-freeze (obj foundation)
