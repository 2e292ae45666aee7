-- ===== src/NodeSizes/Owned.antt =====
-- `owned_cores` of scripts/operations/azure/node_sizes.py.

use radius_todolist_app.Prelude.{
  ℕ, ◌+◌, ◌*◌, String, Bool, false, not, ◌&&◌, ◌||◌, Option, none, some, List, [], ◌∷◌, str_eq,
  if◌then◌else◌,
}
use radius_todolist_app.Error.{Result, ok, err, selection_error, ◌>>=◌, ◌>>◌, raise_if}
use radius_todolist_app.Dict.{Dict, get}
use radius_todolist_app.Text.{concat, is_one_of}
use radius_todolist_app.Json.{Json, text, arr, obj, items, fields}
use radius_todolist_app.Identity.Config.{DemoConfig}
use radius_todolist_app.Identity.Names.{slot_name, plane_group_id}
use radius_todolist_app.NodeSizes.{Size, integer, owned_of}

-- The names of the clusters, with their slots.
expected_names : DemoConfig → List String → Result (Dict String)
unfolding slot_name concat
expected_names c [] = ok []
expected_names c (slot ∷ slots) = do
  name ← slot_name c slot
  rest ← expected_names c slots
  ok ((concat "aks-" name, slot) ∷ rest)

abbrev equals : Option Json → String → Bool
equals (some (text s)) expected = str_eq s expected
equals _ expected = false

abbrev dict_or_empty : Option Json → Dict Json
dict_or_empty (some (obj fs)) = fields fs
dict_or_empty _ = []

has_tags : DemoConfig → Dict Json → Bool
unfolding get
has_tags c tags =
    equals (get "project" tags) c.project
    && equals (get "deployment" tags) c.deployment
    && equals (get "environment" tags) "azure"
    && equals (get "managedBy" tags) "radius-todolist-app"

abbrev equals_option : Option Json → Option String → Bool
equals_option actual none = false
equals_option actual (some expected) = equals actual expected

-- `credits[name] = credits.get(name, 0) + cores`
unfoldable pub add_cores : String → ℕ → Dict ℕ → Dict ℕ
unfolding owned_of
add_cores name cores credits = (name, owned_of name credits + cores) ∷ credits

module _ (lower : String → String) (c : DemoConfig) (sizes : Dict Size) where
  size_named : Option Json → Option Size
  unfolding get
  size_named (some (text s)) = get (lower s) sizes
  size_named _ = none

  -- The loop over the node pools of a cluster.
  unfoldable pub pool_cores : String → Dict ℕ → List Json → Result (Dict ℕ)
  unfolding size_named integer add_cores concat get
  pool_cores name credits [] = ok credits
  pool_cores name credits (obj pool ∷ pools) = elim (size_named (get "vmSize" (fields pool))) [
    | none ↦ err (selection_error (concat name ": cannot verify the existing node size"))
    | some size ↦ do
      count ← integer (get "count" (fields pool)) (concat name " node count")
      pool_cores name
          (add_cores size.family (count * size.cpus)
            (add_cores "cores" (count * size.cpus) credits))
          pools
  ]
  pool_cores name credits (_ ∷ pools) = err (selection_error (concat name ": invalid node pool"))

  is_id : Option Json → String → Bool
  is_id (some (text s)) identifier = str_eq (lower s) (lower identifier)
  is_id _ identifier = false

  pools_of : String → Dict ℕ → Option Json → Result (Dict ℕ)
  unfolding pool_cores concat
  pools_of name credits (some (arr vs)) = pool_cores name credits (items vs)
  pools_of name credits _ = err (selection_error (concat name ": node pool capacity is missing"))

  -- One cluster of a slot.
  cluster_cores : String → String → Dict ℕ → Dict Json → Result (Dict ℕ)
  unfolding plane_group_id is_id has_tags pools_of concat get
  cluster_cores name slot credits cluster = do
    group ← plane_group_id c slot
    raise_if
        (not (
            is_id (get "id" cluster)
              (concat group (concat "/providers/Microsoft.ContainerService/managedClusters/" name)))
          || not (equals_option (get "location" cluster) c.location)
          || not (has_tags c (dict_or_empty (get "tags" cluster))))
        (selection_error "AKS capacity discovery found a different resource owner")
    let power = get "code" (dict_or_empty (get "powerState" cluster))
    raise_if
        (not (equals (get "provisioningState" cluster) "Succeeded")
          || not (equals power "Running" || equals power "Stopped"))
        (selection_error (concat name ": wait for a stable AKS state before checking capacity"))
    if equals power "Stopped"
        then ok credits
        else pools_of name credits (get "agentPoolProfiles" cluster)

  -- The loop over the clusters.
  clusters_cores : Dict String → List String → Dict ℕ → List Json → Result (Dict ℕ)
  unfolding cluster_cores is_one_of get
  clusters_cores expected seen credits [] = ok credits
  clusters_cores expected seen credits (obj fs ∷ clusters) = elim (get "name" (fields fs)) [
    | some (text name) ↦ elim (get name expected) [
      | some slot ↦ do
        raise_if (is_one_of name seen)
            (selection_error "Unexpected or duplicate AKS cluster in the selected deployment")
        more ← cluster_cores name slot credits (fields fs)
        clusters_cores expected (name ∷ seen) more clusters
      | none ↦
          err (selection_error "Unexpected or duplicate AKS cluster in the selected deployment")
    ]
    | _ ↦ err (selection_error "Unexpected or duplicate AKS cluster in the selected deployment")
  ]
  clusters_cores expected seen credits (_ ∷ clusters) =
      err (selection_error "Azure returned an invalid AKS entry")

  -- `owned_cores`
  unfoldable pub owned_cores : List Json → List String → Result (Dict ℕ)
  unfolding expected_names clusters_cores
  owned_cores clusters slots = do
    expected ← expected_names c slots
    clusters_cores expected [] (("cores", 0) ∷ []) clusters
