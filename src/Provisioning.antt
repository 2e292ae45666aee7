-- ===== src/Provisioning.antt =====
-- `provision_pair` and `prepare_pair` of src/plane_demo/management/provisioning.py, over the
-- protocol `Provider` that they are written against.
-- A provider keeps a state of its own; `observe` is the caller's, with the caller's state. The
-- loops over ("control", "data") are written out, role by role.
pub mod Effects
pub mod Keeps
pub mod Safety
pub mod Logs
pub mod Order
use Prim.Native.String.{◌++◌ as concat, ◌∷◌ as char_cons, [] as empty}
use Prim.Native.Char.{Char, code}
use radius_todolist_app.Prelude.{
  ℕ, String, Bool, true, false, not, ◌&&◌, ◌||◌, List, [], ◌∷◌, str_eq, ◌==◌, if◌then◌else◌, any,
}
use radius_todolist_app.Error.{Error, Result, ok, err, provisioning}
use radius_todolist_app.Tables.{Pair}
use radius_todolist_app.Operations.{PendingOperation}
use radius_todolist_app.Provisioning.Effects.{Program, World, pure, raise, ask, tell, ◌>>=◌, ◌>>◌}

pub record Cluster : Type 0 where
  pub slot : String
  pub cluster_id : String
  pub context : String
  pub kubeconfig : String

pub record PairResult : Type 0 where
  pub control_cluster_id : String
  pub data_cluster_id : String
  pub control_url : String
  pub data_url : String

-- An entry of `config.pair_slots`.
pub record PairSlot : Type 0 where
  pub pair_id : String
  pub reporting_role : String

-- A run of `deploy_plane`: it may call `observe` any number of times before it ends. Should
-- `observe` raise, the run is over and the provider is left in the state that stands there.
pub data Deployment (P : Type 0) : Type 0 where
  ends : Result String → P → Deployment P
  observing : String → P → Deployment P → Deployment P

-- The protocol `Provider` with the parts of `ProvisioningConfig` that the two functions read.
pub record Provider (P : Type 0) : Type 0 where
  pub prepared_environments : Bool
  pub pair_slots : List PairSlot
  pub expected_cluster_id : String → P → Result String × P
  pub validate_endpoint : String → String → P → Result String × P
  pub ensure_child_cluster : String → P → Result Cluster × P
  pub bootstrap_child : Cluster → P → Result (Unit {0}) × P
  pub deploy_plane : String → P → Deployment P
  pub inspect_pair : String → P → Result PairResult × P

-- f"{pair_id}-{role}"
abbrev pub slot : String → String → String
slot pair_id role = concat pair_id (concat "-" role)

-- value.replace("-", "_")
unfoldable pub underscored : String → String
underscored String.[] = ""
underscored (String.◌∷◌ c s) = char_cons (if code c == b'-' then "_" else c) (underscored s)

-- "cp_" + pair.replace("-", "_")
unfoldable pub reporting_role_of : String → String
unfolding underscored
reporting_role_of pair = concat "cp_" (underscored pair)

module _ {P S : Type 0} (provider : Provider P) (observe : String → S → Result (Unit {0}) × S) where
  unfoldable pub follow : Deployment P → S → Result String × World P S
  follow (ends r p) s = (r, record { provider = p; caller = s })
  follow (observing stage p rest) s =
      let (seen, s') = observe stage s in
      elim seen [ ok _ ↦ follow rest s' | err e ↦ (err e, record { provider = p; caller = s' }) ]

  unfoldable pub deploy : String → Program P S String
  unfolding follow
  deploy name w = follow (provider.deploy_plane name w.provider) w.caller

  -- `prepare_pair`
  unfoldable pub prepare_pair : String → Program P S PairResult
  unfolding deploy
  prepare_pair pair_id =
      if not (any (λ item. str_eq item.pair_id pair_id) provider.pair_slots)
      then raise (provisioning "invalid_pair_assignment")
      else (do
        tell (observe "control-cluster")
        control ← ask (provider.ensure_child_cluster (slot pair_id "control"))
        tell (observe "data-cluster")
        data_plane ← ask (provider.ensure_child_cluster (slot pair_id "data"))
        tell (observe "control-radius")
        ask (provider.bootstrap_child control)
        tell (observe "data-radius")
        ask (provider.bootstrap_child data_plane)
        control_url ← deploy (slot pair_id "control")
        data_url ← deploy (slot pair_id "data")
        pure (record {
          control_cluster_id = control.cluster_id;
          data_cluster_id = data_plane.cluster_id;
          control_url = control_url;
          data_url = data_url;
        }))

  -- The assignment of the request and that of the pair disagree.
  abbrev pub is_misassigned : PendingOperation → Pair → Bool
  is_misassigned request pair =
      not (str_eq request.pair_id pair.pair_id)
      || not (str_eq request.isolation pair.isolation)
      || not (
          str_eq request.isolation
            (if str_eq request.pair_id "shared" then "shared" else "isolated"))
      || not (str_eq pair.reporting_role (reporting_role_of request.pair_id))

  -- The branch of `provision_pair` for a pair that is available.
  unfoldable pub reuse_pair : String → String → String → Program P S PairResult
  reuse_pair pair_id control_id data_id = do
    result ← ask (provider.inspect_pair pair_id)
    if not (str_eq result.control_cluster_id control_id && str_eq result.data_cluster_id data_id)
        then raise (provisioning "pair_inventory_mismatch")
        else (do
          tell (observe "reuse-pair")
          control_url ← ask (provider.validate_endpoint (slot pair_id "control") result.control_url)
          data_url ← ask (provider.validate_endpoint (slot pair_id "data") result.data_url)
          pure (record {
            control_cluster_id = control_id;
            data_cluster_id = data_id;
            control_url = control_url;
            data_url = data_url;
          }))

  -- `provision_pair`
  unfoldable pub provision_pair : PendingOperation → Pair → Program P S PairResult
  unfolding prepare_pair reuse_pair
  provision_pair request pair =
      if provider.prepared_environments
      then raise (provisioning "tenant_infrastructure_disabled")
      else if is_misassigned request pair
      then raise (provisioning "invalid_pair_assignment")
      else (do
        control_id ← ask (provider.expected_cluster_id (slot request.pair_id "control"))
        data_id ← ask (provider.expected_cluster_id (slot request.pair_id "data"))
        if str_eq pair.stage "available"
            then reuse_pair request.pair_id control_id data_id
            else prepare_pair request.pair_id)
