-- ===== src/Provisioning/Safety.antt =====
-- `provision_pair` of src/plane_demo/management/provisioning.py on pairs that are available or
-- misassigned.
use radius_todolist_app.Prelude.{
  String, ◌≡◌, refl, ◌⊎◌, inl, inr, true, arith, Bool-cases, ◌≢◌, eq_iff,
}
use radius_todolist_app.Error.{Result, ok, err, provisioning}
use radius_todolist_app.Tables.{Pair}
use radius_todolist_app.Operations.{PendingOperation}
use radius_todolist_app.Provisioning.Effects.{World}
use radius_todolist_app.Provisioning.Keeps.{Keeps, keeps_rules}
use radius_todolist_app.Provisioning.{
  Cluster, Provider, Deployment, ends, observing, reporting_role_of, follow, deploy, prepare_pair,
  reuse_pair, is_misassigned, provision_pair,
}

module _ {P S : Type 0} (provider : Provider P) (observe : String → S → Result (Unit {0}) × S)
    (K : S → Type 0) (keeps : (stage : String) (s : S) → K s → K (observe stage s).1) where
  follow-Keeps : (d : Deployment P) (s : S) → K s → K (follow provider observe d s).1.caller
  unfolding follow
  follow-Keeps (ends r p) s h = h
  follow-Keeps (observing stage p rest) s h =
      go (observe stage s).0 (observe stage s).1 (keeps stage s h)
        (follow-Keeps rest (observe stage s).1 (keeps stage s h))
    where
      go :
          (r : Result (Unit {0})) (s' : S)
          → K s'
          → K (follow provider observe rest s').1.caller
          → K (
              let seen : Result String × World P S = elim r [
                | ok _ ↦ follow provider observe rest s'
                | err e ↦ (err e, record { provider = p; caller = s' })
              ] in
              seen.1.caller)
      go (ok _) s' k h' = h'
      go (err e) s' k h' = k

  deploy-Keeps : (name : String) → Keeps K (deploy provider observe name)
  unfolding deploy
  deploy-Keeps name = record {
    at = λ w h. follow-Keeps (provider.deploy_plane name w.provider) w.caller h;
  }

  prepare_pair-Keeps : (pair_id : String) → Keeps K (prepare_pair provider observe pair_id)
  unfolding prepare_pair
  prepare_pair-Keeps pair_id = search (keeps_rules, deploy-Keeps, keeps) depth 12

  reuse_pair-Keeps :
      (pair_id control_id data_id : String)
      → Keeps K (reuse_pair provider observe pair_id control_id data_id)
  unfolding reuse_pair
  reuse_pair-Keeps pair_id control_id data_id = search (keeps_rules, keeps) depth 12

  -- What each report to the caller keeps, `provision_pair` keeps.
  pub provision_pair-Keeps :
      (request : PendingOperation) (pair : Pair)
      → Keeps K (provision_pair provider observe request pair)
  unfolding provision_pair
  provision_pair-Keeps request pair =
      search (keeps_rules, prepare_pair-Keeps, reuse_pair-Keeps) depth 12

module _ {P S : Type 0} (provider : Provider P) (observe : String → S → Result (Unit {0}) × S)
    (request : PendingOperation) (pair : Pair) (w : World P S) where
  -- With prepared environments, or when the request and the pair do not fit each other,
  -- `provision_pair` raises, and neither the provider nor the caller has been called.
  pub provision_pair_rejects :
      (provider.prepared_environments ≡ true)
        ⊎ (request.pair_id ≢ pair.pair_id)
        ⊎ (request.isolation ≢ pair.isolation)
        ⊎ (pair.reporting_role ≢ reporting_role_of request.pair_id)
      → (code : String) × (provision_pair provider observe request pair w
          ≡ (err (provisioning code), w))
  unfolding provision_pair
  provision_pair_rejects h = elim (Bool-cases provider.prepared_environments) [
    | inl e ↦ ("tenant_infrastructure_disabled", rw e)
    | inr e ↦
        let misassigned : is_misassigned provider observe request pair ≡ true = ground (
          arith,
          eq_iff request.pair_id pair.pair_id,
          eq_iff request.isolation pair.isolation,
          eq_iff pair.reporting_role (reporting_role_of request.pair_id),
        ) in
        ("invalid_pair_assignment", rw (e, misassigned))
  ]

  -- For a pair that is available the provider's operations that create a cluster, bootstrap it or
  -- deploy to it make no difference: none is called.
  pub provision_pair_reuses :
      (ensure : String → P → Result Cluster × P) (bootstrap : Cluster → P → Result (Unit {0}) × P)
      (deploys : String → P → Deployment P)
      → pair.stage ≡ "available"
      → provision_pair
          (record provider {
            ensure_child_cluster = ensure;
            bootstrap_child = bootstrap;
            deploy_plane = deploys;
          })
          observe
          request
          pair
          w
        ≡ provision_pair provider observe request pair w
  unfolding provision_pair reuse_pair
  provision_pair_reuses ensure bootstrap deploys h = rw h refl
