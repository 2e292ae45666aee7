-- ===== src/Provisioning/Order.antt =====
-- The order in which `prepare_pair` acts: on a provider that keeps a log of what it is asked to do.
use radius_todolist_app.Prelude.{
  String, ◌≡◌, refl, List, [], ◌∷◌, ◌++◌, arith, str_eq, any, inl, inr, Bool-cases,
}
use radius_todolist_app.Error.{Result, ok, err}
use radius_todolist_app.Provisioning.Effects.{Program, World, pure, ask, continue, ◌>>=◌}
use radius_todolist_app.Provisioning.{
  Provider, Cluster, PairResult, Deployment, ends, observing, slot, follow, deploy, prepare_pair,
}
use radius_todolist_app.Provisioning.Logs.{
  Act, ensures, gives, bootstraps, deploys, blank, given, log_deployment, logging, Adds, Logs,
  Traces, Adds-ok, Traces-bind, Logs-bind, Logs-pure, Traces-of_Logs, Traces-raise, Logs-ask,
  Logs-tell,
}

module _ {P S : Type 0} (provider : Provider P) (observe : String → S → Result (Unit {0}) × S) where
  log_of_follow :
      (log : List Act) (d : Deployment P) (s : S)
      → (follow (logging provider) observe (log_deployment log d) s).1.provider.1 ≡ log
  unfolding follow
  log_of_follow log (ends r p) s = refl
  log_of_follow log (observing stage p rest) s =
      ground (arith, log_of_follow log rest (observe stage s).1)

  Logs-deploy : (name : String) → Logs (deploys name ∷ []) (deploy (logging provider) observe name)
  unfolding deploy
  Logs-deploy name = record {
    at = λ w. (
      deploys name ∷ [],
      [],
      log_of_follow _ (provider.deploy_plane name w.provider.0) w.caller,
      refl,
      λ b h. refl,
    );
  }

  module _ {A B : Type 0} (b : B) (name : String) (ys : Cluster → B → List Act)
      (f : Cluster → Program (P × List Act) S A) (hf : (c : Cluster) → Traces (ys c) (f c)) where
    abbrev ensuring : Cluster × B → List Act
    ensuring (c, b') = ensures name ∷ gives c ∷ ys c b'

    ensured :
        (r : Result Cluster) (v w : World (P × List Act) S)
        → w.provider.1 ≡ v.provider.1 ++ ensures name ∷ given r
        → (given_b : Cluster × B) × Adds (ensuring given_b) v (continue r f w)
    ensured (ok c) v w logged =
        let (b', more) = (hf c).at w in
        (
          (c, b'),
          Adds-ok (ensures name ∷ gives c ∷ []) (ys c b') c v w (f c w)
              (ensures name ∷ gives c ∷ [], [], logged, refl, λ a h. refl) more,
        )
    ensured (err x) v w logged =
        ((blank, b), (ensures name ∷ [], gives blank ∷ ys blank b, logged, refl, λ a h. cc))

    Traces-ensure : Traces ensuring (ask ((logging provider).ensure_child_cluster name) >>= f)
    unfolding ask ◌>>=◌
    Traces-ensure = record {
      at = λ w.
          let (r, p) = provider.ensure_child_cluster name w.provider.0 in
          ensured r w (record w { provider = (p, w.provider.1 ++ ensures name ∷ given r) }) refl;
    }

  -- The acts of a whole preparation, in their order, with the clusters that are ensured.
  abbrev pub preparation : String → Cluster → Cluster → List Act
  preparation pair_id control data_plane =
      ensures (slot pair_id "control")
      ∷ gives control
      ∷ ensures (slot pair_id "data")
      ∷ gives data_plane
      ∷ bootstraps control
      ∷ bootstraps data_plane
      ∷ deploys (slot pair_id "control")
      ∷ deploys (slot pair_id "data")
      ∷ []

  abbrev result_of : Cluster → Cluster → String → String → PairResult
  result_of control data_plane control_url data_url = record {
    control_cluster_id = control.cluster_id;
    data_cluster_id = data_plane.cluster_id;
    control_url = control_url;
    data_url = data_url;
  }

  deploys-Logs :
      (pair_id : String) (control data_plane : Cluster)
      → Logs (deploys (slot pair_id "control") ∷ deploys (slot pair_id "data") ∷ []) (
          deploy (logging provider) observe (slot pair_id "control") >>= λ control_url.
          deploy (logging provider) observe (slot pair_id "data") >>= λ data_url.
          pure (result_of control data_plane control_url data_url))
  deploys-Logs pair_id control data_plane =
      Logs-bind (deploys (slot pair_id "control") ∷ []) _ _ _ (Logs-deploy _) λ control_url.
        Logs-bind (deploys (slot pair_id "data") ∷ []) _ _ _ (Logs-deploy _) λ data_url. Logs-pure _

  abbrev prepared : String → Cluster × (Cluster × Unit {0}) → List Act
  prepared pair_id (control, (data_plane, _)) = preparation pair_id control data_plane

  prepare_pair-Traces :
      (pair_id : String)
      → Traces (prepared pair_id) (prepare_pair (logging provider) observe pair_id)
  unfolding prepare_pair
  prepare_pair-Traces pair_id =
      let control_slot = slot pair_id "control" in
      let data_slot = slot pair_id "data" in
      let rest : Cluster → Cluster → Unit {0} → List Act = λ control data_plane _.
        bootstraps control
        ∷ bootstraps data_plane
        ∷ deploys control_slot
        ∷ deploys data_slot
        ∷ [] in
      let after_control : Cluster → Cluster × Unit {0} → List Act = λ control (data_plane, _).
        ensures data_slot ∷ gives data_plane ∷ rest control data_plane tt in
      elim (Bool-cases (any (λ item. str_eq item.pair_id pair_id) provider.pair_slots)) [
        | inr e ↦ rw e (Traces-raise (blank, (blank, tt)) _ _)
        | inl e ↦ rw e (
            Traces-bind (blank, (blank, tt)) [] (prepared pair_id) _ _ (Logs-tell _)
              λ _.
                Traces-ensure (blank, tt) control_slot after_control _
                  λ control.
                    Traces-bind (blank, tt) [] (after_control control) _ _ (Logs-tell _)
                      λ _. Traces-ensure tt data_slot (rest control) _ λ data_plane.
                        Traces-of_Logs tt (rest control data_plane) (
                          Logs-bind [] _ _ _ (Logs-tell _) λ _.
                            Logs-bind (bootstraps control ∷ []) _ _ _ (Logs-ask _ _) λ _.
                              Logs-bind [] _ _ _ (Logs-tell _) λ _.
                                Logs-bind (bootstraps data_plane ∷ []) _ _ _ (Logs-ask _ _)
                                  λ _. deploys-Logs pair_id control data_plane))
      ]

  -- On any provider, `prepare_pair` ensures the control cluster and then the data cluster; then it
  -- bootstraps the very cluster that the first call has given and then that of the second; then it
  -- deploys the control plane and then the data plane. If it raises, it has done an initial part of
  -- that, and if it returns, all of it.
  pub prepare_pair_order :
      (pair_id : String) (w : World (P × List Act) S)
      → (control : Cluster) × (data_plane : Cluster) × Adds
          (preparation pair_id control data_plane)
          w
          (prepare_pair (logging provider) observe pair_id w)
  prepare_pair_order pair_id w =
      let ((control, (data_plane, _)), adds) = (prepare_pair-Traces pair_id).at w in
      (control, data_plane, adds)
