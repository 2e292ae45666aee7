-- ===== src/Tests/Provisioner.antt =====
-- The coordinator on the example tables.
use radius_todolist_app.Prelude.{
  ℕ, ◌≡◌, ◌⊎◌, inl, inr, refl, true, false, [], ◌∷◌, In, select, String,
}
use radius_todolist_app.Error.{Result, ok, err, provisioning}
use radius_todolist_app.Session.{connection_failed, delivered, lost}
use radius_todolist_app.Tables.{Operation, pending, running, is_pending}
use radius_todolist_app.Operations.Claim.{IsOldest}
use radius_todolist_app.Admission.Consistency.{IsConsistent}
use radius_todolist_app.Provisioning.{Cluster, provision_pair, prepare_pair, ends}
use radius_todolist_app.Provisioning.Effects.{World}
use radius_todolist_app.Provisioning.Logs.{Adds, logging}
use radius_todolist_app.Provisioning.Order.{preparation, prepare_pair_order}
use radius_todolist_app.Provisioning.Safety.{provision_pair_rejects, provision_pair_reuses}
use radius_todolist_app.Provisioner.{run_once, run_loop}
use radius_todolist_app.Provisioner.Replay.{
  IsInterrupted, run_loop-IsConsistent, run_loop_never_replays,
}
use radius_todolist_app.Provisioner.Settles.{Ends, FailsInDatabase, run_once_settles}
use radius_todolist_app.Tests.Examples.{
  tables, world, calm, service, operation_with, pending-IsConsistent, running-IsConsistent,
  acme_request, isolated_request, isolated_pair,
}

run_once_settles_example :
    let (r, w') = run_once calm (world pending (delivered ∷ [])) in
    FailsInDatabase r
    ⊎ ((r ≡ ok false)
        × (select (λ o. is_pending o.status) (tables pending).operations ≡ [])
        × (w'.caller.db ≡ tables pending)
        × (w'.provider ≡ 0))
    ⊎ ((r ≡ ok true)
        × ((o : Operation) × IsOldest o
              (select (λ p. is_pending p.status) (tables pending).operations)
            × In o (tables pending).operations
            × (is_pending o.status ≡ true)
            × Ends o.operation_id w'.caller.db))
run_once_settles_example =
    run_once_settles calm (world pending (delivered ∷ [])) pending-IsConsistent

run_loop-IsConsistent_example :
    IsConsistent (run_loop service true 2 (world pending (delivered ∷ lost ∷ []))).1.caller.db
run_loop-IsConsistent_example =
    run_loop-IsConsistent service true 2 (world pending (delivered ∷ lost ∷ []))
      pending-IsConsistent

run_loop_never_replays_example :
    let (r, w') = run_loop service true 3 (world running []) in
    ((r ≡ connection_failed)
      × (w'.caller.db ≡ (world running []).caller.db)
      × (w'.provider ≡ (world running []).provider))
    ⊎ IsInterrupted "a-1" w'.caller.db
run_loop_never_replays_example =
    run_loop_never_replays service true 3 (world running []) "a-1" (operation_with running)
      running-IsConsistent refl refl

-- The caller's state of these examples: the stages it was told of.
abbrev heard : String → ℕ → Result (Unit {0}) × ℕ
heard stage n = (ok tt, n)

abbrev idle : World ℕ ℕ
idle = record { provider = 0; caller = 0 }

prepare_pair_order_example :
    (control : Cluster) × (data_plane : Cluster) × Adds
      (preparation calm heard "shared" control data_plane)
      (record { provider = (0, []); caller = 0 })
      (prepare_pair (logging calm) heard "shared" (record { provider = (0, []); caller = 0 }))
prepare_pair_order_example =
    prepare_pair_order calm heard "shared" (record { provider = (0, []); caller = 0 })

provision_pair_rejects_example :
    (code : String) × (provision_pair calm heard acme_request isolated_pair idle
      ≡ (err (provisioning code), idle))
provision_pair_rejects_example =
    provision_pair_rejects calm heard acme_request isolated_pair idle (inr (inr (inl (λ e. cc))))

provision_pair_reuses_example :
    provision_pair
      (record calm {
        ensure_child_cluster = λ name n. (err (provisioning "called"), n);
        bootstrap_child = λ c n. (err (provisioning "called"), n);
        deploy_plane = λ name n. ends (err (provisioning "called")) n;
      })
      heard
      isolated_request
      isolated_pair
      idle
    ≡ provision_pair calm heard isolated_request isolated_pair idle
provision_pair_reuses_example =
    provision_pair_reuses calm heard isolated_request isolated_pair idle
      (λ name n. (err (provisioning "called"), n)) (λ c n. (err (provisioning "called"), n))
      (λ name n. ends (err (provisioning "called")) n) refl
