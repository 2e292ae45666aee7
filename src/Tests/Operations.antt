-- ===== src/Tests/Operations.antt =====
-- The methods of `OperationStore` on the example tables.
use radius_todolist_app.Prelude.{◌≡◌, ◌⊎◌, refl, some, [], ◌∷◌}
use radius_todolist_app.Session.{connection_failed, delivered, lost}
use radius_todolist_app.Tables.{pending, running, failed}
use radius_todolist_app.Operations.{claim_pending, interrupt_running, complete, observe}
use radius_todolist_app.Operations.Claim.{claim_pending_oldest, Claims}
use radius_todolist_app.Operations.Interrupt.{interrupt_running-Stops, Stops}
use radius_todolist_app.Operations.Outcome.{
  complete_outcomes, observe_outcomes, Completes, Observes,
}
use radius_todolist_app.Operations.Lifecycle.{claim_next, perform, perform_lifecycle, Evolves}
use radius_todolist_app.Tests.Examples.{tables, session}

perform_lifecycle_example :
    Evolves
      (tables pending).operations
      (perform claim_next (session pending (delivered ∷ lost ∷ []))).db.operations
perform_lifecycle_example =
    perform_lifecycle claim_next (session pending (delivered ∷ lost ∷ [])) (tt, tt) (refl, tt)

claim_pending_oldest_example :
    let (r, s') = claim_pending (session pending []) in
    (r ≡ connection_failed) ⊎ Claims (tables pending) (r, s'.db)
claim_pending_oldest_example = claim_pending_oldest (session pending []) (tt, tt) (refl, tt)

interrupt_running-Stops_example :
    let (r, s') = interrupt_running (session running []) in
    (r ≡ connection_failed) ⊎ Stops (tables running) (r, s'.db)
interrupt_running-Stops_example = interrupt_running-Stops (session running []) (tt, tt) (refl, tt)

complete_outcomes_example :
    let (r, s') = complete "a-1" (session running []) in
    (r ≡ connection_failed) ⊎ Completes "a-1" (tables running) (r, s'.db)
complete_outcomes_example = complete_outcomes "a-1" (session running [])

observe_outcomes_example :
    let (r, s') = observe "a-1" "control-radius" failed (some "az_failed") (session running []) in
    (r ≡ connection_failed)
    ⊎ Observes "a-1" "control-radius" failed (some "az_failed") (tables running) (r, s'.db)
observe_outcomes_example =
    observe_outcomes "a-1" "control-radius" failed (some "az_failed") (session running [])
