-- ===== src/Operations/Atomicity.antt =====
-- The methods of `OperationStore` when the connection fails.
use radius_todolist_app.Prelude.{String, Option, none, some, List, [], ◌∷◌}
use radius_todolist_app.Error.{Error}
use radius_todolist_app.Session.Steady.{
  Steady, Atomic, Steady-pure, Steady-raise, Steady-bind, Atomic-transaction, steady_rules,
}
use radius_todolist_app.Tables.{Status, interrupted, Operation}
use radius_todolist_app.Operations.{
  Row, locked, found_or_raise, record_observation, interrupt_each, interrupt_running, claim,
  claim_pending, observe, complete,
}

found_or_raise-Steady : {A : Type 0} (o : Option A) (e : Error) → Steady (found_or_raise o e)
found_or_raise-Steady none e = Steady-raise e
found_or_raise-Steady (some a) e = Steady-pure a

locked-Steady : (id : String) → Steady (locked id)
unfolding locked
locked-Steady id = search (steady_rules, found_or_raise-Steady)

record_observation-Steady :
    (row : Row) (status : Status) (stage : String) (error_code : Option String)
    → Steady (record_observation row status stage error_code)
unfolding record_observation
record_observation-Steady row status stage error_code = search steady_rules

ruleset method_rules = (steady_rules, locked-Steady, record_observation-Steady)

interrupt_each-Steady : (os : List Operation) → Steady (interrupt_each os)
unfolding interrupt_each
interrupt_each-Steady [] = Steady-pure tt
interrupt_each-Steady (o ∷ os) =
    Steady-bind (locked o.operation_id) _ (locked-Steady o.operation_id) λ row.
      Steady-bind
        (record_observation row interrupted row.operation.stage (some "provisioner_restarted")) _
        (record_observation-Steady row interrupted row.operation.stage
          (some "provisioner_restarted"))
        (λ _. interrupt_each-Steady os)

claim-Steady : (o : Option Operation) → Steady (claim o)
unfolding claim
claim-Steady none = Steady-pure none
claim-Steady (some o) = search method_rules

interrupt_running-Atomic : Atomic interrupt_running
unfolding interrupt_running
interrupt_running-Atomic = Atomic-transaction _ (search (steady_rules, interrupt_each-Steady))

claim_pending-Atomic : Atomic claim_pending
unfolding claim_pending
claim_pending-Atomic = Atomic-transaction _ (search (steady_rules, claim-Steady))

complete-Atomic : (id : String) → Atomic (complete id)
unfolding complete
complete-Atomic id = Atomic-transaction _ (search method_rules)

observe-Atomic :
    (id stage : String) (status : Status) (error_code : Option String)
    → Atomic (observe id stage status error_code)
unfolding observe
observe-Atomic id stage status error_code = search method_rules depth 9

-- Each of the four methods of `OperationStore` is atomic, for every fate of its round trips: it
-- reports a failed connection and has left the tables as they were or as its undisturbed run
-- leaves them, or it ends just as its undisturbed run does.
pub methods-Atomic :
    Atomic interrupt_running
    × Atomic claim_pending
    × ((id stage : String) (status : Status) (error_code : Option String)
        → Atomic (observe id stage status error_code))
    × ((id : String) → Atomic (complete id))
methods-Atomic = (interrupt_running-Atomic, claim_pending-Atomic, observe-Atomic, complete-Atomic)
