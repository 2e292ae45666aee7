-- ===== src/Operations/Outcome.antt =====
-- How `OperationStore.observe` and `OperationStore.complete` end, on every branch.
use radius_todolist_app.Prelude.{
  String, ◌≡◌, refl, ◌⊎◌, inl, inr, true, false, Option, none, some, [], ◌∷◌, ◌++◌, arith, str_eq,
  Bool-cases, Option-cases, update_where,
}
use radius_todolist_app.Error.{Result, ok, err, value_error, database}
use radius_todolist_app.Session.{Session, connection_failed, transaction, execute, ◌>>=◌}
use radius_todolist_app.Session.Steady.{run}
use radius_todolist_app.Tables.{Status, running, succeeded, failed, interrupted, Db, is_running}
use radius_todolist_app.Operations.{
  Row, transition, locked_row, locked, same_observation, observe, admits, complete,
}
use radius_todolist_app.Operations.Atomicity.{methods-Atomic}
use radius_todolist_app.Operations.Keys.{has_id}
use radius_todolist_app.Operations.Checks.{Passes, Breaks, admits-Passes, admits-Breaks}

-- A row that runs has got a new status, stage and error, and one event says so.
abbrev pub Recorded : Db → Row → Status → String → Option String → Db → Type 0
Recorded d row status stage error_code d' =
    (is_running row.operation.status ≡ true)
    × (d'.operations
        ≡ update_where (has_id row.operation.operation_id)
            (λ o. record o { status = status; stage = stage; error_code = error_code })
            d.operations)
    × (d'.events
        ≡ d.events
          ++ record {
            event_id = d.next_event_id;
            tenant_id = row.tenant.tenant_id;
            onboarding_id = row.tenant.onboarding_id;
            pair_id = row.tenant.pair_id;
            source = "provisioner";
            type = transition status;
            version = 1;
            error_code = error_code;
            stage = some stage;
          }
            ∷ [])
    × (d'.tenants ≡ d.tenants)

abbrev pub Completes : String → Db → Result (Unit {0}) × Db → Type 0
Completes id d (r, d') =
    ((row : Row) × (locked_row id d ≡ some row)
      × (r ≡ ok tt)
      × Recorded d row succeeded "available" none d'
      × (d'.pairs
          ≡ update_where (λ p. str_eq p.pair_id row.tenant.pair_id)
              (λ p. record p { stage = "available" }) d.pairs))
    ⊎ ((row : Row) × (locked_row id d ≡ some row)
        × (is_running row.operation.status ≡ false)
        × (r ≡ err (value_error "operation_is_not_running"))
        × (d' ≡ d))
    ⊎ ((locked_row id d ≡ none) × (r ≡ err (value_error "operation_not_found")) × (d' ≡ d))

pub complete_quiet : (id : String) (d : Db) → Completes id d (run (complete id) d)
unfolding complete transaction execute ◌>>=◌
complete_quiet id d = elim (Option-cases (locked_row id d)) [
  | inl e ↦ inr (inr (e, rw (e, locked), rw (e, locked)))
  | inr (row, e) ↦ elim (Bool-cases (is_running row.operation.status)) [
    | inl t ↦
        inl (row, e, ground arith, (t, ground arith, ground arith, ground arith), ground arith)
    | inr f ↦ inr (inl (row, e, f, ground arith, ground arith))
  ]
]

-- `complete` reports a failed connection, or ends in one of three ways: the operation runs, and it
-- becomes succeeded in the stage "available", its tenant's pair becomes available, and one event is
-- recorded; or it does not run, or is not there, which is an error that leaves the tables alone.
pub complete_outcomes :
    (id : String) (s : Session Db)
    → let (r, s') = complete id s in (r ≡ connection_failed) ⊎ Completes id s.db (r, s'.db)
complete_outcomes id s = elim ((methods-Atomic.3 id).steady.at s) [
  | inl failed_connection ↦ inl failed_connection
  | inr (same_result, same_tables) ↦ inr (rw (same_result, same_tables) (complete_quiet id s.db))
]

-- What the arguments of `observe` may be.
abbrev pub IsObservable : Status → Option String → Type 0
IsObservable running none = Unit
IsObservable failed (some _) = Unit
IsObservable interrupted (some _) = Unit
IsObservable _ _ = ⊥

abbrev pub Observes :
    String → String → Status → Option String → Db → Result (Unit {0}) × Db → Type 0
Observes id stage status error_code d (r, d') =
    ((row : Row) × (locked_row id d ≡ some row)
      × IsObservable status error_code
      × (r ≡ ok tt)
      × ((same_observation row.operation status stage error_code ≡ true) × (d' ≡ d)
          ⊎ (Recorded d row status stage error_code d'
              × (d'.pairs ≡ d.pairs)
              × Passes row.operation stage error_code)))
    ⊎ ((row : Row) × (locked_row id d ≡ some row)
        × IsObservable status error_code
        × (is_running row.operation.status ≡ true)
        × Breaks row.operation stage error_code
        × (r ≡ err (database (some "23514")))
        × (d' ≡ d))
    ⊎ ((e : String) × (r ≡ err (value_error e))
        × (d' ≡ d)
        × (¬ IsObservable status error_code
            ⊎ (locked_row id d ≡ none)
            ⊎ ((row : Row) × (locked_row id d ≡ some row)
                × (is_running row.operation.status ≡ false)
                × (same_observation row.operation status stage error_code ≡ false))))

observe_block :
    (id stage : String) (status : Status) (error_code : Option String) (d : Db)
    → IsObservable status error_code
    → Observes id stage status error_code d (run (observe id stage status error_code) d)
unfolding observe transaction execute ◌>>=◌
observe_block id stage status error_code d ok_args = elim (Option-cases (locked_row id d)) [
  | inl e ↦ inr (inr ("operation_not_found", ground arith, ground arith, inr (inl e)))
  | inr (row, e) ↦ elim (Bool-cases (same_observation row.operation status stage error_code)) [
    | inl same ↦ inl (row, e, ok_args, ground arith, inl (same, ground arith))
    | inr new ↦ elim (Bool-cases (is_running row.operation.status)) [
      | inr f ↦
          inr (
            inr
              ("operation_is_not_running", ground arith, ground arith, inr (inr (row, e, f, new))))
      | inl t ↦ elim (Bool-cases (admits row.operation stage error_code)) [
        | inl a ↦
            let passes = admits-Passes row.operation stage error_code a in
            inl (
              row,
              e,
              ok_args,
              ground arith,
              inr ((t, ground arith, ground arith, ground arith), ground arith, passes),
            )
        | inr a ↦
            let breaks = admits-Breaks row.operation stage error_code a in
            inr (inl (row, e, ok_args, t, breaks, ground arith, ground arith))
      ]
    ]
  ]
]

pub observe_quiet :
    (id stage : String) (status : Status) (error_code : Option String) (d : Db)
    → Observes id stage status error_code d (run (observe id stage status error_code) d)
observe_quiet id stage running none d = observe_block id stage running none d tt
observe_quiet id stage failed (some e) d = observe_block id stage failed (some e) d tt
observe_quiet id stage interrupted (some e) d = observe_block id stage interrupted (some e) d tt
observe_quiet id stage status error_code d =
    unfold observe in inr (inr (_, refl, refl, inl (λ x. x)))

-- `observe` reports a failed connection, or accepts its arguments and the operation, and then has
-- recorded what is observed of a running operation, with one event, or found the row to hold it
-- already and changed nothing. A new stage or error code that is recorded has passed the table's
-- CHECKs; where it breaks one, the error is a CheckViolation and nothing is changed. Else it is a
-- ValueError and nothing is changed: a status and an error that do not go together, an operation
-- that is not there, or one that does not run.
pub observe_outcomes :
    (id stage : String) (status : Status) (error_code : Option String) (s : Session Db)
    → let (r, s') = observe id stage status error_code s in
      (r ≡ connection_failed) ⊎ Observes id stage status error_code s.db (r, s'.db)
observe_outcomes id stage status error_code s =
    elim ((methods-Atomic.2 id stage status error_code).steady.at s) [
      | inl failed_connection ↦ inl failed_connection
      | inr (same_result, same_tables) ↦
          inr (rw (same_result, same_tables) (observe_quiet id stage status error_code s.db))
    ]
