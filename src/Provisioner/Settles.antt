-- ===== src/Provisioner/Settles.antt =====
-- How `run_once` of the coordinator ends.
use radius_todolist_app.Prelude.{
  String, ◌≡◌, refl, ◌∙◌, sym, ◌⊎◌, inl, inr, true, false, Option, none, some, List, [], ◌∷◌, arith,
  find, any, select, In, update_where, Bool-cases, eq_refl,
}
use radius_todolist_app.Error.{Error, Result, ok, err, is_database, database}
use radius_todolist_app.Session.Steady
use radius_todolist_app.Session.{Session, connection_failed}
use radius_todolist_app.Tables.{
  Status, running, succeeded, failed, Operation, Db, is_running, is_pending,
}
use radius_todolist_app.Operations.{
  Row, PendingOperation, pending_operation, set_observed, claim_pending, observe, complete,
  locked_row,
}
use radius_todolist_app.Operations.Keys.{
  locked_row_found, has_id, find-update_where, find-In, locked_row_of_any,
}
use mathlib.Core.Option.{some-injective}
use radius_todolist_app.Operations.Atomicity.{methods-Atomic}
use radius_todolist_app.Operations.Claim.{claim_pending_oldest, IsOldest}
use radius_todolist_app.Operations.Outcome.{
  complete_outcomes, observe_quiet, observe_outcomes, Recorded,
}
use radius_todolist_app.Operations.Lifecycle.{claim_next, observes, perform}
use radius_todolist_app.Admission.Consistency.{IsConsistent}
use radius_todolist_app.Admission.Consistency.Calls.{perform-IsConsistent}
use radius_todolist_app.Provisioning.{PairResult, Provider}
use radius_todolist_app.Provisioning.Effects.{World, tell, ◌>>=◌}
use radius_todolist_app.Provisioning.Keeps.{Keeps, Keeps-bind, Keeps-tell}
use radius_todolist_app.Provisioning.Safety.{provision_pair-Keeps}
use radius_todolist_app.Provisioner.{
  Progress, on_session, observe_stage, code_of, attempt, settle, process, run_once,
}
use radius_todolist_app.Provisioner.Replay.{read_pair_reads}

-- The operation is stored and runs, in consistent tables.
abbrev IsRunning : String → Db → Type 0
IsRunning id d =
    IsConsistent d
    × ((o : Operation) × (find (has_id id) d.operations ≡ some o) × (is_running o.status ≡ true))

-- The row after an UPDATE by its key.
Recorded-found :
    (id : String) (d d' : Db) {row : Row} (status : Status) (stage : String)
    (error_code : Option String)
    → locked_row id d ≡ some row
    → Recorded d row status stage error_code d'
    → find (has_id id) d'.operations ≡ some (set_observed status stage error_code row.operation)
Recorded-found id d d' {row} status stage error_code joined recorded =
    let (found, key) = locked_row_found id d joined in
    let rows = rw key at recorded.1 in
    rw
      (
        rows,
        find-update_where (set_observed status stage error_code) (λ o. refl) id id d.operations,
        found,
        eq_refl,
      )
      refl

-- A stage that is reported of a running operation leaves it running.
observe-IsRunning :
    (id stage : String) (s : Session Db)
    → IsRunning id s.db
    → IsRunning id (observe id stage running none s).1.db
observe-IsRunning id stage s (consistent, (o, found, runs)) = (
  unfold perform in perform-IsConsistent (observes id stage running none) s consistent,
  elim ((methods-Atomic.2 id stage running none).all_or_nothing s) [
    | inl same ↦ (o, rw (same, found) refl, runs)
    | inr same ↦ rw same (elim (observe_quiet id stage running none s.db) [
      | inr (inl (_, _, _, _, _, _, kept)) ↦ (o, rw (kept, found) refl, runs)
      | inr (inr (e, _, kept, _)) ↦ (o, rw (kept, found) refl, runs)
      | inl (row, joined, _, _, inl (_, kept)) ↦ (o, rw (kept, found) refl, runs)
      | inl (row, joined, _, _, inr (recorded, _, _)) ↦ (
        set_observed running stage none row.operation,
        Recorded-found id s.db (Steady.run (observe id stage running none) s.db).1 running stage
            none joined recorded,
        refl,
      )
    ])
  ],
)

any_of_found :
    (id : String) (os : List Operation) {o : Operation}
    → find (has_id id) os ≡ some o
    → any (has_id id) os ≡ true
any_of_found id [] h = cc
any_of_found id (p ∷ os) {o} h = ground (arith, any_of_found id os {o = o})

-- A running operation is found by `locked`, as a running row.
locked_running :
    (id : String) (d : Db)
    → IsRunning id d
    → (row : Row) × (locked_row id d ≡ some row) × (is_running row.operation.status ≡ true)
locked_running id d (consistent, (o, found, runs)) =
    let (row, joined, same, key) =
      locked_row_of_any id d (any_of_found id d.operations found) consistent.owned in
    let is_o : some row.operation ≡ some o = sym same ∙ found in
    (row, joined, rw (some-injective row.operation o is_o) runs)

-- How an operation ends that `run_once` has claimed.
abbrev pub Ends : String → Db → Type 0
Ends id d =
    (o : Operation) × (find (has_id id) d.operations ≡ some o)
    × ((o.status ≡ succeeded) × (o.stage ≡ "available") × (o.error_code ≡ none)
        ⊎ ((o.status ≡ failed) × ((code : String) × (o.error_code ≡ some code))))

complete-Ends :
    (id : String) (s : Session Db)
    → IsRunning id s.db
    → let (r, s') = complete id s in (r ≡ connection_failed) ⊎ ((r ≡ ok tt) × Ends id s'.db)
complete-Ends id s h =
    let (row, joined, runs) = locked_running id s.db h in
    elim (complete_outcomes id s) [
      | inl lost ↦ inl lost
      | inr (inl (row', joined', done, recorded, _)) ↦ inr (
        done,
        (
          set_observed succeeded "available" none row'.operation,
          Recorded-found id s.db (complete id s).1.db succeeded "available" none joined' recorded,
          inl (refl, refl, refl),
        ),
      )
      | inr (inr (inl (row', joined', idle, _, _))) ↦ ground arith
      | inr (inr (inr (missing, _, _))) ↦ ground arith
    ]

-- A result that is a database error.
abbrev pub FailsInDatabase : {A : Type 0} → Result A → Type 0
FailsInDatabase r = (e : Error) × (r ≡ err e) × (is_database e ≡ true)

fail-Ends :
    (id stage code : String) (s : Session Db)
    → IsRunning id s.db
    → let (r, s') = observe id stage failed (some code) s in
      FailsInDatabase r ⊎ ((r ≡ ok tt) × Ends id s'.db)
fail-Ends id stage code s h =
    let (row, joined, runs) = locked_running id s.db h in
    elim (observe_outcomes id stage failed (some code) s) [
      | inl lost ↦ inl (database none, lost, refl)
      | inr (inr (inl (row', joined', _, _, _, broken, _))) ↦ inl (_, broken, refl)
      | inr (inl (row', joined', _, done, inl (same, _))) ↦ ground arith
      | inr (inl (row', joined', _, done, inr (recorded, _, _))) ↦ inr (
        done,
        (
          set_observed failed stage (some code) row'.operation,
          Recorded-found id s.db (observe id stage failed (some code) s).1.db failed stage
              (some code) joined' recorded,
          inr (refl, (code, refl)),
        ),
      )
      | inr (inr (inr (e, _, _, inl unfit))) ↦ absurd (unfit tt)
      | inr (inr (inr (e, _, _, inr (inl missing)))) ↦ ground arith
      | inr (inr (inr (e, _, _, inr (inr (row', joined', idle, _))))) ↦ ground arith
    ]

module _ {P : Type 0} (provider : Provider P) where
  attempt-IsRunning :
      (operation : PendingOperation)
      → Keeps (λ p. IsRunning operation.operation_id p.session.db) (attempt provider operation)
  unfolding attempt on_session observe_stage
  attempt-IsRunning operation =
      Keeps-bind _ _ _ (Keeps-tell _ _ (λ p h. rw (read_pair_reads operation.pair_id p.session) h))
        (λ pair.
          provision_pair-Keeps provider _ _
            (λ stage p h. observe-IsRunning operation.operation_id stage p.session h) operation
            pair)

  settle-Ends :
      (operation : PendingOperation) (outcome : Result PairResult) (w : World P Progress)
      → IsRunning operation.operation_id w.caller.session.db
      → let (r, w') = settle provider operation outcome w in
        FailsInDatabase r ⊎ ((r ≡ ok true) × Ends operation.operation_id w'.caller.session.db)
  unfolding settle on_session ◌>>=◌ tell
  settle-Ends operation (ok _) w h =
      elim (complete-Ends operation.operation_id w.caller.session h) [
        | inl lost ↦ inl (database none, rw lost refl, refl)
        | inr (done, ends) ↦ inr (rw done (refl, ends))
      ]
  settle-Ends operation (err error) w h = elim (Bool-cases (is_database error)) [
    | inl e ↦ inl (error, rw e refl, e)
    | inr e ↦
        rw e
          (elim (fail-Ends operation.operation_id w.caller.stage (code_of error) w.caller.session
            h) [
              | inl (raised, is, in_database) ↦ inl (raised, rw is refl, in_database)
              | inr (done, ends) ↦ inr (rw done (refl, ends))
            ])
  ]

  process-Ends :
      (operation : PendingOperation) (w : World P (Session Db))
      → IsRunning operation.operation_id w.caller.db
      → let (r, w') = process provider (some operation) w in
        FailsInDatabase r ⊎ ((r ≡ ok true) × Ends operation.operation_id w'.caller.db)
  unfolding process
  process-Ends operation w h =
      let start : World P Progress = record {
        provider = w.provider;
        caller = record { session = w.caller; stage = "starting" };
      } in
      let (outcome, w') = attempt provider operation start in
      settle-Ends operation outcome w' ((attempt-IsRunning operation).at start h)

-- A claimed row runs.
claim-IsRunning :
    (s : Session Db) (row : Row)
    → IsConsistent s.db
    → In row.operation s.db.operations
    → (claim_pending s).1.db.operations
      ≡ update_where
          (has_id row.operation.operation_id)
          (set_observed running "starting" none)
          s.db.operations
    → IsRunning row.operation.operation_id (claim_pending s).1.db
claim-IsRunning s row consistent stored rows = (
  unfold perform in perform-IsConsistent claim_next s consistent,
  (
    set_observed running "starting" none row.operation,
    rw
        (
          rows,
          find-update_where (set_observed running "starting" none) (λ o. refl)
              row.operation.operation_id row.operation.operation_id s.db.operations,
          find-In row.operation s.db.operations consistent.keyed stored,
          eq_refl,
        )
        refl,
    refl,
  ),
)

-- From consistent tables, with any provider: `run_once` raises a database error; or it returns
-- False, when no operation is pending, and has changed nothing; or it returns True, and the oldest
-- pending operation has succeeded in the stage "available", or has failed with an error code.
pub run_once_settles :
    {P : Type 0} (provider : Provider P) (w : World P (Session Db))
    → IsConsistent w.caller.db
    → let (r, w') = run_once provider w in
      FailsInDatabase r
      ⊎ ((r ≡ ok false)
          × (select (λ o. is_pending o.status) w.caller.db.operations ≡ [])
          × (w'.caller.db ≡ w.caller.db)
          × (w'.provider ≡ w.provider))
      ⊎ ((r ≡ ok true)
          × ((o : Operation) × IsOldest o (select (λ p. is_pending p.status) w.caller.db.operations)
              × In o w.caller.db.operations
              × (is_pending o.status ≡ true)
              × Ends o.operation_id w'.caller.db))
unfolding run_once ◌>>=◌ tell process
run_once_settles provider w consistent =
    elim (claim_pending_oldest w.caller consistent.keyed consistent.owned) [
      | inl lost ↦ inl (database none, rw lost refl, refl)
      | inr (inl (none_waits, done, same)) ↦ inr (inl (rw done (refl, none_waits, same, refl)))
      | inr (inr (row, stored, waits, oldest, joined, claimed)) ↦
          rw claimed.0
            (elim (process-Ends provider (pending_operation row)
              (record w { caller = (claim_pending w.caller).1 })
              (claim-IsRunning w.caller row consistent stored claimed.1)) [
                | inl raised ↦ inl raised
                | inr (done, ends) ↦ inr (inr (done, (row.operation, oldest, stored, waits, ends)))
              ])
    ]
