-- ===== src/Provisioner/Replay.antt =====
-- What a run of the coordinator keeps: consistent tables, and operations that are over.
use radius_todolist_app.Prelude.{
  ℕ, zero, suc, String, ◌≡◌, refl, ◌∙◌, count, ◌⊎◌, inl, inr, Bool, true, Option, none, some, arith,
  find, update_where,
}
use radius_todolist_app.Error.{Result, ok, err}
use radius_todolist_app.Session
use radius_todolist_app.Session.{Session, execute, connection_failed}
use radius_todolist_app.Session.Steady.{execute_reads, run}
use radius_todolist_app.Tables.{
  Status, is_running, running, failed, interrupted, Operation, Pair, Db,
}
use radius_todolist_app.Operations.{
  PendingOperation, interrupt_running, claim_pending, observe, complete,
}
use radius_todolist_app.Operations.Keys.{has_id, find-update_any}
use radius_todolist_app.Operations.Snapshot.{stop}
use radius_todolist_app.Operations.Interrupt.{interrupt_running-Stops, interrupt_running_quiet}
use radius_todolist_app.Operations.Atomicity.{methods-Atomic}
use radius_todolist_app.Operations.Lifecycle.{
  Call, interrupt, claim_next, observes, completes, perform, perform_lifecycle,
}
use radius_todolist_app.Admission.Consistency.{IsConsistent}
use radius_todolist_app.Admission.Consistency.Calls.{perform-IsConsistent}
use radius_todolist_app.Provisioning.{PairResult, Provider}
use radius_todolist_app.Provisioning.Effects.{World, tell, ◌>>=◌}
use radius_todolist_app.Provisioning.Keeps.{
  Keeps, Keeps-bind, Keeps-pure, Keeps-tell, Keeps-if, Keeps-raise, Keeps-ask,
}
use radius_todolist_app.Provisioning.Safety.{provision_pair-Keeps}
use radius_todolist_app.Provisioner.{
  check_session, found_pair, read_pair, after_interrupt, Progress, on_session, observe_stage,
  code_of, attempt, settle, process, run_once, Service, rounds, run_loop,
}

check_session_reads : (s : Session Db) → (check_session s).1.db ≡ s.db
unfolding check_session
check_session_reads s = execute_reads _ s (λ d. refl)

found_pair_reads :
    (r : Result (Option Pair)) (s : Session Db) → (Session.continue r found_pair s).1.db ≡ s.db
unfolding found_pair
found_pair_reads (ok none) s = refl
found_pair_reads (ok (some p)) s = refl
found_pair_reads (err e) s = refl

pub read_pair_reads : (pair_id : String) (s : Session Db) → (read_pair pair_id s).1.db ≡ s.db
unfolding read_pair Session.◌>>=◌
read_pair_reads pair_id s = found_pair_reads _ _ ∙ execute_reads _ s (λ d. refl)

-- A predicate on the tables that every call of the store keeps.
module _ (K : Db → Type 0) (kept : (c : Call) (s : Session Db) → K s.db → K (perform c s).db) where
  observe-kept :
      (id stage : String) (status : Status) (error_code : Option String) (s : Session Db)
      → K s.db
      → K (observe id stage status error_code s).1.db
  observe-kept id stage status error_code s h =
      unfold perform in kept (observes id stage status error_code) s h

  claim-kept : (s : Session Db) → K s.db → K (claim_pending s).1.db
  claim-kept s h = unfold perform in kept claim_next s h

  interrupt-kept : (s : Session Db) → K s.db → K (interrupt_running s).1.db
  interrupt-kept s h = unfold perform in kept interrupt s h

  check_session-kept : (s : Session Db) → K s.db → K (check_session s).1.db
  check_session-kept s h = rw (check_session_reads s) h

  complete-kept : (id : String) (s : Session Db) → K s.db → K (complete id s).1.db
  complete-kept id s h = unfold perform in kept (completes id) s h

module _ {P : Type 0} (provider : Provider P) (K : Db → Type 0)
    (kept : (c : Call) (s : Session Db) → K s.db → K (perform c s).db) where
  attempt-Keeps :
      (operation : PendingOperation) → Keeps (λ p. K p.session.db) (attempt provider operation)
  unfolding attempt on_session observe_stage
  attempt-Keeps operation =
      Keeps-bind _ _ _ (Keeps-tell _ _ (λ p h. rw (read_pair_reads operation.pair_id p.session) h))
        (λ pair.
          provision_pair-Keeps provider _ _
            (λ stage p h. observe-kept K kept operation.operation_id stage running none p.session h)
            operation pair)

  settle-Keeps :
      (operation : PendingOperation) (outcome : Result PairResult)
      → Keeps (λ p. K p.session.db) (settle provider operation outcome)
  unfolding settle on_session
  settle-Keeps operation (ok _) =
      Keeps-bind _ _ _
        (Keeps-tell _ _ (λ p h. complete-kept K kept operation.operation_id p.session h))
        (λ _. Keeps-pure _ true)
  settle-Keeps operation (err error) = Keeps-if _ _ _ _ (Keeps-raise _ error) (
      Keeps-bind _ _ _ (Keeps-tell _ _ (λ p h. h)) λ stage.
        Keeps-bind _ _ _
          (Keeps-tell _ _ (λ p h.
            observe-kept K kept operation.operation_id stage failed (some (code_of error)) p.session
              h))
          (λ _. Keeps-pure _ true))

  process-Keeps :
      (operation : Option PendingOperation) → Keeps (λ s. K s.db) (process provider operation)
  unfolding process
  process-Keeps none = record { at = λ w h. h }
  process-Keeps (some operation) = record {
    at = λ w h.
        let start : World P Progress = record {
          provider = w.provider;
          caller = record { session = w.caller; stage = "starting" };
        } in
        let (outcome, w') = attempt provider operation start in
        (settle-Keeps operation outcome).at w' ((attempt-Keeps operation).at start h);
  }

  run_once-Keeps : Keeps (λ s. K s.db) (run_once provider)
  unfolding run_once
  run_once-Keeps = Keeps-bind _ _ _ (Keeps-tell _ _ (claim-kept K kept)) process-Keeps

module _ {P : Type 0} (service : Service P) (K : Db → Type 0)
    (kept : (c : Call) (s : Session Db) → K s.db → K (perform c s).db) where
  rounds-Keeps : (n : ℕ) → Keeps (λ s. K s.db) (rounds service n)
  unfolding rounds
  rounds-Keeps zero = Keeps-pure _ tt
  rounds-Keeps (suc n) =
      Keeps-bind _ _ _ (Keeps-tell _ _ (check_session-kept K kept))
        λ _. Keeps-bind _ _ _ (run_once-Keeps service.provider K kept) λ _. rounds-Keeps n

  -- The part of `run_loop` after the interruption.
  after_interrupt-Keeps :
      (prepare : Bool) (n : ℕ) → Keeps (λ s. K s.db) (after_interrupt service prepare n)
  unfolding after_interrupt
  after_interrupt-Keeps prepare n =
      Keeps-bind _ _ _
        (Keeps-if _ prepare _ _
          (Keeps-bind _ _ _ (Keeps-ask _ _)
            λ _. Keeps-bind _ _ _ (Keeps-ask _ _) λ _. Keeps-ask _ _)
          (Keeps-pure _ tt))
        (λ _. rounds-Keeps n)

  run_loop-Keeps : (prepare : Bool) (n : ℕ) → Keeps (λ s. K s.db) (run_loop service prepare n)
  unfolding run_loop
  run_loop-Keeps prepare n =
      Keeps-bind _ _ _ (Keeps-tell _ _ (interrupt-kept K kept)) λ _. after_interrupt-Keeps prepare n

-- The operation is interrupted.
abbrev pub IsInterrupted : String → Db → Type 0
IsInterrupted id d =
    (o : Operation) × (find (has_id id) d.operations ≡ some o) × (o.status ≡ interrupted)

stays-IsInterrupted :
    (id : String) (c : Call) (s : Session Db)
    → IsConsistent s.db × IsInterrupted id s.db
    → IsConsistent (perform c s).db × IsInterrupted id (perform c s).db
stays-IsInterrupted id c s (consistent, (o, found, over)) =
    let (o', found', _, _, moved) =
      perform_lifecycle c s consistent.keyed consistent.owned id o found in
    (perform-IsConsistent c s consistent, (o', found', ground arith))

-- A running operation is interrupted once the running rows are stopped.
stopped-IsInterrupted :
    (id : String) (d d' : Db) {o : Operation}
    → find (has_id id) d.operations ≡ some o
    → is_running o.status ≡ true
    → d'.operations ≡ update_where (λ p. is_running p.status) stop d.operations
    → IsInterrupted id d'
stopped-IsInterrupted id d d' {o} found runs rows = (
  stop o,
  rw
      (
        rows,
        find-update_any (λ p. is_running p.status) stop (λ p. refl) id d.operations,
        found,
        runs,
      )
      refl,
  refl,
)

-- What `interrupt_running` leaves of a running operation.
interrupt_running_found :
    (id : String) (s : Session Db) {o : Operation}
    → IsConsistent s.db
    → find (has_id id) s.db.operations ≡ some o
    → is_running o.status ≡ true
    → let (r, s') = interrupt_running s in
      ((r ≡ connection_failed) × ((s'.db ≡ s.db) ⊎ IsInterrupted id s'.db))
      ⊎ ((r ≡ ok (count (λ p. is_running p.status) s.db.operations)) × IsInterrupted id s'.db)
interrupt_running_found id s {o} consistent found runs =
    elim (interrupt_running-Stops s consistent.keyed consistent.owned) [
      | inl lost ↦ elim (methods-Atomic.0.all_or_nothing s) [
        | inl same ↦ inl (lost, inl same)
        | inr quiet_tables ↦ inl (
          lost,
          inr (
              rw quiet_tables (
                stopped-IsInterrupted id s.db (run interrupt_running s.db).1 found runs
                  (interrupt_running_quiet s.db consistent.keyed consistent.owned).1)),
        )
      ]
      | inr (done, rows, _, _, _, _) ↦
          inr (done, stopped-IsInterrupted id s.db (interrupt_running s).1.db found runs rows)
    ]

module _ {P : Type 0} (service : Service P) where
  -- Whatever the provider and the connection do, a run of the coordinator of any number of rounds
  -- leaves consistent tables consistent.
  pub run_loop-IsConsistent :
      (prepare : Bool) (n : ℕ) (w : World P (Session Db))
      → IsConsistent w.caller.db
      → IsConsistent (run_loop service prepare n w).1.caller.db
  run_loop-IsConsistent prepare n w h =
      (run_loop-Keeps service IsConsistent perform-IsConsistent prepare n).at w h

  -- From consistent tables, an operation that an earlier coordinator left running is never
  -- replayed: after any number of rounds it is interrupted; or the run has ended before the first
  -- round in the error of a failed connection, with the tables as they were and nothing asked of the
  -- provider.
  pub run_loop_never_replays :
      (prepare : Bool) (n : ℕ) (w : World P (Session Db)) (id : String) (o : Operation)
      → IsConsistent w.caller.db
      → find (has_id id) w.caller.db.operations ≡ some o
      → is_running o.status ≡ true
      → let (r, w') = run_loop service prepare n w in
        ((r ≡ connection_failed) × (w'.caller.db ≡ w.caller.db) × (w'.provider ≡ w.provider))
        ⊎ IsInterrupted id w'.caller.db
  unfolding run_loop ◌>>=◌ tell perform
  run_loop_never_replays prepare n w id o consistent found runs =
      elim (interrupt_running_found id w.caller consistent found runs) [
        | inl (lost, inl same) ↦ inl (rw lost refl, rw lost same, rw lost refl)
        | inl (lost, inr over) ↦ inr (rw lost over)
        | inr (done, over) ↦ inr (
            rw done
              ((after_interrupt-Keeps service _ (stays-IsInterrupted id) prepare n).at
                (record w { caller = (interrupt_running w.caller).1 })
                (perform-IsConsistent interrupt w.caller consistent, over)).1)
      ]
