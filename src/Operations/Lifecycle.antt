-- ===== src/Operations/Lifecycle.antt =====
-- The states of an operation: how a method of `OperationStore` may move a row.
use radius_todolist_app.Prelude.{
  String, ◌≡◌, ◌≢◌, refl, ◌⊎◌, inl, inr, Bool, true, false, Option, none, some, List, [], ◌∷◌,
  arith, str_eq, eq_iff, if◌then◌else◌, Option-cases, first, find, update_where, All, In, In-select,
}
use radius_todolist_app.Session.{Session, quiet, transaction, execute, ◌>>=◌}
use radius_todolist_app.Session.Steady.{run}
use radius_todolist_app.Tables.{
  Status, pending, running, succeeded, failed, interrupted, Operation, Db, is_pending, is_running,
}
use radius_todolist_app.Operations.{
  Row, set_observed, locked_row, interrupt_running, claim, claim_pending, oldest_pending, observe,
  complete,
}
use radius_todolist_app.Operations.Atomicity.{methods-Atomic}
use radius_todolist_app.Operations.Snapshot.{stop}
use radius_todolist_app.Operations.Interrupt.{interrupt_running_quiet}
use radius_todolist_app.Operations.Keys.{
  has_id, Keyed, IsOwned, locked_row_found, find-In, find-update_where, find-update_any,
  In-order_by_created,
}

-- The arrows of the state machine, staying in place among them.
abbrev pub advances : Status → Status → Bool
advances pending pending = true
advances pending running = true
advances running pending = false
advances running _ = true
advances succeeded succeeded = true
advances failed failed = true
advances interrupted interrupted = true
advances _ _ = false

-- Every operation is still there, for the same tenant, and moved along an arrow at most.
abbrev pub Evolves : List Operation → List Operation → Type 0
Evolves os os' =
    (id : String) (o : Operation)
    → find (has_id id) os ≡ some o
    → (o' : Operation) × (find (has_id id) os' ≡ some o')
      × (o'.tenant_id ≡ o.tenant_id)
      × (o'.created_at ≡ o.created_at)
      × (advances o.status o'.status ≡ true)

advances_refl : (s : Status) → advances s s ≡ true
advances_refl s = ground arith

Evolves-refl : (os : List Operation) → Evolves os os
Evolves-refl os id o h = (o, h, refl, refl, advances_refl o.status)

Evolves-update :
    (i : String) (status : Status) (stage : String) (error_code : Option String)
    (os : List Operation) {p : Operation}
    → find (has_id i) os ≡ some p
    → advances p.status status ≡ true
    → Evolves os (update_where (has_id i) (set_observed status stage error_code) os)
Evolves-update i status stage error_code os {p} found adv id o h = (
  if str_eq i id then set_observed status stage error_code o else o,
  rw (find-update_where (set_observed status stage error_code) (λ q. refl) i id os) (rw h),
  ground arith,
  ground arith,
  ground (arith, eq_iff i id, advances_refl o.status),
)

Evolves-stop : (os : List Operation) → Evolves os (update_where (λ o. is_running o.status) stop os)
Evolves-stop os id o h = (
  if is_running o.status then stop o else o,
  rw (find-update_any (λ p. is_running p.status) stop (λ p. refl) id os) (rw h),
  ground arith,
  ground arith,
  ground (arith, advances_refl o.status),
)

-- What an undisturbed `observe` does to the rows.
observe_rows :
    (id stage : String) (status : Status) (error_code : Option String) (d : Db)
    → ((run (observe id stage status error_code) d).1.operations ≡ d.operations)
      ⊎ ((row : Row) × (locked_row id d ≡ some row)
          × (is_running row.operation.status ≡ true)
          × (status ≢ pending)
          × ((run (observe id stage status error_code) d).1.operations
              ≡ update_where
                  (has_id row.operation.operation_id)
                  (set_observed status stage error_code)
                  d.operations))
unfolding observe transaction execute ◌>>=◌
observe_rows id stage status error_code d = elim (Option-cases (locked_row id d)) [
  | inl e ↦ inl (ground arith)
  | inr (row, e) ↦ ground arith
]

complete_rows :
    (id : String) (d : Db)
    → ((run (complete id) d).1.operations ≡ d.operations)
      ⊎ ((row : Row) × (locked_row id d ≡ some row)
          × (is_running row.operation.status ≡ true)
          × ((run (complete id) d).1.operations
              ≡ update_where
                  (has_id row.operation.operation_id)
                  (set_observed succeeded "available" none)
                  d.operations))
unfolding complete transaction execute ◌>>=◌
complete_rows id d = elim (Option-cases (locked_row id d)) [
  | inl e ↦ inl (ground arith)
  | inr (row, e) ↦ ground arith
]

claim_rows :
    (d : Db)
    → ((run claim_pending d).1.operations ≡ d.operations)
      ⊎ ((o : Operation) × (row : Row) × (oldest_pending d ≡ some o)
          × (locked_row o.operation_id d ≡ some row)
          × ((run claim_pending d).1.operations
              ≡ update_where
                  (has_id row.operation.operation_id)
                  (set_observed running "starting" none)
                  d.operations))
unfolding claim_pending claim transaction execute ◌>>=◌
claim_rows d = elim (Option-cases (oldest_pending d)) [
  | inl e ↦ inl (rw e)
  | inr (o, e) ↦ elim (Option-cases (locked_row o.operation_id d)) [
    | inl f ↦ inl (ground arith)
    | inr (row, f) ↦ inr (o, row, e, f, ground arith)
  ]
]

first-In : {A : Type 0} (xs : List A) {x : A} → first xs ≡ some x → In x xs
first-In [] h = cc
first-In (y ∷ xs) h = inl (ground arith)

oldest_pending-In :
    (d : Db) {o : Operation}
    → oldest_pending d ≡ some o
    → In o d.operations × (is_pending o.status ≡ true)
oldest_pending-In d {o} h =
    In-select (λ p. is_pending p.status) o d.operations ((In-order_by_created o _).0 (first-In _ h))

-- The calls that a provisioner makes on its store.
pub data Call : Type 0 where
  interrupt claim_next : Call
  observes : String → String → Status → Option String → Call
  completes : String → Call

unfoldable pub perform : Call → Session Db → Session Db
perform interrupt s = (interrupt_running s).1
perform claim_next s = (claim_pending s).1
perform (observes id stage status error_code) s = (observe id stage status error_code s).1
perform (completes id) s = (complete id s).1

pub perform-all_or_nothing :
    (c : Call) (s : Session Db)
    → ((perform c s).db ≡ s.db) ⊎ ((perform c s).db ≡ (perform c (quiet s.db)).db)
unfolding perform
perform-all_or_nothing interrupt s = methods-Atomic.0.all_or_nothing s
perform-all_or_nothing claim_next s = methods-Atomic.1.all_or_nothing s
perform-all_or_nothing (observes id stage status error_code) s =
    (methods-Atomic.2 id stage status error_code).all_or_nothing s
perform-all_or_nothing (completes id) s = (methods-Atomic.3 id).all_or_nothing s

perform-Evolves :
    (c : Call) (d : Db)
    → Keyed d.operations
    → All (IsOwned d.tenants) d.operations
    → Evolves d.operations (perform c (quiet d)).db.operations
unfolding perform
perform-Evolves interrupt d k owned =
    rw (interrupt_running_quiet d k owned).1 (Evolves-stop d.operations)
perform-Evolves claim_next d k owned = elim (claim_rows d) [
  | inl same ↦ rw same (Evolves-refl d.operations)
  | inr (o, row, oldest, joined, rows) ↦
      let (found, key) = locked_row_found o.operation_id d joined in
      let (m, waits) = oldest_pending-In d oldest in
      rw (rows, key)
        (Evolves-update o.operation_id running "starting" none d.operations found
          (ground (arith, find-In o d.operations k m)))
]
perform-Evolves (observes id stage status error_code) d k owned =
    elim (observe_rows id stage status error_code d) [
      | inl same ↦ rw same (Evolves-refl d.operations)
      | inr (row, joined, runs, not_pending, rows) ↦
          let (found, key) = locked_row_found id d joined in
          rw (rows, key)
            (Evolves-update id status stage error_code d.operations found
              (ground (arith, advances_refl status)))
    ]
perform-Evolves (completes id) d k owned = elim (complete_rows id d) [
  | inl same ↦ rw same (Evolves-refl d.operations)
  | inr (row, joined, runs, rows) ↦
      let (found, key) = locked_row_found id d joined in
      rw (rows, key)
        (Evolves-update id succeeded "available" none d.operations found (ground arith))
]

-- On any connection, from tables whose keys are in order, a call of any of the four methods keeps
-- every operation, its tenant and its creation time, and moves its status along an arrow of the
-- state machine at most: pending to running, running to succeeded, failed or interrupted.
pub perform_lifecycle :
    (c : Call) (s : Session Db)
    → Keyed s.db.operations
    → All (IsOwned s.db.tenants) s.db.operations
    → Evolves s.db.operations (perform c s).db.operations
perform_lifecycle c s k owned = elim (perform-all_or_nothing c s) [
  | inl same ↦ rw same (Evolves-refl s.db.operations)
  | inr same ↦ rw same (perform-Evolves c s.db k owned)
]
