-- ===== src/Operations.antt =====
-- `OperationStore` of src/plane_demo/shared/db.py: each SQL statement as an `execute`, each
-- `with self.connection.transaction()` as a `transaction`.
pub mod Atomicity
pub mod Keys
pub mod Checks
pub mod Told
pub mod Snapshot
pub mod Interrupt
pub mod Lifecycle
pub mod Claim
pub mod Outcome
use Prim.Native.String.{◌++◌ as concat}
use radius_todolist_app.Prelude.{
  ℕ, String, Bool, true, false, not, ◌&&◌, ◌||◌, Option, none, some, List, [], ◌∷◌, leb, str_eq,
  ◌==◌, if◌then◌else◌, length, select, first, find, update_where,
}
use Prim.Native.Char.{code}
use radius_todolist_app.Error.{Error, Result, ok, err, value_error, database}
use radius_todolist_app.Codes.{is_error_code}
use radius_todolist_app.Text.{is_lower, is_digit, is_headed}
use radius_todolist_app.Session.{Exec, pure, raise, execute, transaction, ◌>>=◌, ◌>>◌}
use radius_todolist_app.Tables.{
  Status, pending, running, succeeded, failed, interrupted, Pair, Tenant, Operation, Event, Db,
  is_pending, is_running, status_eq, option_eq, insert_event,
}

pub record PendingOperation : Type 0 where
  pub operation_id : String
  pub tenant_id : String
  pub onboarding_id : String
  pub pair_id : String
  pub isolation : String
  pub initial_message : String

-- A row of the join of tenants and operations.
pub record Row : Type 0 where
  pub tenant : Tenant
  pub operation : Operation

join_tenant : Db → Operation → Option Row
join_tenant d o = elim (find (λ t. str_eq t.tenant_id o.tenant_id) d.tenants) [
  | none ↦ none
  | some t ↦ some (record { tenant = t; operation = o })
]

unfoldable pub locked_row : String → Db → Option Row
unfolding join_tenant
locked_row id d = elim (find (λ o. str_eq o.operation_id id) d.operations) [
  | none ↦ none
  | some o ↦ join_tenant d o
]

abbrev found_or_raise : {A : Type 0} → Option A → Error → Exec Db A
found_or_raise none e = raise e
found_or_raise (some a) e = pure a

-- `OperationStore._locked`
unfoldable pub locked : String → Exec Db Row
unfolding locked_row
locked id = do
  row ← execute (λ d. (ok (locked_row id d), d))
  found_or_raise row (value_error "operation_not_found")

abbrev pub status_text : Status → String
status_text pending = "pending"
status_text running = "running"
status_text succeeded = "succeeded"
status_text failed = "failed"
status_text interrupted = "interrupted"

abbrev pub transition : Status → String
transition status =
    if is_running status then "provisioning_stage" else concat "provisioning_" (status_text status)

abbrev pub set_observed : Status → String → Option String → Operation → Operation
set_observed status stage error_code o = record o {
  status = status;
  stage = stage;
  error_code = error_code;
}

-- The table's CHECK on `stage`: '^[a-z][a-z0-9_-]{0,63}$'
unfoldable pub is_stage : String → Bool
unfolding is_headed
is_stage =
    is_headed is_lower (λ c. is_lower c || is_digit c || code c == b'_' || code c == b'-') 0 63

-- The table's CHECK on `error_code`: '^[a-z][a-z0-9_]{0,63}$', or NULL
unfoldable pub fits_error_code : Option String → Bool
unfolding is_error_code
fits_error_code none = true
fits_error_code (some text) = is_error_code text

-- The row may hold the values; the stage that it holds already has passed the CHECK.
unfoldable pub admits : Operation → String → Option String → Bool
unfolding is_stage fits_error_code
admits o stage error_code = (is_stage stage || str_eq o.stage stage) && fits_error_code error_code

-- psycopg.errors.CheckViolation
abbrev pub check_violation : Error
check_violation = database (some "23514")

-- The UPDATE of the locked row.
unfoldable pub update_operation :
    Operation → Status → String → Option String → Db → Result (Unit {0}) × Db
unfolding admits
update_operation o status stage error_code d =
    if admits o stage error_code
    then (
      ok tt,
      record d {
        operations =
            update_where (λ p. str_eq p.operation_id o.operation_id)
              (set_observed status stage error_code) d.operations;
      },
    )
    else (err check_violation, d)

-- The event that `_observe` inserts; the table numbers it.
abbrev pub observation : Row → Status → String → Option String → Event
observation row status stage error_code = record {
  event_id = 0;
  tenant_id = row.tenant.tenant_id;
  onboarding_id = row.tenant.onboarding_id;
  pair_id = row.tenant.pair_id;
  source = "provisioner";
  type = transition status;
  version = 1;
  error_code = error_code;
  stage = some stage;
}

-- `OperationStore._observe`
unfoldable pub record_observation : Row → Status → String → Option String → Exec Db Unit
unfolding update_operation
record_observation row status stage error_code = do
  execute (update_operation row.operation status stage error_code)
  execute (λ d. (ok tt, insert_event (observation row status stage error_code) d))

insert_by_created : Operation → List Operation → List Operation
insert_by_created o [] = o ∷ []
insert_by_created o (p ∷ ps) =
    if leb o.created_at p.created_at then o ∷ p ∷ ps else p ∷ insert_by_created o ps

-- `ORDER BY created_at`
unfoldable pub order_by_created : List Operation → List Operation
unfolding insert_by_created
order_by_created [] = []
order_by_created (o ∷ os) = insert_by_created o (order_by_created os)

unfoldable pub interrupt_each : List Operation → Exec Db Unit
unfolding locked record_observation
interrupt_each [] = pure tt
interrupt_each (o ∷ os) = do
  row ← locked o.operation_id
  record_observation row interrupted row.operation.stage (some "provisioner_restarted")
  interrupt_each os

-- `OperationStore.interrupt_running`
unfoldable pub interrupt_running : Exec Db ℕ
unfolding interrupt_each order_by_created
interrupt_running = transaction (do
  rows ← execute (λ d. (ok (order_by_created (select (λ o. is_running o.status) d.operations)), d))
  interrupt_each rows
  pure (length rows))

abbrev pub pending_operation : Row → PendingOperation
pending_operation row = record {
  operation_id = row.operation.operation_id;
  tenant_id = row.tenant.tenant_id;
  onboarding_id = row.tenant.onboarding_id;
  pair_id = row.tenant.pair_id;
  isolation = row.tenant.isolation;
  initial_message = row.tenant.initial_message;
}

unfoldable pub claim : Option Operation → Exec Db (Option PendingOperation)
unfolding locked record_observation
claim none = pure none
claim (some o) = do
  row ← locked o.operation_id
  record_observation row running "starting" none
  pure (some (pending_operation row))

-- `WHERE status='pending' ORDER BY created_at LIMIT 1`
abbrev pub oldest_pending : Db → Option Operation
oldest_pending d = first (order_by_created (select (λ o. is_pending o.status) d.operations))

-- `OperationStore.claim_pending`
unfoldable pub claim_pending : Exec Db (Option PendingOperation)
unfolding claim order_by_created
claim_pending = transaction (do
  operation ←
      execute
        (λ d. (ok (first (order_by_created (select (λ o. is_pending o.status) d.operations))), d))
  claim operation)

abbrev is_none : Option String → Bool
is_none none = true
is_none (some _) = false

abbrev bool_eq : Bool → Bool → Bool
bool_eq true b = b
bool_eq false b = not b

-- The row already holds what is observed.
abbrev same_observation : Operation → Status → String → Option String → Bool
same_observation o status stage error_code =
    status_eq o.status status && str_eq o.stage stage && option_eq o.error_code error_code

-- `OperationStore.observe`; a status is one of the table's five.
unfoldable pub observe : String → String → Status → Option String → Exec Db Unit
unfolding locked record_observation
observe id stage status error_code =
    if status_eq status pending || status_eq status succeeded
    then raise (value_error "use complete() to finish infrastructure successfully")
    else if not (bool_eq (is_running status) (is_none error_code))
    then raise (value_error "only failed/interrupted observations require an error code")
    else transaction (do
      row ← locked id
      if same_observation row.operation status stage error_code
          then pure tt
          else if not (is_running row.operation.status)
          then raise (value_error "operation_is_not_running")
          else record_observation row status stage error_code)

abbrev pub set_available : Pair → Pair
set_available p = record p { stage = "available" }

unfoldable pub available_pair : String → Db → Db
available_pair id d = record d {
  pairs = update_where (λ p. str_eq p.pair_id id) set_available d.pairs;
}

-- `OperationStore.complete`
unfoldable pub complete : String → Exec Db Unit
unfolding locked record_observation available_pair
complete id = transaction (do
  row ← locked id
  if not (is_running row.operation.status)
      then raise (value_error "operation_is_not_running")
      else (do
        execute (λ d. (ok tt, available_pair row.tenant.pair_id d))
        record_observation row succeeded "available" none))
