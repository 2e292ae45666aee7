-- ===== src/Admission.antt =====
-- The admission of tenants: `accept_tenant` of sql/management.sql (on demand) and of
-- sql/management-prepared.sql (prepared capacity), and the handler `create_tenant` of
-- src/plane_demo/management/api.py.
-- The advisory lock and the transaction make a call one step on the tables. What the server
-- generates (uuids, the clock) and its collation are arguments.
pub mod Consistency
pub mod Reachable
pub mod Choice
pub mod Replies
use radius_todolist_app.Prelude.{
  ℕ, String, ◌≡◌, Bool, true, false, not, ◌&&◌, ◌||◌, Option, none, some, List, [], ◌∷◌, ◌++◌,
  str_eq, if◌then◌else◌, any, select,
}
use radius_todolist_app.Error.{Error, Result, ok, err, database, http}
use radius_todolist_app.Session.{Session, Exec, execute, transaction}
use radius_todolist_app.Tables.{
  Status, pending, succeeded, Pair, Tenant, Operation, Event, Db, is_active, insert_event,
}

-- TenantRequest of src/plane_demo/shared/models.py, its fields already validated.
pub record TenantRequest : Type 0 where
  pub tenant_id : String
  pub isolation : String
  pub initial_message : String

-- What the server generates for the rows that one call inserts.
pub record Generated : Type 0 where
  pub onboarding_id : String
  pub operation_id : String
  pub created_at : ℕ

module _ (collate : String → String → Bool) where
  -- `ORDER BY pair_id LIMIT 1`
  unfoldable pub least_pair : List Pair → Option Pair
  least_pair [] = none
  least_pair (p ∷ ps) = elim (least_pair ps) [
    | none ↦ some p
    | some q ↦ some (if collate p.pair_id q.pair_id then p else q)
  ]

abbrev pub is_assigned : Db → Pair → Bool
is_assigned d p = any (λ t. str_eq t.pair_id p.pair_id) d.tenants

-- `isolation = p_isolation AND (p_isolation = 'shared' OR NOT EXISTS (...))`
abbrev pub is_free : String → Db → Pair → Bool
is_free isolation d p =
    str_eq p.isolation isolation && (str_eq isolation "shared" || not (is_assigned d p))

abbrev pub is_free_and_available : String → Db → Pair → Bool
is_free_and_available isolation d p = is_free isolation d p && str_eq p.stage "available"

abbrev pub new_tenant : TenantRequest → Generated → Pair → Tenant
new_tenant r g p = record {
  tenant_id = r.tenant_id;
  onboarding_id = g.onboarding_id;
  isolation = r.isolation;
  pair_id = p.pair_id;
  initial_message = r.initial_message;
  desired_revision = 1;
}

abbrev pub new_operation : TenantRequest → Generated → Status → String → Operation
new_operation r g status stage = record {
  operation_id = g.operation_id;
  tenant_id = r.tenant_id;
  status = status;
  stage = stage;
  error_code = none;
  created_at = g.created_at;
}

abbrev pub management_event : TenantRequest → Generated → Pair → String → Option String → Event
management_event r g p type stage = record {
  event_id = 0;
  tenant_id = r.tenant_id;
  onboarding_id = g.onboarding_id;
  pair_id = p.pair_id;
  source = "management";
  type = type;
  version = 1;
  error_code = none;
  stage = stage;
}

abbrev pub insert_tenant : TenantRequest → Generated → Pair → Status → String → Db → Db
insert_tenant r g p status stage d = record d {
  tenants = d.tenants ++ new_tenant r g p ∷ [];
  operations = d.operations ++ new_operation r g status stage ∷ [];
}

module _ (collate : String → String → Bool) (r : TenantRequest) (g : Generated) where
  assign : Option Pair → Db → Result String × Db
  assign none d = (err (database (some "PT507")), d)
  assign (some p) d = (
    ok g.operation_id,
    insert_event (management_event r g p "tenant_requested" none)
        (insert_tenant r g p pending "accepted" d),
  )

  -- `management.accept_tenant`, sql/management.sql
  unfoldable pub accept_tenant : Db → Result String × Db
  unfolding assign
  accept_tenant d =
      if any (λ t. str_eq t.tenant_id r.tenant_id) d.tenants
      then (err (database (some "PT409")), d)
      else if any (λ o. is_active o.status) d.operations
      then (err (database (some "PT503")), d)
      else assign (least_pair collate (select (is_free r.isolation d) d.pairs)) d

  assign_prepared : Option Pair → Db → Result String × Db
  assign_prepared none d = (err (database (some "PT507")), d)
  assign_prepared (some p) d = (
    ok g.operation_id,
    insert_event (management_event r g p "provisioning_succeeded" (some "available")) (
        insert_event (management_event r g p "tenant_requested" none)
          (insert_tenant r g p succeeded "available" d)),
  )

  -- `management.accept_tenant`, sql/management-prepared.sql
  unfoldable pub accept_prepared : Db → Result String × Db
  unfolding assign_prepared
  accept_prepared d =
      if any (λ t. str_eq t.tenant_id r.tenant_id) d.tenants
      then (err (database (some "PT409")), d)
      else assign_prepared
          (least_pair collate (select (is_free_and_available r.isolation d) d.pairs)) d

-- The answers of POST /tenants; `accepted` has status 202 and `duplicate` 409.
pub data Reply : Type 0 where
  accepted : String → String → Reply
  duplicate : String → Reply

-- The `except psycopg.Error` clause and the return of `create_tenant`.
unfoldable pub reply : TenantRequest → Result String → Result Reply
reply r (ok operation_id) = ok (accepted r.tenant_id operation_id)
reply r (err (database (some state))) =
    if str_eq state "PT409"
    then ok (duplicate r.tenant_id)
    else if str_eq state "PT503"
    then err (http 503 "provisioner_busy")
    else if str_eq state "PT507"
    then err (http 503 "allocation_unavailable")
    else err (database (some state))
reply r (err e) = err e

-- `create_tenant`; `accept` is the function that the database has under that name.
unfoldable pub create_tenant :
    (Db → Result String × Db) → TenantRequest → Session Db → Result Reply × Session Db
create_tenant accept r s =
    let (outcome, s') = transaction (execute accept) s in (reply r outcome, s')
