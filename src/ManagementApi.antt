-- ===== src/ManagementApi.antt =====
-- The GET handlers of src/plane_demo/management/api.py. A handler reads one snapshot of the tables;
-- the times in its answer, and the links, are left out. POST /tenants is in Admission.
pub mod Ready
use radius_todolist_app.Prelude.{
  ℕ, String, Bool, true, false, ◌&&◌, Option, none, some, List, [], ◌∷◌, str_eq, ltb, if◌then◌else◌,
  select, find,
}
use radius_todolist_app.Error.{Error, Result, ok, err, http}
use radius_todolist_app.Tables.{Status, Tenant, Operation, Event, Db}
use radius_todolist_app.Paging.{timeline}

-- The answer of GET /tenants/{tenant_id}.
pub record TenantStatus : Type 0 where
  pub tenant_id : String
  pub onboarding_id : String
  pub isolation : String
  pub pair_id : String
  pub operation_id : String
  pub provisioning_status : Status
  pub provisioning_stage : String
  pub error_code : Option String
  pub onboarding_status : String
  pub control_record_status : String
  pub observed_revision : Option ℕ
  pub timeline : List Event
  pub next_after_event_id : Option ℕ

-- `ORDER BY event_id DESC LIMIT 1`
unfoldable pub newest : List Event → Option Event
newest [] = none
newest (e ∷ es) = elim (newest es) [
  | none ↦ some e
  | some f ↦ some (if ltb e.event_id f.event_id then f else e)
]

abbrev pub reports_created : Event → Bool
reports_created e = str_eq e.type "control_record_created"

-- The reports of the control plane on a tenant's onboarding.
abbrev pub is_report_on : String → String → Event → Bool
is_report_on tenant_id onboarding_id e =
    str_eq e.tenant_id tenant_id
    && str_eq e.onboarding_id onboarding_id
    && str_eq e.source "control"

-- `ORDER BY (type='control_record_created') DESC, event_id DESC LIMIT 1`
unfoldable pub latest_report : String → String → List Event → Option Event
unfolding newest
latest_report tenant_id onboarding_id es =
    let reports = select (is_report_on tenant_id onboarding_id) es in
    elim (newest (select reports_created reports)) [ some e ↦ some e | none ↦ newest reports ]

abbrev pub created : Option Event → Bool
created none = false
created (some e) = reports_created e

abbrev pub control_record_status : Option Event → String
control_record_status none = "pending"
control_record_status (some e) = if reports_created e then "created" else "failed"

abbrev pub version_of : Option Event → Option ℕ
version_of none = none
version_of (some e) = some e.version

answer : Tenant → Operation → Option Event → Result (List Event × Option ℕ) → Result TenantStatus
answer t o report (err e) = err e
answer t o report (ok (events, next)) = ok (record {
  tenant_id = t.tenant_id;
  onboarding_id = t.onboarding_id;
  isolation = t.isolation;
  pair_id = t.pair_id;
  operation_id = o.operation_id;
  provisioning_status = o.status;
  provisioning_stage = o.stage;
  error_code = o.error_code;
  onboarding_status = if created report then "ready" else "pending";
  control_record_status = control_record_status report;
  observed_revision = version_of report;
  timeline = events;
  next_after_event_id = next;
})

status_of : Db → ℕ → ℕ → Tenant → Option Operation → Result TenantStatus
unfolding answer latest_report
status_of d after limit t none = err (http 404 "tenant_not_found")
status_of d after limit t (some o) =
    answer t o (latest_report t.tenant_id t.onboarding_id d.events) (
      timeline (λ e. e.event_id) (select (λ e. str_eq e.tenant_id t.tenant_id) d.events) after
        limit)

-- `tenant_status`
unfoldable pub tenant_status : String → ℕ → ℕ → Db → Result TenantStatus
unfolding status_of
tenant_status tenant_id after limit d = elim (find (λ t. str_eq t.tenant_id tenant_id) d.tenants) [
  | none ↦ err (http 404 "tenant_not_found")
  | some t ↦ status_of d after limit t (find (λ o. str_eq o.tenant_id t.tenant_id) d.operations)
]

-- `operation_status`; `uuid_of` is the constructor of `uuid.UUID`, on texts.
unfoldable pub operation_status : (String → Option String) → String → Db → Result Operation
operation_status uuid_of text d = elim (uuid_of text) [
  | none ↦ err (http 422 "invalid_operation_id")
  | some id ↦ elim (find (λ o. str_eq o.operation_id id) d.operations) [
    | none ↦ err (http 404 "operation_not_found")
    | some o ↦ ok o
  ]
]
