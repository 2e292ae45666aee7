-- ===== src/Tests/Planes.antt =====
-- The management API, the control API and the control reconciler on small tables.
use radius_todolist_app.Prelude.{suc, true, none, some, [], ◌∷◌, ◌≡◌, refl, arith}
use radius_todolist_app.Error.{Result, ok, err}
use radius_todolist_app.Session.{Session, delivered, lost, transaction, execute}
use radius_todolist_app.Tables.{Db, succeeded}
use radius_todolist_app.Reports.{Report, report_control}
use radius_todolist_app.ControlTables.{ControlDb, update_configuration}
use radius_todolist_app.ControlReconciler.{Settings, Planes, run_once}
use radius_todolist_app.ControlReconciler.Truth.{IsTruthful, run_once-IsTruthful}
use radius_todolist_app.Paging.{timeline}
use radius_todolist_app.Paging.Walk.{walk, after_id, walk_complete}
use radius_todolist_app.ManagementApi.{TenantStatus, tenant_status}
use radius_todolist_app.ControlApi.{Updated, put_configuration}
use radius_todolist_app.ControlApi.Update.{Replaces, put_configuration_ok}
use radius_todolist_app.Tests.Examples.{tables, shared_pair}

walk_complete_example :
    walk (λ n. n) (2 ∷ 3 ∷ 5 ∷ 8 ∷ []) 2 (suc 4) 2 ≡ ok (after_id (λ n. n) 2 (2 ∷ 3 ∷ 5 ∷ 8 ∷ []))
walk_complete_example =
    walk_complete (λ n. n) (2 ∷ 3 ∷ 5 ∷ 8 ∷ []) 2 2
      (
        (omega arith, (omega arith, (omega arith, tt))),
        ((omega arith, (omega arith, tt)), ((omega arith, tt), (tt, tt))),
      )
      (omega arith)

-- The shared pair is ready, and the tenant's operation has succeeded.
abbrev prepared : Db
prepared = record (tables succeeded) { pairs = record shared_pair { stage = "available" } ∷ [] }

abbrev empty : ControlDb
empty = record { configs = []; events = []; next_event_id = 1 }

abbrev settings : Settings
settings = record {
  pair_id = "shared";
  management_login = some "shared";
  control_login = some "shared";
  collate = λ a b. true;
}

abbrev planes : Planes
planes = record {
  management = record { db = prepared; fates = delivered ∷ delivered ∷ delivered ∷ lost ∷ [] };
  control = record { db = empty; fates = [] };
}

run_once-IsTruthful_example : IsTruthful (run_once settings planes).1
run_once-IsTruthful_example = run_once-IsTruthful settings planes tt

abbrev created_report : Report
created_report = record {
  tenant_id = "acme";
  onboarding_id = "b-1";
  version = 1;
  type = "control_record_created";
  error_code = none;
}

abbrev failed_report : Report
failed_report = record created_report {
  type = "control_record_failed";
  error_code = some "control_write_failed";
}

abbrev reported : Db
reported = (report_control (some "shared") created_report prepared).1

-- An answer, or one that is never given.
abbrev value : TenantStatus → Result TenantStatus → TenantStatus
value st (ok s) = s
value st (err e) = st

abbrev no_status : TenantStatus
no_status = record {
  tenant_id = "";
  onboarding_id = "";
  isolation = "";
  pair_id = "";
  operation_id = "";
  provisioning_status = succeeded;
  provisioning_stage = "";
  error_code = none;
  onboarding_status = "";
  control_record_status = "";
  observed_revision = none;
  timeline = [];
  next_after_event_id = none;
}

abbrev before : TenantStatus
before = value no_status (tenant_status "acme" 0 100 reported)

abbrev after : TenantStatus
after =
    value no_status
      (tenant_status "acme" 1 5 (report_control (some "shared") failed_report reported).1)

abbrev configured : Session ControlDb
configured = record {
  db = record empty {
    configs =
        record {
          tenant_id = "acme";
          onboarding_id = "b-1";
          pair_id = "shared";
          message = "hello";
          version = 4;
        }
        ∷ [];
  };
  fates = delivered ∷ [];
}

abbrev updated : Updated
updated = record { tenant_id = "acme"; message = "bye"; version = 5 }

put_configuration_ok_example :
    (updated.tenant_id ≡ "acme")
    × (updated.message ≡ "bye")
    × Replaces
        (some "shared")
        "acme"
        "bye"
        configured.db
        (put_configuration (some "shared") "acme" "bye" configured).1.db
        updated.version
unfolding put_configuration transaction execute update_configuration
put_configuration_ok_example =
    put_configuration_ok (some "shared") "acme" "bye" configured updated refl
