-- ===== src/DataReconciler.antt =====
-- `report` and `run_once` of src/plane_demo/data/reconciler.py, over a session of the control
-- database and a cluster. What the database raises is a `psycopg.Error`; a row that the model
-- `AppliedConfiguration` does not accept ends the run with its error. Logging is left out.
pub mod Applied
use radius_todolist_app.Prelude.{
  ℕ, ◌+◌, String, Bool, true, false, not, Option, none, some, List, [], ◌∷◌, str_eq, ltb,
  if◌then◌else◌, select,
}
use radius_todolist_app.Error.{
  Error, Result, ok, err, api, transport, value_error, configuration_missing, configuration_invalid,
}
use radius_todolist_app.Session.{Session, execute, transaction}
use radius_todolist_app.Reports.{Report}
use radius_todolist_app.ControlTables.{Config, ControlDb, report_data}
use radius_todolist_app.ControlReconciler.{ReconcileResult, tally}
use radius_todolist_app.ConfigMaps.{AppliedConfiguration, applied_eq, Api, Place, validate, apply}

-- The cluster and the control database.
pub record DataPlane (C : Type 0) : Type 0 where
  pub cluster : C
  pub control : Session ControlDb

-- `except (ApiException, HTTPError, ConfigurationInvalid, ConfigurationMissing, OSError)`
unfoldable pub is_write_error : Error → Bool
is_write_error (api status) = true
is_write_error transport = true
is_write_error configuration_missing = true
is_write_error configuration_invalid = true
is_write_error _ = false

insert_by_tenant : (String → String → Bool) → Config → List Config → List Config
insert_by_tenant collate c [] = c ∷ []
insert_by_tenant collate c (d ∷ ds) =
    let rest = insert_by_tenant collate c ds in
    if collate c.tenant_id d.tenant_id then c ∷ d ∷ ds else d ∷ rest

order_configs : (String → String → Bool) → List Config → List Config
unfolding insert_by_tenant
order_configs collate [] = []
order_configs collate (c ∷ cs) = insert_by_tenant collate c (order_configs collate cs)

abbrev pub data_report : AppliedConfiguration → Bool → Report
data_report a success = record {
  tenant_id = a.tenant_id;
  onboarding_id = a.onboarding_id;
  version = a.version;
  type = if success then "config_applied" else "config_apply_failed";
  error_code = if success then none else some "config_write_failed";
}

module _ (uuid_of : String → Option String) (collate : String → String → Bool)
    (login : Option String) (place : Place) where
  -- The rows of `settings.pair_id`, `ORDER BY tenant_id`.
  unfoldable pub poll_configs : ControlDb → Result (List Config) × ControlDb
  unfolding order_configs
  poll_configs d =
      (ok (order_configs collate (select (λ c. str_eq c.pair_id place.pair_id) d.configs)), d)

  -- `report`
  unfoldable pub report_applied :
      AppliedConfiguration → Bool → Session ControlDb → Result ℕ × Session ControlDb
  report_applied a success = transaction (execute (report_data login (data_report a success)))

  module _ {C : Type 0} (kube : Api C) where
    fail :
        AppliedConfiguration → ReconcileResult → DataPlane C → Result ReconcileResult × DataPlane C
    unfolding report_applied
    fail desired result w =
        let (sent, s) = report_applied desired false w.control in
        (ok (record result { failed = result.failed + 1 }), record w { control = s })

    succeed :
        AppliedConfiguration → ReconcileResult → DataPlane C → Result ReconcileResult × DataPlane C
    unfolding report_applied tally
    succeed applied result w =
        let (sent, s) = report_applied applied true w.control in
        (ok (tally sent result), record w { control = s })

    -- The loop's body once `maps.apply` has answered.
    unfoldable pub after_apply :
        AppliedConfiguration
        → Result AppliedConfiguration
        → ReconcileResult
        → DataPlane C
        → Result ReconcileResult × DataPlane C
    unfolding fail succeed is_write_error
    after_apply desired (ok applied) result w =
        if ltb desired.version applied.version
        then (ok result, w)
        else if not (applied_eq applied desired)
        then fail desired result w
        else succeed applied result w
    after_apply desired (err e) result w =
        if is_write_error e then fail desired result w else (err e, w)

    unfoldable pub apply_valid :
        Result AppliedConfiguration
        → ReconcileResult
        → DataPlane C
        → Result ReconcileResult × DataPlane C
    unfolding after_apply
    apply_valid (err e) result w = (err (value_error "AppliedConfiguration"), w)
    apply_valid (ok desired) result w =
        let (answer, c) = apply uuid_of place kube desired w.cluster in
        after_apply desired answer result (record w { cluster = c })

    -- The loop's body.
    unfoldable pub reconcile_config :
        Config → ReconcileResult → DataPlane C → Result ReconcileResult × DataPlane C
    unfolding apply_valid
    reconcile_config row result w =
        apply_valid (validate uuid_of place row.tenant_id row.onboarding_id row.message row.version)
          (record result { examined = result.examined + 1 }) w

    unfoldable pub reconcile_configs :
        List Config → ReconcileResult → DataPlane C → Result ReconcileResult × DataPlane C
    unfolding reconcile_config
    reconcile_configs [] result w = (ok result, w)
    reconcile_configs (row ∷ rows) result w =
        let (r, w') = reconcile_config row result w in
        elim r [ ok result' ↦ reconcile_configs rows result' w' | err e ↦ (err e, w') ]

    unfoldable pub reconcile_rows :
        Result (List Config) → DataPlane C → Result ReconcileResult × DataPlane C
    unfolding reconcile_configs
    reconcile_rows (ok rows) w =
        reconcile_configs rows (record { examined = 0; succeeded = 0; failed = 0 }) w
    reconcile_rows (err e) w = (ok (record { examined = 0; succeeded = 0; failed = 1 }), w)

    -- `run_once`
    unfoldable pub reconcile_once : DataPlane C → Result ReconcileResult × DataPlane C
    unfolding poll_configs reconcile_rows
    reconcile_once w =
        let (polled, s) = transaction (execute poll_configs) w.control in
        reconcile_rows polled (record w { control = s })
