-- ===== src/ControlReconciler.antt =====
-- `report` and `run_once` of src/plane_demo/control/reconciler.py, over a session of the management
-- database and one of the control database. Each `with connect(...)` is a transaction that commits
-- at its end; what one session leaves of its fates is for the next. What the two databases raise is
-- a `psycopg.Error`. Logging is left out.
pub mod Truth
use radius_todolist_app.Prelude.{
  ℕ, ◌+◌, String, Bool, true, false, ◌&&◌, Option, none, some, List, [], ◌∷◌, str_eq, if◌then◌else◌,
  select, any,
}
use radius_todolist_app.Error.{Error, Result, ok, err}
use radius_todolist_app.Session.{Session, execute, transaction}
use radius_todolist_app.Tables.{Tenant, Pair, Db}
use radius_todolist_app.Reports.{Report, report_control}
use radius_todolist_app.ControlTables.{ControlDb, ensure_tenant}

-- `ReconcileResult`
pub record ReconcileResult : Type 0 where
  pub examined : ℕ
  pub succeeded : ℕ
  pub failed : ℕ

-- `settings.pair_id`, the pairs of the two login roles, and the server's collation.
pub record Settings : Type 0 where
  pub pair_id : String
  pub management_login : Option String
  pub control_login : Option String
  pub collate : String → String → Bool

pub record Planes : Type 0 where
  pub management : Session Db
  pub control : Session ControlDb

insert_by_tenant : (String → String → Bool) → Tenant → List Tenant → List Tenant
insert_by_tenant collate t [] = t ∷ []
insert_by_tenant collate t (u ∷ us) =
    let rest = insert_by_tenant collate t us in
    if collate t.tenant_id u.tenant_id then t ∷ u ∷ us else u ∷ rest

-- `ORDER BY tenant_id`
unfoldable pub order_by_tenant : (String → String → Bool) → List Tenant → List Tenant
unfolding insert_by_tenant
order_by_tenant collate [] = []
order_by_tenant collate (t ∷ ts) = insert_by_tenant collate t (order_by_tenant collate ts)

-- `t.pair_id = ... AND p.stage = 'available'` over the join of tenants and pairs
is_available_on : String → Db → Tenant → Bool
is_available_on pair_id d t =
    str_eq t.pair_id pair_id
    && any (λ p. str_eq p.pair_id t.pair_id && str_eq p.stage "available") d.pairs

unfoldable pub poll : Settings → Db → Result (List Tenant) × Db
unfolding is_available_on order_by_tenant
poll settings d = (
  ok (order_by_tenant settings.collate (select (is_available_on settings.pair_id d) d.tenants)),
  d,
)

abbrev pub report_of : Tenant → Bool → Option String → Report
report_of t success error = record {
  tenant_id = t.tenant_id;
  onboarding_id = t.onboarding_id;
  version = t.desired_revision;
  type = if success then "control_record_created" else "control_record_failed";
  error_code = error;
}

-- `report`
unfoldable pub report :
    Settings → Tenant → Bool → Option String → Session Db → Result ℕ × Session Db
report settings t success error =
    transaction (execute (report_control settings.management_login (report_of t success error)))

ensure : Settings → Tenant → Session ControlDb → Result ℕ × Session ControlDb
ensure settings t = transaction (
    execute (
      ensure_tenant settings.control_login t.tenant_id t.onboarding_id t.pair_id t.initial_message))

-- The end of the loop's body: `result.succeeded += 1`, or `result.failed += 1`.
unfoldable pub tally : Result ℕ → ReconcileResult → ReconcileResult
tally (ok id) result = record result { succeeded = result.succeeded + 1 }
tally (err e) result = record result { failed = result.failed + 1 }

-- The loop's body once `ensure_tenant` has answered.
report_ensured : Settings → Tenant → Result ℕ → ReconcileResult → Planes → ReconcileResult × Planes
unfolding report tally
report_ensured settings t (ok version) result w =
    let (sent, m) = report settings t true none w.management in
    (tally sent result, record w { management = m })
report_ensured settings t (err e) result w =
    let (sent, m) = report settings t false (some "control_write_failed") w.management in
    (record result { failed = result.failed + 1 }, record w { management = m })

-- The loop's body.
unfoldable pub reconcile : Settings → Tenant → ReconcileResult → Planes → ReconcileResult × Planes
unfolding ensure report_ensured
reconcile settings t result w =
    let (ensured, c) = ensure settings t w.control in
    report_ensured settings t ensured (record result { examined = result.examined + 1 })
      (record w { control = c })

unfoldable pub reconcile_each :
    Settings → List Tenant → ReconcileResult → Planes → ReconcileResult × Planes
unfolding reconcile
reconcile_each settings [] result w = (result, w)
reconcile_each settings (t ∷ ts) result w =
    let (result', w') = reconcile settings t result w in reconcile_each settings ts result' w'

reconcile_polled : Settings → Result (List Tenant) → Planes → ReconcileResult × Planes
unfolding reconcile_each
reconcile_polled settings (ok ts) w =
    reconcile_each settings ts (record { examined = 0; succeeded = 0; failed = 0 }) w
reconcile_polled settings (err e) w = (record { examined = 0; succeeded = 0; failed = 1 }, w)

-- `run_once`
unfoldable pub run_once : Settings → Planes → ReconcileResult × Planes
unfolding poll reconcile_polled
run_once settings w =
    let (polled, m) = transaction (execute (poll settings)) w.management in
    reconcile_polled settings polled (record w { management = m })
