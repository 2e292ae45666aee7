-- ===== src/ControlReconciler/Truth.antt =====
-- What a report of the control plane says is so.
use radius_todolist_app.Prelude.{
  ℕ, ◌+◌, String, ◌≡◌, refl, inl, inr, Bool, true, false, ◌&&◌, Option, none, some, List, [], ◌∷◌,
  arith, str_eq, eq_refl, if◌then◌else◌, Bool-cases, Option-cases, any, any-append, find, All,
  All-append, All-map,
}
use radius_todolist_app.Error.{Result, ok, err}
use radius_todolist_app.Session.{Session, execute, transaction}
use radius_todolist_app.Session.Single.{single_tables, single_ok}
use radius_todolist_app.Tables.{Tenant, Event, Db}
use radius_todolist_app.Reports.{report_control}
use mathlib.Core.Option.{some-injective}
use radius_todolist_app.Reports.Appends.{report_control-Appends}
use radius_todolist_app.ControlTables.{Config, ControlDb, first_config, ensure_tenant}
use radius_todolist_app.ControlReconciler.{
  ReconcileResult, Settings, Planes, poll, report_of, report, ensure, report_ensured, reconcile,
  reconcile_each, reconcile_polled, run_once,
}

-- The control plane has a record of the tenant and its onboarding.
abbrev pub has_record : String → String → Config → Bool
has_record tenant onboarding c = str_eq c.tenant_id tenant && str_eq c.onboarding_id onboarding

abbrev pub is_created : Event → Bool
is_created e = str_eq e.source "control" && str_eq e.type "control_record_created"

-- The event, if it reports a record as created, tells the truth.
abbrev pub IsTrue : List Config → Event → Type 0
IsTrue cs e = is_created e ≡ true → any (has_record e.tenant_id e.onboarding_id) cs ≡ true

abbrev pub IsTruthful : Planes → Type 0
IsTruthful w = All (IsTrue w.control.db.configs) w.management.db.events

any_found :
    (test test' : Config → Bool) (cs : List Config) {c : Config}
    → find test cs ≡ some c
    → ((test c ≡ true) → test' c ≡ true)
    → any test' cs ≡ true
any_found test test' [] h k = cc
any_found test test' (b ∷ cs) {c} h k = elim (Bool-cases (test b)) [
  | inl t ↦
      let same : b ≡ c = some-injective b c (rw t at h) in
      let holds : test' b ≡ true = rw same (k (rw same at t)) in rw holds refl
  | inr t ↦
      let later : any test' cs ≡ true = any_found test test' cs {c = c} (rw t at h) k in
      ground arith
]

ensure_tenant-keeps :
    (login : Option String) (tenant onboarding pair message : String) (d : ControlDb)
    → (test : Config → Bool) → any test d.configs ≡ true
    → any test (ensure_tenant login tenant onboarding pair message d).1.configs ≡ true
unfolding ensure_tenant
ensure_tenant-keeps login tenant onboarding pair message d test h =
    elim (Option-cases (find (λ c. str_eq c.tenant_id tenant) d.configs)) [
      | inr (c, e) ↦ ground arith
      | inl e ↦
          ground
            (arith, any-append test d.configs (first_config tenant onboarding pair message ∷ []))
    ]

ensure_tenant-has_record :
    (login : Option String) (tenant onboarding pair message : String) (d : ControlDb) (version : ℕ)
    → (ensure_tenant login tenant onboarding pair message d).0 ≡ ok version
    → any
        (has_record tenant onboarding)
        (ensure_tenant login tenant onboarding pair message d).1.configs
      ≡ true
unfolding ensure_tenant
ensure_tenant-has_record login tenant onboarding pair message d version h =
    elim (Option-cases (find (λ c. str_eq c.tenant_id tenant) d.configs)) [
      | inr (c, e) ↦
          let has : any (has_record tenant onboarding) d.configs ≡ true =
            any_found (λ c. str_eq c.tenant_id tenant) (has_record tenant onboarding) d.configs e
              (λ t. ground arith) in
          ground arith
      | inl e ↦ ground (
        arith,
        eq_refl tenant,
        eq_refl onboarding,
        any-append (has_record tenant onboarding) d.configs
            (first_config tenant onboarding pair message ∷ []),
      )
    ]

-- The tables of the control plane after `ensure_tenant`, from any session.
ensure-keeps :
    (settings : Settings) (t : Tenant) (s : Session ControlDb) (test : Config → Bool)
    → any test s.db.configs ≡ true
    → any test (ensure settings t s).1.db.configs ≡ true
unfolding ensure
ensure-keeps settings t s test h =
    elim (single_tables
      (ensure_tenant settings.control_login t.tenant_id t.onboarding_id t.pair_id t.initial_message)
      s) [
        | inl same ↦ rw same h
        | inr done ↦ rw done (
            ensure_tenant-keeps settings.control_login t.tenant_id t.onboarding_id t.pair_id
              t.initial_message s.db test h)
      ]

ensure-has_record :
    (settings : Settings) (t : Tenant) (s : Session ControlDb) (version : ℕ)
    → (ensure settings t s).0 ≡ ok version
    → any (has_record t.tenant_id t.onboarding_id) (ensure settings t s).1.db.configs ≡ true
unfolding ensure
ensure-has_record settings t s version h =
    let (done, tables) =
      single_ok
        (ensure_tenant settings.control_login t.tenant_id t.onboarding_id t.pair_id
          t.initial_message)
        s version h in
    rw tables (
      ensure_tenant-has_record settings.control_login t.tenant_id t.onboarding_id t.pair_id
        t.initial_message s.db version done)

created_means :
    (success : Bool)
    → str_eq
        (if success then "control_record_created" else "control_record_failed")
        "control_record_created"
      ≡ true
    → success ≡ true
created_means true h = refl
created_means false h = cc

report-IsTrue :
    (settings : Settings) (t : Tenant) (success : Bool) (error : Option String) (s : Session Db)
    (cs : List Config)
    → (success ≡ true → any (has_record t.tenant_id t.onboarding_id) cs ≡ true)
    → All (IsTrue cs) s.db.events
    → All (IsTrue cs) (report settings t success error s).1.db.events
unfolding report
report-IsTrue settings t success error s cs known h =
    let r = report_of t success error in
    elim (single_tables (report_control settings.management_login r) s) [
      | inl same ↦ rw same h
      | inr done ↦ rw done (elim ((report_control-Appends settings.management_login r s.db).1) [
        | inl same ↦ rw same h
        | inr (pair_id, one) ↦
            rw one
              (All-append (IsTrue cs) s.db.events _ h ((λ c. known (created_means success c)), tt))
      ])
    ]

reconcile-IsTruthful :
    (settings : Settings) (t : Tenant) (result : ReconcileResult) (w : Planes)
    → IsTruthful w
    → IsTruthful (reconcile settings t result w).1
unfolding reconcile report_ensured
reconcile-IsTruthful settings t result w h =
    let kept : All (IsTrue (ensure settings t w.control).1.db.configs) w.management.db.events =
      All-map _ _ w.management.db.events
        (λ e k c. ensure-keeps settings t w.control (has_record e.tenant_id e.onboarding_id) (k c))
        h in
    go (ensure settings t w.control).0 (ensure settings t w.control).1 kept
      (ensure-has_record settings t w.control)
  where
    go :
        (r : Result ℕ) (s : Session ControlDb)
        → All (IsTrue s.db.configs) w.management.db.events
        → ((version : ℕ)
            → r ≡ ok version
            → any (has_record t.tenant_id t.onboarding_id) s.db.configs ≡ true)
        → IsTruthful
            (report_ensured settings t r
              (record result { examined = result.examined + 1 })
              (record w { control = s })).1
    go (ok version) s kept known =
        report-IsTrue settings t true none w.management s.db.configs (λ _. known version refl) kept
    go (err e) s kept known =
        report-IsTrue settings t false (some "control_write_failed") w.management s.db.configs
          (λ c. cc) kept

reconcile_each-IsTruthful :
    (settings : Settings) (ts : List Tenant) (result : ReconcileResult) (w : Planes)
    → IsTruthful w
    → IsTruthful (reconcile_each settings ts result w).1
unfolding reconcile_each
reconcile_each-IsTruthful settings [] result w h = h
reconcile_each-IsTruthful settings (t ∷ ts) result w h =
    reconcile_each-IsTruthful settings ts (reconcile settings t result w).0
      (reconcile settings t result w).1 (reconcile-IsTruthful settings t result w h)

-- If every event that says that the control plane has created a tenant's record is true, then that
-- is so after a round of the control reconciler, whatever becomes of its connections: no such event
-- is stored unless the tenant's configuration is, with the same onboarding.
pub run_once-IsTruthful :
    (settings : Settings) (w : Planes) → IsTruthful w → IsTruthful (run_once settings w).1
unfolding run_once poll reconcile_polled
run_once-IsTruthful settings w h =
    let polled = transaction (execute (poll settings)) w.management in
    elim (single_tables (poll settings) w.management) [
      | inl same ↦ go polled.0 polled.1 (rw same h)
      | inr same ↦ go polled.0 polled.1 (rw same h)
    ]
  where
    go :
        (r : Result (List Tenant)) (s : Session Db)
        → All (IsTrue w.control.db.configs) s.db.events
        → IsTruthful (reconcile_polled settings r (record w { management = s })).1
    go (ok ts) s k = reconcile_each-IsTruthful settings ts _ (record w { management = s }) k
    go (err e) s k = k
