-- ===== src/DataReconciler/Applied.antt =====
-- What the data reconciler reports as applied, the cluster has answered with.
use radius_todolist_app.Prelude.{
  ◌+◌, String, ◌≡◌, refl, ap, inl, inr, Bool, true, false, ◌&&◌, Option, List, [], ◌∷◌, str_eq, ltb,
  if◌then◌else◌, Bool-cases, All, All-append, All-map,
}
use radius_todolist_app.Error.{Result, ok, err}
use radius_todolist_app.Session.{Session, execute, transaction}
use radius_todolist_app.Session.Single.{single_tables}
use radius_todolist_app.ControlTables.{Config, ControlEvent, ControlDb, report_data}
use radius_todolist_app.ControlTables.Appends.{data_event, report_data-DataGrows}
use radius_todolist_app.ControlReconciler.{ReconcileResult}
use radius_todolist_app.ConfigMaps.{
  AppliedConfiguration, applied_eq, ConfigMap, Api, Place, validate, apply,
}
use radius_todolist_app.ConfigMaps.Forward.{applied_eq-means}
use radius_todolist_app.ConfigMaps.Seen.{logging, Extends, IsSeen, apply-Answers}
use radius_todolist_app.DataReconciler.{
  DataPlane, data_report, poll_configs, report_applied, fail, succeed, after_apply, apply_valid,
  is_write_error, reconcile_config, reconcile_configs, reconcile_rows, reconcile_once,
}

abbrev pub is_applied_event : ControlEvent → Bool
is_applied_event e = str_eq e.source "data" && str_eq e.type "config_applied"

module _ (uuid_of : String → Option String) (collate : String → String → Bool)
    (login : Option String) (place : Place) {C : Type 0} (kube : Api C) where
  -- An event that says that a version is applied has a config map of the log behind it.
  abbrev pub IsBackedBy : List ConfigMap → ControlEvent → Type 0
  IsBackedBy log e =
      is_applied_event e ≡ true
      → (a : AppliedConfiguration) × IsSeen uuid_of place log e.tenant_id a
        × (a.onboarding_id ≡ e.onboarding_id)
        × (a.version ≡ e.version)

  abbrev pub IsBacked : DataPlane (C × List ConfigMap) → Type 0
  IsBacked w = All (IsBackedBy w.cluster.1) w.control.db.events

  IsBacked-Extends :
      (log log' : List ConfigMap) (es : List ControlEvent)
      → Extends log log'
      → All (IsBackedBy log) es
      → All (IsBackedBy log') es
  IsBacked-Extends log log' es grows h =
      All-map _ _ es
        (λ e k t.
          let (a, (cm, m, parsed), onboarding, version) = k t in
          (a, (cm, grows cm m, parsed), onboarding, version))
        h

  applied_means :
      (success : Bool)
      → str_eq (if success then "config_applied" else "config_apply_failed") "config_applied" ≡ true
      → success ≡ true
  applied_means true h = refl
  applied_means false h = cc

  report_applied-IsBacked :
      (log : List ConfigMap) (a : AppliedConfiguration) (success : Bool) (s : Session ControlDb)
      → (success ≡ true → IsSeen uuid_of place log a.tenant_id a)
      → All (IsBackedBy log) s.db.events
      → All (IsBackedBy log) (report_applied uuid_of collate login place a success s).1.db.events
  unfolding report_applied
  report_applied-IsBacked log a success s seen h =
      elim (single_tables (report_data login (data_report a success)) s) [
        | inl same ↦ rw same h
        | inr done ↦ rw done (elim (report_data-DataGrows login (data_report a success) s.db) [
          | inl same ↦ rw same h
          | inr (pair_id, one) ↦ rw one (
              All-append (IsBackedBy log) s.db.events
                (data_event (data_report a success) pair_id s.db.next_event_id ∷ []) h
                ((λ t. (a, seen (applied_means success t), refl, refl)), tt))
        ])
      ]

  after_apply-IsBacked :
      (desired : AppliedConfiguration) (r : Result AppliedConfiguration) (result : ReconcileResult)
      (w : DataPlane (C × List ConfigMap))
      → ((a : AppliedConfiguration)
          → r ≡ ok a
          → IsSeen uuid_of place w.cluster.1 desired.tenant_id a)
      → IsBacked w
      → IsBacked (after_apply uuid_of collate login place (logging kube) desired r result w).1
  unfolding after_apply fail succeed
  after_apply-IsBacked desired (ok applied) result w seen h =
      elim (Bool-cases (ltb desired.version applied.version)) [
        | inl newer ↦ rw (after_apply, newer) h
        | inr t ↦ elim (Bool-cases (applied_eq applied desired)) [
          | inl same ↦
              rw (after_apply, same, t)
                (report_applied-IsBacked w.cluster.1 applied true w.control
                  (λ _.
                    rw (applied_eq-means applied desired same)
                      (seen desired (ap ok (applied_eq-means applied desired same))))
                  h)
          | inr differs ↦
              rw (after_apply, differs, t)
                (report_applied-IsBacked w.cluster.1 desired false w.control (λ c. cc) h)
        ]
      ]
  after_apply-IsBacked desired (err e) result w seen h = elim (Bool-cases (is_write_error e)) [
    | inl t ↦
        rw (after_apply, t)
          (report_applied-IsBacked w.cluster.1 desired false w.control (λ c. cc) h)
    | inr t ↦ rw (after_apply, t) h
  ]

  apply_valid-IsBacked :
      (r : Result AppliedConfiguration) (result : ReconcileResult)
      (w : DataPlane (C × List ConfigMap))
      → IsBacked w
      → IsBacked (apply_valid uuid_of collate login place (logging kube) r result w).1
  unfolding apply_valid
  apply_valid-IsBacked (err e) result w h = h
  apply_valid-IsBacked (ok desired) result w h =
      let (grows, seen) = apply-Answers uuid_of place kube desired w.cluster in
      let (answer, c) = apply uuid_of place (logging kube) desired w.cluster in
      after_apply-IsBacked desired answer result (record w { cluster = c }) seen
        (IsBacked-Extends w.cluster.1 c.1 w.control.db.events grows h)

  reconcile_config-IsBacked :
      (row : Config) (result : ReconcileResult) (w : DataPlane (C × List ConfigMap))
      → IsBacked w
      → IsBacked (reconcile_config uuid_of collate login place (logging kube) row result w).1
  unfolding reconcile_config
  reconcile_config-IsBacked row result w h =
      apply_valid-IsBacked
        (validate uuid_of place row.tenant_id row.onboarding_id row.message row.version)
        (record result { examined = result.examined + 1 }) w h

  reconcile_configs-IsBacked :
      (rows : List Config) (result : ReconcileResult) (w : DataPlane (C × List ConfigMap))
      → IsBacked w
      → IsBacked (reconcile_configs uuid_of collate login place (logging kube) rows result w).1
  unfolding reconcile_configs
  reconcile_configs-IsBacked [] result w h = h
  reconcile_configs-IsBacked (row ∷ rows) result w h =
      let (r, w') = reconcile_config uuid_of collate login place (logging kube) row result w in
      go r w' (reconcile_config-IsBacked row result w h)
        (λ result' k. reconcile_configs-IsBacked rows result' w' k)
    where
      go :
          (r : Result ReconcileResult) (w' : DataPlane (C × List ConfigMap))
          → IsBacked w'
          → ((result' : ReconcileResult)
              → IsBacked w'
              → IsBacked
                  (reconcile_configs uuid_of collate login place (logging kube) rows result' w').1)
          → IsBacked (
              let next : Result ReconcileResult × DataPlane (C × List ConfigMap) = elim r [
                | ok result' ↦
                    reconcile_configs uuid_of collate login place (logging kube) rows result' w'
                | err e ↦ (err e, w')
              ] in
              next.1)
      go (ok result') w' k f = f result' k
      go (err e) w' k f = k

  reconcile_rows-IsBacked :
      (r : Result (List Config)) (w : DataPlane (C × List ConfigMap))
      → IsBacked w
      → IsBacked (reconcile_rows uuid_of collate login place (logging kube) r w).1
  unfolding reconcile_rows
  reconcile_rows-IsBacked (ok rows) w h = reconcile_configs-IsBacked rows _ w h
  reconcile_rows-IsBacked (err e) w h = h

  -- On any Kubernetes API that keeps a log of the config maps it answers with, and any connection:
  -- if each event that says that a version is applied has a config map of the log behind it, valid
  -- for the tenant and with the event's onboarding and version, then that is so after a round of
  -- the data reconciler.
  pub reconcile_once-IsBacked :
      (w : DataPlane (C × List ConfigMap))
      → IsBacked w
      → IsBacked (reconcile_once uuid_of collate login place (logging kube) w).1
  unfolding reconcile_once poll_configs
  reconcile_once-IsBacked w h =
      let poll = poll_configs uuid_of collate login place in
      let (polled, s) = transaction (execute poll) w.control in
      reconcile_rows-IsBacked polled (record w { control = s })
        (elim (single_tables poll w.control) [ inl same ↦ rw same h | inr same ↦ rw same h ])
