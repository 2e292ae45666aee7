-- ===== src/ControlApi.antt =====
-- The handlers of src/plane_demo/control/api.py. GET reads one snapshot of the tables; the times in
-- its answer are left out. `login` is the pair of the session's role in control.login_pairs.
pub mod Update
use radius_todolist_app.Prelude.{
  ℕ, String, Bool, true, false, ◌&&◌, Option, none, some, List, [], ◌∷◌, str_eq, ◌==◌, ltb,
  if◌then◌else◌, select, find,
}
use radius_todolist_app.Error.{Error, Result, ok, err, http, database}
use radius_todolist_app.Session.{Session, execute, transaction}
use radius_todolist_app.Paging.{timeline}
use radius_todolist_app.ControlTables.{Config, ControlEvent, ControlDb, update_configuration}

-- The answer of GET /tenants/{tenant_id}.
pub record ConfigStatus : Type 0 where
  pub tenant_id : String
  pub onboarding_id : String
  pub message : String
  pub version : ℕ
  pub status : String
  pub last_applied_version : Option ℕ
  pub last_report : Option ControlEvent
  pub timeline : List ControlEvent
  pub next_after_event_id : Option ℕ

-- `ORDER BY version DESC LIMIT 1`
highest_version : List ControlEvent → Option ℕ
highest_version [] = none
highest_version (e ∷ es) = elim (highest_version es) [
  | none ↦ some e.version
  | some v ↦ some (if ltb v e.version then e.version else v)
]

-- `ORDER BY event_id DESC LIMIT 1`
latest : List ControlEvent → Option ControlEvent
latest [] = none
latest (e ∷ es) = elim (latest es) [
  | none ↦ some e
  | some f ↦ some (if ltb e.event_id f.event_id then f else e)
]

-- The version of `success`.
unfoldable pub applied_version : Config → List ControlEvent → Option ℕ
unfolding highest_version
applied_version desired es = highest_version (
    select
      (λ e.
        str_eq e.tenant_id desired.tenant_id
        && str_eq e.onboarding_id desired.onboarding_id
        && str_eq e.source "data"
        && str_eq e.type "config_applied")
      es)

-- `current_failure`
unfoldable pub current_failure : Config → List ControlEvent → Option ControlEvent
current_failure desired es =
    find
      (λ e.
        str_eq e.tenant_id desired.tenant_id
        && str_eq e.onboarding_id desired.onboarding_id
        && e.version == desired.version
        && str_eq e.source "data"
        && str_eq e.type "config_apply_failed")
      es

is_version : ℕ → Option ℕ → Bool
is_version v none = false
is_version v (some w) = w == v

unfoldable pub status_of : Config → Option ℕ → Option ControlEvent → String
unfolding is_version
status_of desired applied failure =
    if is_version desired.version applied
    then "applied"
    else elim failure [ some e ↦ "failed" | none ↦ "pending" ]

answer : Config → List ControlEvent → Result (List ControlEvent × Option ℕ) → Result ConfigStatus
unfolding latest applied_version current_failure status_of
answer desired es (err e) = err e
answer desired es (ok (events, next)) = ok (record {
  tenant_id = desired.tenant_id;
  onboarding_id = desired.onboarding_id;
  message = desired.message;
  version = desired.version;
  status = status_of desired (applied_version desired es) (current_failure desired es);
  last_applied_version = applied_version desired es;
  last_report =
      latest (select (λ e. str_eq e.tenant_id desired.tenant_id && str_eq e.source "data") es);
  timeline = events;
  next_after_event_id = next;
})

-- `tenant_status`
unfoldable pub config_status : String → ℕ → ℕ → ControlDb → Result ConfigStatus
unfolding answer
config_status tenant_id after limit d = elim (find (λ c. str_eq c.tenant_id tenant_id) d.configs) [
  | none ↦ err (http 404 "tenant_not_found")
  | some desired ↦ answer desired d.events (
      timeline (λ e. e.event_id) (select (λ e. str_eq e.tenant_id desired.tenant_id) d.events) after
        limit)
]

-- The answer of PUT /tenants/{tenant_id}/configuration.
pub record Updated : Type 0 where
  pub tenant_id : String
  pub message : String
  pub version : ℕ

unfoldable pub update_reply : String → String → Result ℕ → Result Updated
update_reply tenant_id message (ok version) =
    ok (record { tenant_id = tenant_id; message = message; version = version })
update_reply tenant_id message (err (database (some state))) =
    if str_eq state "PT404" then err (http 404 "tenant_not_found") else err (database (some state))
update_reply tenant_id message (err e) = err e

-- `update_configuration`
unfoldable pub put_configuration :
    Option String → String → String → Session ControlDb → Result Updated × Session ControlDb
unfolding update_reply
put_configuration login tenant_id message s =
    let (row, s') = transaction (execute (update_configuration login tenant_id message)) s in
    (update_reply tenant_id message row, s')
