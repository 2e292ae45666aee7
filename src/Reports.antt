-- ===== src/Reports.antt =====
-- The report of the control plane: `management.report_control` of sql/management.sql.
-- `login` is the pair of the session's role in management.login_pairs. The row locks make a call
-- one step on the tables.
pub mod Appends
use radius_todolist_app.Prelude.{
  ℕ, String, Bool, true, false, not, ◌&&◌, ◌||◌, Option, none, some, List, [], ◌∷◌, ◌++◌, ◌==◌,
  str_eq, if◌then◌else◌, find,
}
use radius_todolist_app.Error.{Error, Result, ok, err, database}
use radius_todolist_app.Codes.{is_error_code}
use radius_todolist_app.Tables.{Pair, Tenant, Event, Db, insert_event, option_eq}

-- What a report says; `type` and `error_code` of the row that it inserts.
pub record Report : Type 0 where
  pub tenant_id : String
  pub onboarding_id : String
  pub version : ℕ
  pub type : String
  pub error_code : Option String

-- The content fits the types of a success and of a failure.
unfoldable pub is_content : String → String → Report → Bool
is_content success failure r =
    (str_eq r.type success && option_eq r.error_code none)
    || (str_eq r.type failure
        && elim r.error_code [ none ↦ false | some code ↦ is_error_code code ])

-- An event of the control plane for a report's onboarding, version and a type.
unfoldable pub is_report : Report → String → Event → Bool
is_report r type e =
    str_eq e.onboarding_id r.onboarding_id
    && e.version == r.version
    && str_eq e.type type
    && str_eq e.source "control"

abbrev pub control_event : Report → String → Event
control_event r pair_id = record {
  event_id = 0;
  tenant_id = r.tenant_id;
  onboarding_id = r.onboarding_id;
  pair_id = pair_id;
  source = "control";
  type = r.type;
  version = r.version;
  error_code = r.error_code;
  stage = none;
}

insert_report : Report → String → Db → Result ℕ × Db
insert_report r pair_id d = (ok d.next_event_id, insert_event (control_event r pair_id) d)

-- What follows the search for an event of the same type.
unfoldable pub record_report : Report → String → Db → Result ℕ × Db
unfolding insert_report is_report
record_report r pair_id d = elim (find (is_report r r.type) d.events) [
  | some e ↦
      if option_eq e.error_code r.error_code
      then (ok e.event_id, d)
      else (err (database (some "PT409")), d)
  | none ↦
      if str_eq r.type "control_record_failed"
      then elim (find (is_report r "control_record_created") d.events) [
        | some e ↦ (ok e.event_id, d)
        | none ↦ insert_report r pair_id d
      ]
      else insert_report r pair_id d
]

-- The tenant that a report is about, if the login's pair has it.
unfoldable pub is_target : Report → String → Tenant → Bool
is_target r pair_id t =
    str_eq t.tenant_id r.tenant_id
    && str_eq t.pair_id pair_id
    && str_eq t.onboarding_id r.onboarding_id
    && r.version == t.desired_revision

report_of_pair : Report → String → Db → Result ℕ × Db
unfolding is_target is_content record_report
report_of_pair r pair_id d =
    elim (find (λ t. str_eq t.tenant_id r.tenant_id && str_eq t.pair_id pair_id) d.tenants) [
      | none ↦ (err (database (some "PT422")), d)
      | some t ↦
          if not (is_target r pair_id t)
          then (err (database (some "PT422")), d)
          else if not (is_content "control_record_created" "control_record_failed" r)
          then (err (database (some "PT422")), d)
          else record_report r pair_id d
    ]

-- `management.report_control`
unfoldable pub report_control : Option String → Report → Db → Result ℕ × Db
unfolding report_of_pair
report_control none r d = (err (database (some "42501")), d)
report_control (some pair_id) r d = report_of_pair r pair_id d
