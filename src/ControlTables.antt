-- ===== src/ControlTables.antt =====
-- The tables and functions of the control plane, sql/control.sql, with the columns that the code
-- reads. The CHECKs of the texts of a new row are left to the callers. `login` is the pair of the
-- session's role in control.login_pairs; the row locks make a call one step on the tables.
pub mod Appends
use radius_todolist_app.Prelude.{
  ℕ, ◌+◌, String, Bool, not, ◌&&◌, ◌||◌, Option, none, some, List, [], ◌∷◌, ◌++◌, ◌==◌, ltb, leb,
  str_eq, if◌then◌else◌, find, any, update_where,
}
use radius_todolist_app.Error.{Result, ok, err, database}
use radius_todolist_app.Text.{text_length}
use radius_todolist_app.Tables.{option_eq}
use radius_todolist_app.Reports.{Report, is_content}

-- A row of control.tenant_config.
pub record Config : Type 0 where
  pub tenant_id : String
  pub onboarding_id : String
  pub pair_id : String
  pub message : String
  pub version : ℕ

pub record ControlEvent : Type 0 where
  pub event_id : ℕ
  pub tenant_id : String
  pub onboarding_id : String
  pub pair_id : String
  pub source : String
  pub type : String
  pub version : ℕ
  pub error_code : Option String

pub record ControlDb : Type 0 where
  pub configs : List Config
  pub events : List ControlEvent
  pub next_event_id : ℕ

abbrev pub insert_control_event : ControlEvent → ControlDb → ControlDb
insert_control_event e d = record d {
  events = d.events ++ record e { event_id = d.next_event_id } ∷ [];
  next_event_id = d.next_event_id + 1;
}

-- An event that the control plane's own functions insert.
abbrev pub configuration_event : Config → String → ControlEvent
configuration_event c type = record {
  event_id = 0;
  tenant_id = c.tenant_id;
  onboarding_id = c.onboarding_id;
  pair_id = c.pair_id;
  source = "control";
  type = type;
  version = c.version;
  error_code = none;
}

-- `p_tenant`, `p_onboarding`, `p_pair` and `p_message` of `ensure_tenant`, in its first version.
abbrev pub first_config : String → String → String → String → Config
first_config tenant onboarding pair message = record {
  tenant_id = tenant;
  onboarding_id = onboarding;
  pair_id = pair;
  message = message;
  version = 1;
}

-- `control.ensure_tenant`
unfoldable pub ensure_tenant :
    Option String → String → String → String → String → ControlDb → Result ℕ × ControlDb
ensure_tenant login tenant onboarding pair message d =
    if not (option_eq login (some pair))
    then (err (database (some "42501")), d)
    else elim (find (λ c. str_eq c.tenant_id tenant) d.configs) [
      | some c ↦
          if not (str_eq c.onboarding_id onboarding) || not (str_eq c.pair_id pair)
          then (err (database (some "PT409")), d)
          else (ok c.version, d)
      | none ↦
          -- onboarding_id is UNIQUE
          if any (λ c. str_eq c.onboarding_id onboarding) d.configs
          then (err (database (some "23505")), d)
          else (
            ok 1,
            insert_control_event
                (configuration_event (first_config tenant onboarding pair message)
                  "configuration_created")
                (record d {
                  configs = d.configs ++ first_config tenant onboarding pair message ∷ [];
                }),
          )
    ]

abbrev pub set_message : String → Config → Config
set_message message c = record c { message = message; version = c.version + 1 }

-- `control.update_configuration`: a version is a bigint, and a message has at most 1024 characters.
unfoldable pub update_configuration :
    Option String → String → String → ControlDb → Result ℕ × ControlDb
unfolding text_length
update_configuration login tenant message d =
    elim (find (λ c. str_eq c.tenant_id tenant && option_eq login (some c.pair_id)) d.configs) [
      | none ↦ (err (database (some "PT404")), d)
      | some c ↦
          if leb 9223372036854775807 c.version
          then (err (database (some "22003")), d)
          else if ltb 1024 (text_length message)
          then (err (database (some "23514")), d)
          else (
            ok (c.version + 1),
            insert_control_event
                (configuration_event (set_message message c) "configuration_updated")
                (record d {
                  configs =
                      update_where (λ b. str_eq b.tenant_id tenant) (set_message message) d.configs;
                }),
          )
    ]

-- An event of the data plane for a report's onboarding, version and a type.
unfoldable pub is_data_report : Report → String → ControlEvent → Bool
is_data_report r type e =
    str_eq e.onboarding_id r.onboarding_id
    && e.version == r.version
    && str_eq e.type type
    && str_eq e.source "data"

insert_data_report : Report → String → ControlDb → Result ℕ × ControlDb
insert_data_report r pair_id d = (
  ok d.next_event_id,
  insert_control_event
      (record {
        event_id = 0;
        tenant_id = r.tenant_id;
        onboarding_id = r.onboarding_id;
        pair_id = pair_id;
        source = "data";
        type = r.type;
        version = r.version;
        error_code = r.error_code;
      })
      d,
)

unfoldable pub record_data_report : Report → String → ControlDb → Result ℕ × ControlDb
unfolding insert_data_report
record_data_report r pair_id d = elim (find (is_data_report r r.type) d.events) [
  | some e ↦
      if option_eq e.error_code r.error_code
      then (ok e.event_id, d)
      else (err (database (some "PT409")), d)
  | none ↦
      if str_eq r.type "config_apply_failed"
      then elim (find (is_data_report r "config_applied") d.events) [
        | some e ↦ (ok e.event_id, d)
        | none ↦ insert_data_report r pair_id d
      ]
      else insert_data_report r pair_id d
]

-- `control.report_data`
unfoldable pub report_data : Option String → Report → ControlDb → Result ℕ × ControlDb
unfolding record_data_report
report_data none r d = (err (database (some "42501")), d)
report_data (some pair_id) r d =
    elim (find (λ c. str_eq c.tenant_id r.tenant_id && str_eq c.pair_id pair_id) d.configs) [
      | none ↦ (err (database (some "PT422")), d)
      | some c ↦
          if not (str_eq c.onboarding_id r.onboarding_id)
            || ltb r.version 1
            || ltb c.version r.version
          then (err (database (some "PT422")), d)
          else if not (is_content "config_applied" "config_apply_failed" r)
          then (err (database (some "PT422")), d)
          else record_data_report r pair_id d
    ]
