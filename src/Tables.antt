-- ===== src/Tables.antt =====
-- The tables of the management database, sql/management.sql, with the columns that the code reads.
-- `received_at` and `updated_at` are read by clients alone and left out. A uuid is its text. The
-- identity column `event_id` counts from `next_event_id`.
use radius_todolist_app.Prelude.{
  ℕ, ◌+◌, String, Bool, true, false, ◌||◌, Option, none, some, List, [], ◌∷◌, ◌++◌, str_eq,
}

pub data Status : Type 0 where
  pending running succeeded failed interrupted : Status

pub record Pair : Type 0 where
  pub pair_id : String
  pub isolation : String
  pub stage : String
  pub reporting_role : String

pub record Tenant : Type 0 where
  pub tenant_id : String
  pub onboarding_id : String
  pub isolation : String
  pub pair_id : String
  pub initial_message : String
  pub desired_revision : ℕ

pub record Operation : Type 0 where
  pub operation_id : String
  pub tenant_id : String
  pub status : Status
  pub stage : String
  pub error_code : Option String
  pub created_at : ℕ

pub record Event : Type 0 where
  pub event_id : ℕ
  pub tenant_id : String
  pub onboarding_id : String
  pub pair_id : String
  pub source : String
  pub type : String
  pub version : ℕ
  pub error_code : Option String
  pub stage : Option String

pub record Db : Type 0 where
  pub pairs : List Pair
  pub tenants : List Tenant
  pub operations : List Operation
  pub events : List Event
  pub next_event_id : ℕ

abbrev pub is_pending : Status → Bool
is_pending pending = true
is_pending _ = false

abbrev pub is_running : Status → Bool
is_running running = true
is_running _ = false

-- `status IN ('pending', 'running')`
abbrev pub is_active : Status → Bool
is_active s = is_pending s || is_running s

abbrev pub status_eq : Status → Status → Bool
status_eq pending pending = true
status_eq running running = true
status_eq succeeded succeeded = true
status_eq failed failed = true
status_eq interrupted interrupted = true
status_eq _ _ = false

-- Python's `==` on `str | None`.
abbrev pub option_eq : Option String → Option String → Bool
option_eq none none = true
option_eq (some a) (some b) = str_eq a b
option_eq _ _ = false

-- `INSERT INTO management.events`: the identity column numbers the row.
abbrev pub insert_event : Event → Db → Db
insert_event e d = record d {
  events = d.events ++ record e { event_id = d.next_event_id } ∷ [];
  next_event_id = d.next_event_id + 1;
}
