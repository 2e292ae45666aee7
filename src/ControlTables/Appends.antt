-- ===== src/ControlTables/Appends.antt =====
-- A report of the data plane inserts its event or none, and changes no configuration.
use radius_todolist_app.Prelude.{
  ℕ, String, ◌≡◌, refl, ◌⊎◌, inl, inr, ◌&&◌, ◌||◌, not, Option, none, some, [], ◌∷◌, ◌++◌, arith,
  Bool-cases, Option-cases, find, str_eq, ltb,
}
use radius_todolist_app.Reports.{Report, is_content}
use radius_todolist_app.ControlTables.{
  ControlEvent, ControlDb, is_data_report, insert_data_report, record_data_report, report_data,
}

-- The event of a report.
abbrev pub data_event : Report → String → ℕ → ControlEvent
data_event r pair_id id = record {
  event_id = id;
  tenant_id = r.tenant_id;
  onboarding_id = r.onboarding_id;
  pair_id = pair_id;
  source = "data";
  type = r.type;
  version = r.version;
  error_code = r.error_code;
}

abbrev pub DataGrows : Report → ControlDb → ControlDb → Type 0
DataGrows r d d' =
    (d'.events ≡ d.events)
    ⊎ ((pair_id : String) × (d'.events ≡ d.events ++ data_event r pair_id d.next_event_id ∷ []))

record_data_report-DataGrows :
    (r : Report) (pair_id : String) (d : ControlDb)
    → DataGrows r d (record_data_report r pair_id d).1
unfolding record_data_report insert_data_report
record_data_report-DataGrows r pair_id d =
    elim (Option-cases (find (is_data_report r r.type) d.events)) [
      | inr (e, found) ↦ inl (ground arith)
      | inl new ↦ elim (Option-cases (find (is_data_report r "config_applied") d.events)) [
        | inr (e, found) ↦ elim (Bool-cases (str_eq r.type "config_apply_failed")) [
          | inl t ↦ inl (ground arith)
          | inr t ↦ inr (pair_id, ground arith)
        ]
        | inl f ↦ inr (pair_id, ground arith)
      ]
    ]

pub report_data-DataGrows :
    (login : Option String) (r : Report) (d : ControlDb) → DataGrows r d (report_data login r d).1
unfolding report_data
report_data-DataGrows none r d = inl refl
report_data-DataGrows (some pair_id) r d =
    elim (Option-cases
      (find (λ c. str_eq c.tenant_id r.tenant_id && str_eq c.pair_id pair_id) d.configs)) [
        | inl e ↦ inl (ground arith)
        | inr (c, e) ↦
            elim (Bool-cases (
              not (str_eq c.onboarding_id r.onboarding_id)
              || ltb r.version 1
              || ltb c.version r.version)) [
                | inl b ↦ inl (ground arith)
                | inr b ↦ elim (Bool-cases (is_content "config_applied" "config_apply_failed" r)) [
                  | inr t ↦ inl (ground arith)
                  | inl t ↦
                      let same : report_data (some pair_id) r d ≡ record_data_report r pair_id d =
                        rw (report_data, e, b, t) refl in
                      rw same (record_data_report-DataGrows r pair_id d)
                ]
              ]
      ]
