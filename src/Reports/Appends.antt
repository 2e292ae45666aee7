-- ===== src/Reports/Appends.antt =====
-- A report of the control plane inserts its event or none.
use radius_todolist_app.Prelude.{
  String, ◌≡◌, refl, ◌⊎◌, inl, inr, Option, none, some, [], ◌∷◌, ◌++◌, arith, Option-cases,
  Bool-cases, find, str_eq, ◌&&◌,
}
use radius_todolist_app.Tables.{Db}
use radius_todolist_app.Reports.{
  Report, control_event, is_report, is_target, is_content, insert_report, record_report,
  report_of_pair, report_control,
}

abbrev pub Grows : Report → Db → Db → Type 0
Grows r d d' =
    (d'.events ≡ d.events)
    ⊎ ((pair_id : String) × (d'.events
          ≡ d.events ++ record (control_event r pair_id) { event_id = d.next_event_id } ∷ []))

abbrev pub Appends : Report → Db → Db → Type 0
Appends r d d' = (d'.tenants ≡ d.tenants) × Grows r d d'

record_report-Appends :
    (r : Report) (pair_id : String) (d : Db) → Appends r d (record_report r pair_id d).1
unfolding record_report insert_report
record_report-Appends r pair_id d = elim (Option-cases (find (is_report r r.type) d.events)) [
  | inr (e, found) ↦ (ground arith, inl (ground arith))
  | inl new ↦ elim (Option-cases (find (is_report r "control_record_created") d.events)) [
    | inr (e, found) ↦ elim (Bool-cases (str_eq r.type "control_record_failed")) [
      | inl t ↦ (ground arith, inl (ground arith))
      | inr t ↦ (ground arith, inr (pair_id, ground arith))
    ]
    | inl f ↦ (ground arith, inr (pair_id, ground arith))
  ]
]

pub report_control-Appends :
    (login : Option String) (r : Report) (d : Db) → Appends r d (report_control login r d).1
unfolding report_control report_of_pair
report_control-Appends none r d = (refl, inl refl)
report_control-Appends (some pair_id) r d =
    elim (Option-cases
      (find (λ t. str_eq t.tenant_id r.tenant_id && str_eq t.pair_id pair_id) d.tenants)) [
        | inl e ↦ (ground arith, inl (ground arith))
        | inr (t, e) ↦ elim (Bool-cases (is_target r pair_id t)) [
          | inr b ↦ (ground arith, inl (ground arith))
          | inl b ↦
              elim (Bool-cases (is_content "control_record_created" "control_record_failed" r)) [
                | inr c ↦ (ground arith, inl (ground arith))
                | inl c ↦
                    let same : report_of_pair r pair_id d ≡ record_report r pair_id d =
                      ground arith in
                    rw same (record_report-Appends r pair_id d)
              ]
        ]
      ]
