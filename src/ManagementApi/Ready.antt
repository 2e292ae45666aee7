-- ===== src/ManagementApi/Ready.antt =====
-- When a tenant is ready, and that it stays so.
use radius_todolist_app.Prelude.{
  String, ◌≡◌, Bool, ◌&&◌, Option, some, List, str_eq, if◌then◌else◌, any, find,
}
use radius_todolist_app.Tables.{Tenant, Event, Db}
use radius_todolist_app.ManagementApi.{TenantStatus, reports_created, is_report_on}

-- Some event reports the record of the tenant's onboarding as created.
abbrev pub has_created : String → String → List Event → Bool
has_created tenant_id onboarding_id es =
    any (λ e. is_report_on tenant_id onboarding_id e && reports_created e) es

-- What an answer says of the tenant's onboarding.
abbrev Says : Db → TenantStatus → Type 0
Says d st =
    (t : Tenant) × (find (λ u. str_eq u.tenant_id st.tenant_id) d.tenants ≡ some t)
    × (st.onboarding_id ≡ t.onboarding_id)
    × (st.onboarding_status
        ≡ (if has_created st.tenant_id st.onboarding_id d.events then "ready" else "pending"))
