-- ===== src/ControlApi/Update.antt =====
-- How PUT /tenants/{tenant_id}/configuration ends, on any connection.
use radius_todolist_app.Prelude.{
  ℕ, ◌+◌, String, ◌≡◌, refl, sym, ap, inl, inr, ◌&&◌, Option, some, arith, str_eq, Option-cases,
  find, update_where, Bool-cases, leb, ltb,
}
use radius_todolist_app.Error.{Result, ok, err, ok-injective, database}
use radius_todolist_app.Session.{Session}
use radius_todolist_app.Session.Single.{single_ok}
use radius_todolist_app.Text.{text_length}
use radius_todolist_app.Tables.{option_eq}
use radius_todolist_app.ControlTables.{Config, ControlDb, update_configuration}
use radius_todolist_app.ControlApi.{Updated, update_reply, put_configuration}

-- A row of the login's pair has got the message and its next version, and no other row is changed.
abbrev pub Replaces : Option String → String → String → ControlDb → ControlDb → ℕ → Type 0
Replaces login tenant message d d' version =
    (c : Config) × (find (λ b. str_eq b.tenant_id tenant && option_eq login (some b.pair_id))
        d.configs
      ≡ some c)
    × (version ≡ c.version + 1)
    × (d'.configs
        ≡ update_where (λ b. str_eq b.tenant_id tenant)
            (λ b. record b { message = message; version = b.version + 1 }) d.configs)

update_configuration_ok :
    (login : Option String) (tenant message : String) (d : ControlDb) (version : ℕ)
    → (update_configuration login tenant message d).0 ≡ ok version
    → Replaces login tenant message d (update_configuration login tenant message d).1 version
unfolding update_configuration
update_configuration_ok login tenant message d version h =
    elim (Option-cases
      (find (λ b. str_eq b.tenant_id tenant && option_eq login (some b.pair_id)) d.configs)) [
        | inl e ↦ ground arith
        | inr (c, e) ↦ elim (Bool-cases (leb 9223372036854775807 c.version)) [
          | inl full ↦ cc (rw (update_configuration, e, full) at h)
          | inr space ↦ elim (Bool-cases (ltb 1024 (text_length message))) [
            | inl long ↦ cc (rw (update_configuration, e, space, long) at h)
            | inr short ↦ (
              c,
              e,
              sym (ok-injective _ version (rw (update_configuration, e, space, short) at h)),
              rw (update_configuration, e, space, short) refl,
            )
          ]
        ]
      ]

update_reply_ok :
    (tenant message : String) (r : Result ℕ) (u : Updated)
    → update_reply tenant message r ≡ ok u
    → (r ≡ ok u.version) × (u.tenant_id ≡ tenant) × (u.message ≡ message)
unfolding update_reply
update_reply_ok tenant message (ok version) u h =
    let same = ok-injective _ u h in
    (
      ap (λ (x : Updated). ok x.version) same,
      ap (λ (x : Updated). x.tenant_id) (sym same),
      ap (λ (x : Updated). x.message) (sym same),
    )
update_reply_ok tenant message (err (database (some state))) u h = ground arith
update_reply_ok tenant message (err e) u h = cc

-- On any connection: if PUT /tenants/{tenant_id}/configuration succeeds, the login's pair has a
-- configuration of that tenant, the answer has the message and that configuration's next version,
-- and the committed rows are the old ones with the message and the next version in the tenant's.
pub put_configuration_ok :
    (login : Option String) (tenant message : String) (s : Session ControlDb) (u : Updated)
    → (put_configuration login tenant message s).0 ≡ ok u
    → (u.tenant_id ≡ tenant)
      × (u.message ≡ message)
      × Replaces login tenant message s.db (put_configuration login tenant message s).1.db u.version
unfolding put_configuration
put_configuration_ok login tenant message s u h =
    let (row, same_tenant, same_message) = update_reply_ok tenant message _ u h in
    let (done, tables) = single_ok (update_configuration login tenant message) s u.version row in
    (
      same_tenant,
      same_message,
      rw tables (update_configuration_ok login tenant message s.db u.version done),
    )
