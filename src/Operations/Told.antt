-- ===== src/Operations/Told.antt =====
-- The events that `OperationStore.interrupt_running` inserts, and the operations that they are about.
use mathlib.Core.Option.{some-injective}
use mathlib.Core.Path.{subst}
use radius_todolist_app.Prelude.{
  ℕ, suc, ◌≡◌, refl, sym, ap, ◌∙◌, inl, inr, Bool, some, List, [], ◌∷◌, arith, str_eq, eq_iff,
  if◌then◌else◌, length, find, update_where, In,
}
use radius_todolist_app.Tables.{Tenant, Operation, Event, Db, interrupted}
use radius_todolist_app.Operations.{Row, observation, locked_row}
use radius_todolist_app.Operations.Keys.{
  has_id, find-test, find-update_any, locked_row_found, locked_row_tenant,
}

-- The event says that the operation was interrupted in its stage, for the operation's tenant.
abbrev pub Tells : List Tenant → Operation → Event → Type 0
Tells ts o e =
    (t : Tenant) × (find (λ u. str_eq u.tenant_id o.tenant_id) ts ≡ some t)
    × (e.tenant_id ≡ o.tenant_id)
    × (e.onboarding_id ≡ t.onboarding_id)
    × (e.pair_id ≡ t.pair_id)
    × (e.source ≡ "provisioner")
    × (e.type ≡ "provisioning_interrupted")
    × (e.error_code ≡ some "provisioner_restarted")
    × (e.stage ≡ some o.stage)

-- One event for each operation, in their order.
abbrev pub Told : List Tenant → List Operation → List Event → Type 0
Told ts [] [] = Unit
Told ts (o ∷ os) (e ∷ es) = Tells ts o e × Told ts os es
Told ts _ _ = ⊥

module _ (ts : List Tenant) where
  pub length-Told : (os : List Operation) (es : List Event) → Told ts os es → length es ≡ length os
  length-Told [] [] h = refl
  length-Told [] (e ∷ es) h = absurd h
  length-Told (o ∷ os) [] h = absurd h
  length-Told (o ∷ os) (e ∷ es) h = ap suc (length-Told os es h.1)

  pub Told-event :
      (o : Operation) (os : List Operation) (es : List Event)
      → Told ts os es
      → In o os
      → (e : Event) × In e es × Tells ts o e
  Told-event o [] es h m = absurd m
  Told-event o (p ∷ os) [] h m = absurd h
  Told-event o (p ∷ os) (e ∷ es) h (inl same) = (e, inl refl, rw same h.0)
  Told-event o (p ∷ os) (e ∷ es) h (inr m) =
      let (f, there, tells) = Told-event o os es h.1 m in (f, inr there, tells)

  pub Told-operation :
      (e : Event) (os : List Operation) (es : List Event)
      → Told ts os es
      → In e es
      → (o : Operation) × In o os × Tells ts o e
  Told-operation e os [] h m = absurd m
  Told-operation e [] (f ∷ es) h m = absurd h
  Told-operation e (o ∷ os) (f ∷ es) h (inl same) = (o, inl refl, rw same h.0)
  Told-operation e (o ∷ os) (f ∷ es) h (inr m) =
      let (p, there, tells) = Told-operation e os es h.1 m in (p, inr there, tells)

-- The row is in the table, with the same tenant and stage.
abbrev pub Kept : List Operation → Operation → Type 0
Kept os o =
    (p : Operation) × (find (has_id o.operation_id) os ≡ some p)
    × (p.tenant_id ≡ o.tenant_id)
    × (p.stage ≡ o.stage)

pub Kept-update_where :
    (test : Operation → Bool) (change : Operation → Operation)
    → ((p : Operation) → (change p).operation_id ≡ p.operation_id)
    → ((p : Operation) → (change p).tenant_id ≡ p.tenant_id)
    → ((p : Operation) → (change p).stage ≡ p.stage)
    → (os : List Operation) (o : Operation) → Kept os o
    → Kept (update_where test change os) o
Kept-update_where test change ids tenants stages os o (p, found, tenant, stage) = (
  if test p then change p else p,
  rw (find-update_any test change ids o.operation_id os) (rw found refl),
  ground (arith, tenants p),
  ground (arith, stages p),
)

pub Tells-observation :
    (d : Db) (o : Operation) (row : Row) (n : ℕ)
    → locked_row o.operation_id d ≡ some row
    → Kept d.operations o
    → Tells d.tenants o
        (record (observation row interrupted row.operation.stage (some "provisioner_restarted")) {
          event_id = n;
        })
Tells-observation d o row n joined (p, found, tenant, stage) =
    let (stored, _) = locked_row_found o.operation_id d joined in
    let is_p : row.operation ≡ p = some-injective row.operation p (sym stored ∙ found) in
    let same_tenant : row.operation.tenant_id ≡ o.tenant_id =
      ap (λ (x : Operation). x.tenant_id) is_p ∙ tenant in
    let owner =
      subst (λ id. find (λ u. str_eq u.tenant_id id) d.tenants ≡ some row.tenant) same_tenant
        (locked_row_tenant o.operation_id d joined) in
    (
      row.tenant,
      owner,
      (eq_iff row.tenant.tenant_id o.tenant_id).0
          (find-test (λ u. str_eq u.tenant_id o.tenant_id) d.tenants owner),
      refl,
      refl,
      refl,
      refl,
      refl,
      ap some (ap (λ (x : Operation). x.stage) is_p ∙ stage),
    )
