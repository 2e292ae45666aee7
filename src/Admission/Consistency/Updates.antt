-- ===== src/Admission/Consistency/Updates.antt =====
-- An UPDATE of the operations keeps the tables consistent.
use radius_todolist_app.Prelude.{
  ◌≤◌, String, ◌≡◌, sym, ◌∙◌, inl, inr, Bool, true, false, some, List, [], ◌∷◌, arith, eq_iff,
  if◌then◌else◌, Bool-cases, count, find, update_where, All, All-of_In,
}
use mathlib.Core.Path.{subst}
use mathlib.Core.Option.{some-injective}
use radius_todolist_app.Tables.{Tenant, Pair, Operation, Db, is_active}
use radius_todolist_app.Operations.Keys.{
  has_id, Keyed, find-In, Keyed-update_where, IsOwned-update_where,
}
use radius_todolist_app.Admission.Consistency.{is_succeeded, is_ready, IsConsistent}

-- What holds of the row that a key finds holds of all rows with the key.
pub All-has_id :
    (P : Operation → Type 0) (id : String) (os : List Operation) {p : Operation}
    → Keyed os
    → find (has_id id) os ≡ some p
    → P p
    → All (λ o. has_id id o ≡ true → P o) os
All-has_id P id os {p} k found h = All-of_In _ os (λ o m t.
    let key : o.operation_id ≡ id = (eq_iff o.operation_id id).0 t in
    let same : some p ≡ some o =
      sym found ∙ subst (λ i. find (has_id i) os ≡ some o) key (find-In o os k m) in
    rw (← some-injective p o same) h)

module _ (test : Operation → Bool) (change : Operation → Operation) where
  pub count_active-update_where :
      (os : List Operation)
      → All (λ o. test o ≡ true → is_active o.status ≡ true) os
      → count (λ o. is_active o.status) (update_where test change os)
        ≤ count (λ o. is_active o.status) os
  count_active-update_where [] h = omega arith
  count_active-update_where (o ∷ os) h = ground (arith, count_active-update_where os h.1)

  ready-changed :
      (ts : List Tenant) (ps : List Pair) (o : Operation)
      → ((p : Operation) → is_succeeded (change p).status ≡ false)
      → (is_succeeded o.status ≡ true → is_ready ts ps o ≡ true)
      → is_succeeded (if test o then change o else o).status ≡ true
      → is_ready ts ps (if test o then change o else o) ≡ true
  ready-changed ts ps o idle h t = elim (Bool-cases (test o)) [
    | inl e ↦ let u : is_succeeded (change o).status ≡ true = rw e at t in cc (idle o, u)
    | inr e ↦ rw e (h (rw e at t))
  ]

  ready-update_where :
      (ts : List Tenant) (ps : List Pair) (os : List Operation)
      → ((o : Operation) → is_succeeded (change o).status ≡ false)
      → All (λ o. is_succeeded o.status ≡ true → is_ready ts ps o ≡ true) os
      → All
          (λ o. is_succeeded o.status ≡ true → is_ready ts ps o ≡ true)
          (update_where test change os)
  ready-update_where ts ps [] idle h = tt
  ready-update_where ts ps (o ∷ os) idle h =
      (ready-changed ts ps o idle h.0, ready-update_where ts ps os idle h.1)

  -- An UPDATE of active rows that makes none succeeded.
  pub IsConsistent-update :
      (d : Db) {d' : Db}
      → ((o : Operation) → (change o).operation_id ≡ o.operation_id)
      → ((o : Operation) → (change o).tenant_id ≡ o.tenant_id)
      → ((o : Operation) → is_succeeded (change o).status ≡ false)
      → IsConsistent d
      → All (λ o. test o ≡ true → is_active o.status ≡ true) d.operations
      → d'.operations ≡ update_where test change d.operations
      → d'.tenants ≡ d.tenants
      → d'.pairs ≡ d.pairs
      → IsConsistent d'
  IsConsistent-update d {d'} ids tenants idle c h rows same_tenants same_pairs = record {
    keyed = rw rows (Keyed-update_where test change ids d.operations c.keyed);
    owned =
        rw (rows, same_tenants)
          (IsOwned-update_where test change d.tenants d.operations tenants c.owned);
    placed = rw (same_tenants, same_pairs) c.placed;
    one_active = rw rows (omega (arith, count_active-update_where d.operations h, c.one_active));
    exclusive = rw same_tenants c.exclusive;
    ready =
        rw (rows, same_tenants, same_pairs)
          (ready-update_where d.tenants d.pairs d.operations idle c.ready);
  }
