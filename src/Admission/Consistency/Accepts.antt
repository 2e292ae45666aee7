-- ===== src/Admission/Consistency/Accepts.antt =====
-- Admitting a tenant keeps the tables consistent.
use radius_todolist_app.Prelude.{
  ◌≤◌, String, ◌≡◌, ◌≢◌, refl, sym, ◌∙◌, inl, inr, Bool, true, false, not, some, List, [], ◌∷◌,
  ◌++◌, arith, str_eq, eq_refl, ◌||◌, Bool-cases, Option-cases, count, any, find, All, All-append,
  All-map, In, count-append, any-append, any-true, count_none, find-none, find-append,
  find-append_none,
}
use radius_todolist_app.Tables.{Status, Tenant, Pair, Operation, Db, is_active}
use radius_todolist_app.Operations.Keys.{Keyed, IsOwned}
use radius_todolist_app.Admission.{
  TenantRequest, Generated, least_pair, is_free, new_tenant, new_operation, insert_tenant,
}
use radius_todolist_app.Admission.Consistency.{
  is_succeeded, is_at, is_available_at, is_ready, conflicts, Exclusive, IsConsistent,
}

pub least_pair-In :
    (collate : String → String → Bool) (ps : List Pair) {p : Pair}
    → least_pair collate ps ≡ some p
    → In p ps
unfolding least_pair
least_pair-In collate [] h = cc
least_pair-In collate (q ∷ ps) {p} h = elim (Option-cases (least_pair collate ps)) [
  | inl e ↦ inl (ground arith)
  | inr (x, e) ↦ elim (Bool-cases (collate q.pair_id x.pair_id)) [
    | inl b ↦ inl (ground arith)
    | inr b ↦ inr (least_pair-In collate ps {p = p} (ground arith))
  ]
]

Keyed-append :
    (os : List Operation) (o : Operation)
    → Keyed os
    → All (λ p. p.operation_id ≢ o.operation_id) os
    → Keyed (os ++ o ∷ [])
Keyed-append [] o k h = (tt, tt)
Keyed-append (p ∷ os) o k h =
    (All-append _ os (o ∷ []) k.0 ((λ e. h.0 (sym e)), tt), Keyed-append os o k.1 h.1)

Exclusive-append :
    (ts : List Tenant) (t : Tenant)
    → Exclusive ts
    → All (λ u. conflicts u t ≡ false) ts
    → Exclusive (ts ++ t ∷ [])
Exclusive-append [] t h c = (tt, tt)
Exclusive-append (u ∷ ts) t h c =
    (All-append _ ts (t ∷ []) h.0 (c.0, tt), Exclusive-append ts t h.1 c.1)

no_conflicts :
    (r : TenantRequest) (g : Generated) (p : Pair) (ts : List Tenant)
    → (str_eq r.isolation "shared" || not (any (λ t. str_eq t.pair_id p.pair_id) ts)) ≡ true
    → All (λ u. conflicts u (new_tenant r g p) ≡ false) ts
no_conflicts r g p [] h = tt
no_conflicts r g p (t ∷ ts) h = (ground arith, no_conflicts r g p ts (ground arith))

module _ (r : TenantRequest) (g : Generated) (p : Pair) (d : Db) (c : IsConsistent d)
    (fresh : All (λ o. o.operation_id ≢ g.operation_id) d.operations)
    (unknown : any (λ t. str_eq t.tenant_id r.tenant_id) d.tenants ≡ false) (stored : In p d.pairs)
    (free : is_free r.isolation d p ≡ true) (status : Status) (stage : String)
    (idle : is_active status ≡ true → any (λ o. is_active o.status) d.operations ≡ false)
    (equipped : is_succeeded status ≡ true → str_eq p.stage "available" ≡ true) where
  abbrev added : Db
  added = insert_tenant r g p status stage d

  IsOwned-after : All (IsOwned added.tenants) added.operations
  IsOwned-after =
      All-append _ d.operations _
        (All-map _ _ d.operations (λ o h. any-append _ d.tenants _ ∙ rw h refl) c.owned)
        (any-append _ d.tenants _ ∙ rw (unknown, eq_refl), tt)

  placed_after : All (λ t. any (is_at t.pair_id) d.pairs ≡ true) added.tenants
  placed_after =
      All-append _ d.tenants _ c.placed
        (any-true (is_at p.pair_id) p d.pairs stored (eq_refl p.pair_id), tt)

  Exclusive-after : Exclusive added.tenants
  Exclusive-after =
      Exclusive-append d.tenants _ c.exclusive (no_conflicts r g p d.tenants (ground arith))

  one_active_after : count (λ o. is_active o.status) added.operations ≤ 1
  one_active_after = elim (Bool-cases (is_active status)) [
    | inl e ↦
        rw (count-append, count_none (λ o. is_active o.status) d.operations (idle e), e)
          (omega arith)
    | inr e ↦ rw (count-append, e) (omega (arith, c.one_active))
  ]

  ready_before :
      (o : Operation)
      → is_ready d.tenants d.pairs o ≡ true
      → is_ready added.tenants d.pairs o ≡ true
  ready_before o h = elim (Option-cases (find (λ t. str_eq t.tenant_id o.tenant_id) d.tenants)) [
    | inl e ↦ ground arith
    | inr (t, e) ↦
        rw (find-append (λ t. str_eq t.tenant_id o.tenant_id) d.tenants _ e, is_ready)
          (rw (e, is_ready) at h)
  ]

  ready_new :
      is_succeeded status ≡ true
      → is_ready added.tenants d.pairs (new_operation r g status stage) ≡ true
  ready_new h =
      let none_found = find-none (λ t. str_eq t.tenant_id r.tenant_id) d.tenants unknown in
      rw (find-append_none (λ t. str_eq t.tenant_id r.tenant_id) d.tenants _ none_found, is_ready)
        (rw (eq_refl, is_ready)
          (any-true (is_available_at p.pair_id) p d.pairs stored (rw (eq_refl, equipped h))))

  pub IsConsistent-insert_tenant : IsConsistent added
  IsConsistent-insert_tenant = record {
    keyed = Keyed-append d.operations _ c.keyed fresh;
    owned = IsOwned-after;
    placed = placed_after;
    one_active = one_active_after;
    exclusive = Exclusive-after;
    ready =
        All-append _ d.operations _
          (All-map _ _ d.operations (λ o h t. ready_before o (h t)) c.ready) (ready_new, tt);
  }
