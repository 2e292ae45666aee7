-- ===== src/Admission/Reachable.antt =====
-- The clients of the management API and the provisioner, one call at a time in any order, each over
-- a connection that may fail at any round trip.
use radius_todolist_app.Prelude.{
  String, ◌≡◌, ◌≢◌, refl, ◌⊎◌, inl, inr, Bool, List, arith, str_eq, Bool-cases, Option-cases, any,
  select, All, In-select,
}
use radius_todolist_app.Error.{Result}
use radius_todolist_app.Session.{Session, Fate, quiet, execute, transaction}
use radius_todolist_app.Session.Steady.{Steady-execute, Atomic-transaction, transaction-execute}
use radius_todolist_app.Tables.{pending, succeeded, Db, is_active}
use radius_todolist_app.Operations.Lifecycle.{Call, perform}
use radius_todolist_app.Admission.{
  TenantRequest, Generated, least_pair, is_free, is_free_and_available, accept_tenant,
  accept_prepared, create_tenant,
}
use radius_todolist_app.Admission.Consistency.{IsConsistent}
use radius_todolist_app.Admission.Consistency.Calls.{perform-IsConsistent}
use radius_todolist_app.Admission.Consistency.Accepts.{least_pair-In, IsConsistent-insert_tenant}

-- A generated uuid is no operation's yet.
abbrev pub IsFresh : Generated → Db → Type 0
IsFresh g d = All (λ o. o.operation_id ≢ g.operation_id) d.operations

-- An INSERT of an event leaves what consistency is about alone.
same_rows :
    {d d' : Db}
    → d'.operations ≡ d.operations
    → d'.tenants ≡ d.tenants
    → d'.pairs ≡ d.pairs
    → IsConsistent d
    → IsConsistent d'
same_rows p q s c = record {
  keyed = rw p c.keyed;
  owned = rw (p, q) c.owned;
  placed = rw (q, s) c.placed;
  one_active = rw p c.one_active;
  exclusive = rw q c.exclusive;
  ready = rw (p, q, s) c.ready;
}

module _ (collate : String → String → Bool) (r : TenantRequest) (g : Generated) where
  accept_tenant-IsConsistent :
      (d : Db) → IsFresh g d → IsConsistent d → IsConsistent (accept_tenant collate r g d).1
  unfolding accept_tenant
  accept_tenant-IsConsistent d fresh c =
      elim (Bool-cases (any (λ t. str_eq t.tenant_id r.tenant_id) d.tenants)) [
        | inl e ↦ rw e c
        | inr unknown ↦ elim (Bool-cases (any (λ o. is_active o.status) d.operations)) [
          | inl e ↦ rw (unknown, e) c
          | inr idle ↦
              elim (Option-cases (least_pair collate (select (is_free r.isolation d) d.pairs))) [
                | inl e ↦ rw (unknown, idle, e) c
                | inr (p, e) ↦
                    let (stored, free) =
                      In-select (is_free r.isolation d) p d.pairs (least_pair-In collate _ e) in
                    rw (unknown, idle, e)
                      (same_rows refl refl refl (
                        IsConsistent-insert_tenant r g p d c fresh unknown stored free pending
                          "accepted" (λ _. idle) (λ x. cc)))
              ]
        ]
      ]

  accept_prepared-IsConsistent :
      (d : Db) → IsFresh g d → IsConsistent d → IsConsistent (accept_prepared collate r g d).1
  unfolding accept_prepared
  accept_prepared-IsConsistent d fresh c =
      elim (Bool-cases (any (λ t. str_eq t.tenant_id r.tenant_id) d.tenants)) [
        | inl e ↦ rw e c
        | inr unknown ↦
            elim (Option-cases
              (least_pair collate (select (is_free_and_available r.isolation d) d.pairs))) [
                | inl e ↦ rw (unknown, e) c
                | inr (p, e) ↦
                    let (stored, both) =
                      In-select (is_free_and_available r.isolation d) p d.pairs
                        (least_pair-In collate _ e) in
                    rw (unknown, e)
                      (same_rows refl refl refl (
                        IsConsistent-insert_tenant r g p d c fresh unknown stored (ground arith)
                          succeeded "available" (λ x. cc) (λ _. ground arith)))
              ]
      ]

-- `create_tenant` over any connection leaves the tables as they were, or as the database's
-- function leaves them.
create_tenant-all_or_nothing :
    (accept : Db → Result String × Db) (r : TenantRequest) (s : Session Db)
    → ((create_tenant accept r s).1.db ≡ s.db)
      ⊎ ((create_tenant accept r s).1.db ≡ (transaction (execute accept) (quiet s.db)).1.db)
unfolding create_tenant
create_tenant-all_or_nothing accept r s =
    (Atomic-transaction (execute accept) (Steady-execute accept)).all_or_nothing s

create_tenant-IsConsistent :
    (accept : Db → Result String × Db) (r : TenantRequest) (s : Session Db)
    → IsConsistent (accept s.db).1
    → IsConsistent s.db
    → IsConsistent (create_tenant accept r s).1.db
create_tenant-IsConsistent accept r s after before =
    elim (create_tenant-all_or_nothing accept r s) [
      | inl same ↦ rw same before
      | inr same ↦ rw same (elim (transaction-execute accept s.db) [
        | inl rolled_back ↦ rw rolled_back before
        | inr done ↦ rw done after
      ])
    ]

-- One call, by a client of the API or by the provisioner.
pub data Step (s : Session Db) (d' : Db) : Type 0 where
  creates :
      (collate : String → String → Bool) (r : TenantRequest) (g : Generated)
      → IsFresh g s.db
      → d' ≡ (create_tenant (accept_tenant collate r g) r s).1.db
      → Step s d'
  creates_prepared :
      (collate : String → String → Bool) (r : TenantRequest) (g : Generated)
      → IsFresh g s.db
      → d' ≡ (create_tenant (accept_prepared collate r g) r s).1.db
      → Step s d'
  calls : (c : Call) → d' ≡ (perform c s).db → Step s d'

-- Each call has a connection of its own, or goes on with one that has failed before.
pub data Reach (d : Db) : Db → Type 0 where
  here : Reach d d
  next :
      {d₁ d₂ : Db} (fates : List Fate)
      → Reach d d₁
      → Step (record { db = d₁; fates = fates }) d₂
      → Reach d d₂

Step-IsConsistent : {d' : Db} (s : Session Db) → Step s d' → IsConsistent s.db → IsConsistent d'
Step-IsConsistent s (creates collate r g fresh e) c =
    rw e (create_tenant-IsConsistent _ r s (accept_tenant-IsConsistent collate r g s.db fresh c) c)
Step-IsConsistent s (creates_prepared collate r g fresh e) c =
    rw e
      (create_tenant-IsConsistent _ r s (accept_prepared-IsConsistent collate r g s.db fresh c) c)
Step-IsConsistent s (calls call e) c = rw e (perform-IsConsistent call s c)

-- Consistent tables stay consistent through any sequence of calls of POST /tenants, with either
-- admission function and a generated operation id that no row has, and of the four methods of
-- `OperationStore`, with any failures of their connections: keys are unique and found, at most one
-- operation is active, of two tenants on one pair one is shared, and the pair of a succeeded
-- operation is available.
pub Reach-IsConsistent : {d d' : Db} → IsConsistent d → Reach d d' → IsConsistent d'
Reach-IsConsistent c here = c
Reach-IsConsistent c (next {d₁ = d₁} fates r st) =
    Step-IsConsistent (record { db = d₁; fates = fates }) st (Reach-IsConsistent c r)
