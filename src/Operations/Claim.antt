-- ===== src/Operations/Claim.antt =====
-- What `OperationStore.claim_pending` hands to the provisioner.
use mathlib.Core.Option.{some-injective}
use mathlib.Core.Path.{subst}
use radius_todolist_app.Prelude.{
  ◌≡◌, ◌≢◌, refl, sym, ◌∙◌, ◌⊎◌, inl, inr, true, Option, none, some, ◌≤◌, List, [], ◌∷◌, ◌++◌,
  arith, leb, Bool-cases, Option-cases, first, select, update_where, All, All-In, All-map,
  All-of_In, In, In-select,
}
use radius_todolist_app.Error.{Result, ok}
use radius_todolist_app.Session.{Session, connection_failed, transaction, execute, ◌>>=◌}
use radius_todolist_app.Session.Steady.{run}
use radius_todolist_app.Tables.{running, Operation, Db, is_pending}
use radius_todolist_app.Operations.{
  PendingOperation, Row, locked_row, locked, order_by_created, insert_by_created, claim,
  claim_pending, oldest_pending,
}
use radius_todolist_app.Operations.Atomicity.{methods-Atomic}
use radius_todolist_app.Operations.Keys.{
  has_id, Keyed, IsOwned, find-In, any_of_In, locked_row_of_any, In-order_by_created,
}

-- No row of the list is older.
abbrev pub IsOldest : Operation → List Operation → Type 0
IsOldest o os = All (λ p. o.created_at ≤ p.created_at) os

abbrev IsSorted : List Operation → Type 0
IsSorted [] = Unit
IsSorted (o ∷ os) = IsOldest o os × IsSorted os

All-insert_by_created :
    (P : Operation → Type 0) (p : Operation) (os : List Operation)
    → P p
    → All P os
    → All P (insert_by_created p os)
unfolding insert_by_created
All-insert_by_created P p [] h hs = (h, tt)
All-insert_by_created P p (q ∷ os) h hs = elim (Bool-cases (leb p.created_at q.created_at)) [
  | inl e ↦ rw e (h, hs)
  | inr e ↦ rw e (hs.0, All-insert_by_created P p os h hs.1)
]

IsSorted-insert_by_created :
    (p : Operation) (os : List Operation) → IsSorted os → IsSorted (insert_by_created p os)
unfolding insert_by_created
IsSorted-insert_by_created p [] h = (tt, tt)
IsSorted-insert_by_created p (q ∷ os) h = elim (Bool-cases (leb p.created_at q.created_at)) [
  | inl e ↦
      let le : p.created_at ≤ q.created_at = ground arith in
      rw e ((le, All-map _ _ os (λ x l. omega arith) h.0), h)
  | inr e ↦ rw e (
    All-insert_by_created (λ x. q.created_at ≤ x.created_at) p os (ground arith) h.0,
    IsSorted-insert_by_created p os h.1,
  )
]

IsSorted-order_by_created : (os : List Operation) → IsSorted (order_by_created os)
unfolding order_by_created
IsSorted-order_by_created [] = tt
IsSorted-order_by_created (o ∷ os) =
    IsSorted-insert_by_created o (order_by_created os) (IsSorted-order_by_created os)

first-IsOldest :
    (os : List Operation) {o : Operation}
    → IsSorted os
    → first os ≡ some o
    → In o os × IsOldest o os
first-IsOldest [] h e = cc
first-IsOldest (p ∷ os) {o} h e =
    let q : p ≡ o = ground arith in (inl (sym q), (ground arith, subst (λ x. IsOldest x os) q h.0))

-- The row that `claim_pending` picks.
pub oldest_pending_lem :
    (d : Db) {o : Operation}
    → oldest_pending d ≡ some o
    → In o d.operations
      × (is_pending o.status ≡ true)
      × IsOldest o (select (λ p. is_pending p.status) d.operations)
oldest_pending_lem d {o} h =
    let waiting = select (λ (p : Operation). is_pending p.status) d.operations in
    let (m, old) =
      first-IsOldest (order_by_created waiting) (IsSorted-order_by_created waiting) h in
    let (stored, waits) =
      In-select (λ p. is_pending p.status) o d.operations ((In-order_by_created o waiting).0 m) in
    (
      stored,
      waits,
      All-of_In _ waiting (λ p n.
          All-In (λ q. o.created_at ≤ q.created_at) p (order_by_created waiting) old
            ((In-order_by_created p waiting).1 n)),
    )

first-insert_by_created :
    (o : Operation) (os : List Operation) → first (insert_by_created o os) ≢ none
unfolding insert_by_created
first-insert_by_created o [] h = cc
first-insert_by_created o (p ∷ os) h = ground arith

first-order_by_created : (os : List Operation) → first (order_by_created os) ≡ none → os ≡ []
unfolding order_by_created
first-order_by_created [] h = refl
first-order_by_created (o ∷ os) h = absurd (first-insert_by_created o (order_by_created os) h)

no_oldest_pending :
    (d : Db) → oldest_pending d ≡ none → select (λ p. is_pending p.status) d.operations ≡ []
no_oldest_pending d h = first-order_by_created _ h

-- The tables after a claim of a row.
abbrev pub Claimed : Db → Row → Result (Option PendingOperation) × Db → Type 0
Claimed d row (r, d') =
    (r
      ≡ ok (
          some (record {
            operation_id = row.operation.operation_id;
            tenant_id = row.tenant.tenant_id;
            onboarding_id = row.tenant.onboarding_id;
            pair_id = row.tenant.pair_id;
            isolation = row.tenant.isolation;
            initial_message = row.tenant.initial_message;
          })))
    × (d'.operations
        ≡ update_where (has_id row.operation.operation_id)
            (λ o. record o { status = running; stage = "starting"; error_code = none })
            d.operations)
    × (d'.events
        ≡ d.events
          ++ record {
            event_id = d.next_event_id;
            tenant_id = row.tenant.tenant_id;
            onboarding_id = row.tenant.onboarding_id;
            pair_id = row.tenant.pair_id;
            source = "provisioner";
            type = "provisioning_stage";
            version = 1;
            error_code = none;
            stage = some "starting";
          }
            ∷ [])
    × (d'.tenants ≡ d.tenants)
    × (d'.pairs ≡ d.pairs)

-- No operation waits and nothing is done, or the oldest of those that wait is claimed.
abbrev pub Claims : Db → Result (Option PendingOperation) × Db → Type 0
Claims d (r, d') =
    ((select (λ p. is_pending p.status) d.operations ≡ []) × (r ≡ ok none) × (d' ≡ d))
    ⊎ ((row : Row) × In row.operation d.operations
        × (is_pending row.operation.status ≡ true)
        × IsOldest row.operation (select (λ p. is_pending p.status) d.operations)
        × (locked_row row.operation.operation_id d ≡ some row)
        × Claimed d row (r, d'))

claim_row :
    (d : Db) (o : Operation) (row : Row)
    → oldest_pending d ≡ some o
    → locked_row o.operation_id d ≡ some row
    → Claimed d row (run claim_pending d)
unfolding claim_pending claim transaction execute ◌>>=◌
claim_row d o row h e = rw (h, locked) (rw e (refl, refl, refl, refl, refl))

pub claim_quiet :
    (d : Db)
    → Keyed d.operations
    → All (IsOwned d.tenants) d.operations
    → Claims d (run claim_pending d)
unfolding claim_pending claim transaction execute ◌>>=◌
claim_quiet d k owned = elim (Option-cases (oldest_pending d)) [
  | inl e ↦ inl (no_oldest_pending d e, rw e, rw e)
  | inr (o, e) ↦
      let (stored, waits, old) = oldest_pending_lem d e in
      let (row, joined, found, key) =
        locked_row_of_any o.operation_id d (any_of_In o d.operations stored) owned in
      let same : some row.operation ≡ some o = sym found ∙ find-In o d.operations k stored in
      let is_o : row.operation ≡ o = some-injective row.operation o same in
      inr (
        row,
        rw is_o stored,
        rw is_o waits,
        rw is_o old,
        rw is_o joined,
        claim_row d o row e joined,
      )
]

-- From tables whose keys are in order, `claim_pending` reports a failed connection; or no operation
-- is pending, it returns `None` and changes nothing; or it returns the oldest pending operation,
-- with its tenant's fields, and has made it running in the stage "starting", recorded one event for
-- it, and changed no other row, tenant or pair.
pub claim_pending_oldest :
    (s : Session Db)
    → Keyed s.db.operations
    → All (IsOwned s.db.tenants) s.db.operations
    → let (r, s') = claim_pending s in (r ≡ connection_failed) ⊎ Claims s.db (r, s'.db)
claim_pending_oldest s k owned = elim (methods-Atomic.1.steady.at s) [
  | inl failed_connection ↦ inl failed_connection
  | inr (same_result, same_tables) ↦ inr (rw (same_result, same_tables) (claim_quiet s.db k owned))
]
