-- ===== src/Admission/Consistency/Calls.antt =====
-- A provisioner's calls keep the tables consistent, whatever becomes of the connection.
use radius_todolist_app.Prelude.{
  String, ◌≡◌, refl, ◌∙◌, inl, inr, true, false, Option, none, List, [], ◌∷◌, arith, str_eq,
  Bool-cases, Option-cases, any, find, update_where, All, All-find, All-of_In, All-map,
}
use radius_todolist_app.Session.{Session, quiet}
use radius_todolist_app.Session.Steady.{run}
use radius_todolist_app.Tables.{
  Status, running, succeeded, Tenant, Pair, Operation, Db, is_active, is_running,
}
use radius_todolist_app.Operations.{
  set_available, set_observed, interrupt_running, claim_pending, observe, complete,
}
use radius_todolist_app.Operations.Keys.{
  locked_row_found, locked_row_tenant, has_id, find-In, Keyed-update_where, IsOwned-update_where,
}
use radius_todolist_app.Operations.Snapshot.{stop}
use radius_todolist_app.Operations.Interrupt.{interrupt_running_quiet}
use radius_todolist_app.Operations.Claim.{claim_quiet}
use radius_todolist_app.Operations.Outcome.{IsObservable, observe_quiet, complete_quiet}
use radius_todolist_app.Operations.Lifecycle.{
  Call, interrupt, claim_next, observes, completes, perform, perform-all_or_nothing,
}
use radius_todolist_app.Admission.Consistency.{
  is_succeeded, is_at, is_available_at, is_ready, IsConsistent,
}
use radius_todolist_app.Admission.Consistency.Updates.{
  count_active-update_where, All-has_id, IsConsistent-update,
}

interrupt-IsConsistent : (d : Db) → IsConsistent d → IsConsistent (run interrupt_running d).1
interrupt-IsConsistent d c =
    let stops = interrupt_running_quiet d c.keyed c.owned in
    IsConsistent-update (λ o. is_running o.status) stop d (λ o. refl) (λ o. refl) (λ o. refl) c
      (All-of_In _ d.operations (λ o m t. ground arith)) stops.1 stops.3 stops.4

claim-IsConsistent : (d : Db) → IsConsistent d → IsConsistent (run claim_pending d).1
claim-IsConsistent d c = elim (claim_quiet d c.keyed c.owned) [
  | inl (_, _, same) ↦ rw same c
  | inr (row, stored, waits, old, joined, claimed) ↦
      IsConsistent-update (has_id row.operation.operation_id) (set_observed running "starting" none)
        d (λ o. refl) (λ o. refl) (λ o. refl) c
        (All-has_id (λ o. is_active o.status ≡ true) row.operation.operation_id d.operations c.keyed
          (find-In row.operation d.operations c.keyed stored) (ground arith))
        claimed.1 claimed.3 claimed.4
]

IsObservable-unfinished :
    (status : Status) (error_code : Option String)
    → IsObservable status error_code
    → is_succeeded status ≡ false
IsObservable-unfinished succeeded error_code h = absurd h
IsObservable-unfinished status error_code h = refl

observe-IsConsistent :
    (id stage : String) (status : Status) (error_code : Option String) (d : Db)
    → IsConsistent d
    → IsConsistent (run (observe id stage status error_code) d).1
observe-IsConsistent id stage status error_code d c =
    elim (observe_quiet id stage status error_code d) [
      | inr (inl (_, _, _, _, _, _, same)) ↦ rw same c
      | inr (inr (e, _, same, _)) ↦ rw same c
      | inl (row, joined, fits, _, inl (_, same)) ↦ rw same c
      | inl (row, joined, fits, _, inr (recorded, same_pairs, _)) ↦
          let (found, key) = locked_row_found id d joined in
          IsConsistent-update (has_id row.operation.operation_id)
            (set_observed status stage error_code) d (λ o. refl) (λ o. refl)
            (λ o. IsObservable-unfinished status error_code fits) c
            (rw key (
              All-has_id (λ o. is_active o.status ≡ true) id d.operations c.keyed found
                (ground (arith, recorded.0))))
            recorded.1 recorded.3 same_pairs
    ]

abbrev made_available : String → List Pair → List Pair
made_available id ps = update_where (λ p. str_eq p.pair_id id) set_available ps

any-is_at-made_available :
    (id j : String) (ps : List Pair) → any (is_at j) (made_available id ps) ≡ any (is_at j) ps
any-is_at-made_available id j [] = refl
any-is_at-made_available id j (p ∷ ps) = ground (arith, any-is_at-made_available id j ps)

is_available_at-made_available :
    (id : String) (ps : List Pair)
    → any (is_at id) ps ≡ true
    → any (is_available_at id) (made_available id ps) ≡ true
is_available_at-made_available id [] h = cc
is_available_at-made_available id (p ∷ ps) h = elim (Bool-cases (str_eq p.pair_id id)) [
  | inl e ↦ rw e (rw e (ground arith))
  | inr e ↦ rw e (ground (arith, is_available_at-made_available id ps))
]

still_available :
    (id j : String) (ps : List Pair)
    → any (is_available_at j) ps ≡ true
    → any (is_available_at j) (made_available id ps) ≡ true
still_available id j [] h = cc
still_available id j (p ∷ ps) h = elim (Bool-cases (str_eq p.pair_id id)) [
  | inl e ↦ rw e (ground (arith, still_available id j ps))
  | inr e ↦ rw e (ground (arith, still_available id j ps))
]

is_ready-made_available :
    (id : String) (ts : List Tenant) (ps : List Pair) (o : Operation)
    → is_ready ts ps o ≡ true
    → is_ready ts (made_available id ps) o ≡ true
is_ready-made_available id ts ps o h =
    elim (Option-cases (find (λ t. str_eq t.tenant_id o.tenant_id) ts)) [
      | inl e ↦ ground arith
      | inr (t, e) ↦ rw (e, is_ready) (still_available id t.pair_id ps (rw (e, is_ready) at h))
    ]

abbrev Ready : List Tenant → List Pair → Operation → Type 0
Ready ts ps o = is_succeeded o.status ≡ true → is_ready ts ps o ≡ true

Ready-complete :
    (i id : String) (ts : List Tenant) (ps : List Pair) (os : List Operation)
    → All (Ready ts ps) os
    → All (λ o. has_id i o ≡ true → is_ready ts (made_available id ps) o ≡ true) os
    → All
        (Ready ts (made_available id ps))
        (update_where (has_id i) (set_observed succeeded "available" none) os)
Ready-complete i id ts ps [] h m = tt
Ready-complete i id ts ps (o ∷ os) h m = elim (Bool-cases (has_id i o)) [
  | inl e ↦ rw e ((λ _. m.0 e), Ready-complete i id ts ps os h.1 m.1)
  | inr e ↦
      rw e ((λ t. is_ready-made_available id ts ps o (h.0 t)), Ready-complete i id ts ps os h.1 m.1)
]

complete-IsConsistent :
    (id : String) (d : Db) → IsConsistent d → IsConsistent (run (complete id) d).1
complete-IsConsistent id d c = elim (complete_quiet id d) [
  | inr (inl (row, _, _, _, same)) ↦ rw same c
  | inr (inr (_, _, same)) ↦ rw same c
  | inl (row, joined, _, recorded, pairs) ↦
      let (found, key) = locked_row_found id d joined in
      let tenant = locked_row_tenant id d joined in
      let rows = rw key at recorded.1 in
      let pair = row.tenant.pair_id in
      let change = set_observed succeeded "available" none in
      let made_ready : is_ready d.tenants (made_available pair d.pairs) row.operation ≡ true =
        rw (tenant, is_ready)
          (is_available_at-made_available pair d.pairs
            (All-find (λ t. any (is_at t.pair_id) d.pairs ≡ true) _ d.tenants c.placed tenant)) in
      record {
        keyed = rw rows (Keyed-update_where (has_id id) change (λ o. refl) d.operations c.keyed);
        owned =
            rw (rows, recorded.3)
              (IsOwned-update_where (has_id id) change d.tenants d.operations (λ o. refl) c.owned);
        placed =
            rw (recorded.3, pairs)
              (All-map _ _ d.tenants (λ t h. any-is_at-made_available pair t.pair_id d.pairs ∙ h)
                c.placed);
        one_active = rw rows (
            omega (
              arith,
              count_active-update_where (has_id id) change d.operations (
                  All-has_id (λ o. is_active o.status ≡ true) id d.operations c.keyed found
                    (ground (arith, recorded.0))),
              c.one_active,
            ));
        exclusive = rw recorded.3 c.exclusive;
        ready =
            rw (rows, recorded.3, pairs)
              (Ready-complete id pair d.tenants d.pairs d.operations c.ready (
                All-has_id (λ o. is_ready d.tenants (made_available pair d.pairs) o ≡ true) id
                  d.operations c.keyed found made_ready));
      }
]

quiet-IsConsistent : (c : Call) (d : Db) → IsConsistent d → IsConsistent (perform c (quiet d)).db
unfolding perform
quiet-IsConsistent interrupt d h = interrupt-IsConsistent d h
quiet-IsConsistent claim_next d h = claim-IsConsistent d h
quiet-IsConsistent (observes id stage status error_code) d h =
    observe-IsConsistent id stage status error_code d h
quiet-IsConsistent (completes id) d h = complete-IsConsistent id d h

-- Any call of the four methods keeps the tables consistent, on any connection.
pub perform-IsConsistent :
    (c : Call) (s : Session Db) → IsConsistent s.db → IsConsistent (perform c s).db
perform-IsConsistent c s h = elim (perform-all_or_nothing c s) [
  | inl same ↦ rw same h
  | inr same ↦ rw same (quiet-IsConsistent c s.db h)
]
