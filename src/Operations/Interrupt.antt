-- ===== src/Operations/Interrupt.antt =====
-- `OperationStore.interrupt_running` on an undisturbed connection.
use radius_todolist_app.Prelude.{
  ℕ, String, ◌≡◌, refl, sym, ap, ◌∙◌, ◌⊎◌, inl, inr, Bool, true, some, List, [], ◌∷◌, ◌++◌, arith,
  eq_iff, Bool-cases, length, any, find, update_where, count, All, All-of_In, All-map, In,
  select-In,
}
use radius_todolist_app.Error.{Result, ok}
use radius_todolist_app.Session.{Session, quiet, connection_failed, transaction, ◌>>=◌, execute}
use radius_todolist_app.Session.Steady.{run}
use radius_todolist_app.Tables.{Operation, Event, Db, insert_event, interrupted, is_running}
use radius_todolist_app.Operations.{
  Row, record_observation, update_operation, observation, set_observed, locked_row, interrupt_each,
  interrupt_running,
}
use radius_todolist_app.Operations.Atomicity.{methods-Atomic}
use radius_todolist_app.Operations.Checks.{admits_literals}
use radius_todolist_app.Operations.Snapshot.{
  stop, listed, snapshot, In-of_snapshot, listed-snapshot, update_where-congr, length-snapshot,
  none_running_after,
}
use radius_todolist_app.Operations.Told.{
  Tells, Told, Kept, Kept-update_where, Tells-observation, length-Told, Told-event, Told-operation,
}
use mathlib.Core.List.{append-nil, append_assoc}
use radius_todolist_app.Operations.Keys.{
  has_id, Keyed, IsOwned, locked_row_of_any, IsOwned-update_where, find-In, update_where_absent,
  In-order_by_created, Keyed-update_where,
}

update_found :
    (id : String) (os : List Operation) {o : Operation}
    → Keyed os
    → find (has_id id) os ≡ some o
    → update_where (has_id id) (set_observed interrupted o.stage (some "provisioner_restarted")) os
      ≡ update_where (has_id id) stop os
update_found id [] k h = refl
update_found id (p ∷ os) {o} k h = elim (Bool-cases (has_id id p)) [
  | inl e ↦ ground (
    arith,
    eq_iff p.operation_id id,
    update_where_absent (set_observed interrupted o.stage (some "provisioner_restarted"))
        p.operation_id os k.0,
    update_where_absent stop p.operation_id os k.0,
  )
  | inr e ↦ ground (arith, update_found id os {o = o} k.1)
]

update_both :
    (p : Operation) (ps os : List Operation)
    → update_where (listed ps) stop (update_where (has_id p.operation_id) stop os)
      ≡ update_where (listed (p ∷ ps)) stop os
update_both p ps [] = refl
update_both p ps (o ∷ os) = ground (arith, update_both p ps os)

any_of_found :
    (id : String) (os : List Operation) {o : Operation}
    → find (has_id id) os ≡ some o
    → any (has_id id) os ≡ true
any_of_found id [] h = cc
any_of_found id (p ∷ os) {o} h = ground (arith, any_of_found id os {o = o})

-- What `interrupt_each` does from tables whose keys are in order.
record Interrupted (os : List Operation) (d : Db) (r : Result (Unit {0}) × Session Db)
    : Type 0 where
  done : r.0 ≡ ok tt
  rows : r.1.db.operations ≡ update_where (listed os) stop d.operations
  same_tenants : r.1.db.tenants ≡ d.tenants
  same_pairs : r.1.db.pairs ≡ d.pairs
  new : List Event
  appended : r.1.db.events ≡ d.events ++ new
  told : Told d.tenants os new
  quiet_after : r.1.fates ≡ []

-- The tables after the loop's body has run for one row.
abbrev stopped : Row → Db → Db
stopped row d =
    insert_event (observation row interrupted row.operation.stage (some "provisioner_restarted"))
      (record d {
        operations =
            update_where (has_id row.operation.operation_id)
              (set_observed interrupted row.operation.stage (some "provisioner_restarted"))
              d.operations;
      })

interrupt_each_step :
    (o : Operation) (os : List Operation) (d : Db) {row : Row}
    → locked_row o.operation_id d ≡ some row
    → interrupt_each (o ∷ os) (quiet d) ≡ interrupt_each os (quiet (stopped row d))
unfolding interrupt_each ◌>>=◌ execute record_observation update_operation
interrupt_each_step o os d {row} h = rw (h, (admits_literals row.operation).2) refl

stopped_rows :
    (id : String) (d : Db) (row : Row)
    → Keyed d.operations
    → find (has_id id) d.operations ≡ some row.operation
    → row.operation.operation_id ≡ id
    → (stopped row d).operations ≡ update_where (has_id id) stop d.operations
stopped_rows id d row k found is_id =
    rw is_id (update_found id d.operations {o = row.operation} k found)

update_none : (os : List Operation) → os ≡ update_where (listed []) stop os
update_none [] = refl
update_none (o ∷ os) = ap (λ (r : List Operation). o ∷ r) (update_none os)

interrupt_each_run :
    (os : List Operation) (d : Db)
    → Keyed d.operations
    → All (IsOwned d.tenants) d.operations
    → All (λ p. Kept d.operations p) os
    → Interrupted os d (interrupt_each os (quiet d))
interrupt_each_run [] d k owned h =
    unfold interrupt_each in
    record {
      done = refl;
      rows = update_none d.operations;
      same_tenants = refl;
      same_pairs = refl;
      new = [];
      appended = sym (append-nil d.events);
      told = tt;
      quiet_after = refl;
    }
interrupt_each_run (o ∷ os) d k owned h =
    let (row, joined, found, is_id) =
      locked_row_of_any o.operation_id d (any_of_found o.operation_id d.operations h.0.1) owned in
    let rows = stopped_rows o.operation_id d row k found is_id in
    let by_o : Operation → Bool = has_id o.operation_id in
    let ih =
      interrupt_each_run os (stopped row d)
        (rw rows (Keyed-update_where by_o stop (λ p. refl) d.operations k))
        (rw rows (IsOwned-update_where by_o stop d.tenants d.operations (λ p. refl) owned))
        (rw rows (
          All-map _ _ os
            (λ p kept.
              Kept-update_where by_o stop (λ q. refl) (λ q. refl) (λ q. refl) d.operations p kept)
            h.1)) in
    rw (interrupt_each_step o os d joined) (record {
      done = ih.done;
      rows = ih.rows ∙ ap (update_where (listed os) stop) rows ∙ update_both o os d.operations;
      same_tenants = ih.same_tenants;
      same_pairs = ih.same_pairs;
      new =
          record (observation row interrupted row.operation.stage (some "provisioner_restarted")) {
            event_id = d.next_event_id;
          }
          ∷ ih.new;
      appended = ih.appended ∙ append_assoc d.events _ ih.new;
      told = (Tells-observation d o row d.next_event_id joined h.0, ih.told);
      quiet_after = ih.quiet_after;
    })

abbrev pub Stops : Db → Result ℕ × Db → Type 0
Stops d (r, d') =
    (r ≡ ok (count (λ o. is_running o.status) d.operations))
    × (d'.operations ≡ update_where (λ o. is_running o.status) stop d.operations)
    × (count (λ o. is_running o.status) d'.operations ≡ 0)
    × (d'.tenants ≡ d.tenants)
    × (d'.pairs ≡ d.pairs)
    × ((new : List Event) × (d'.events ≡ d.events ++ new)
        × (length new ≡ count (λ o. is_running o.status) d.operations)
        × ((o : Operation)
            → In o d.operations
            → is_running o.status ≡ true
            → (e : Event) × In e new × Tells d.tenants o e)
        × ((e : Event)
            → In e new
            → (o : Operation) × In o d.operations
              × (is_running o.status ≡ true)
              × Tells d.tenants o e))

pub interrupt_running_quiet :
    (d : Db)
    → Keyed d.operations
    → All (IsOwned d.tenants) d.operations
    → Stops d (run interrupt_running d)
unfolding interrupt_running transaction execute ◌>>=◌
interrupt_running_quiet d k owned =
    let os = snapshot d.operations in
    let ih = interrupt_each_run os d k owned (
      All-of_In _ os
        (λ p m. (p, find-In p d.operations k (In-of_snapshot d.operations k p m).0, refl, refl))) in
    let ends : interrupt_each os (quiet d) ≡ (ok tt, quiet (interrupt_each os (quiet d)).1.db) =
      λ i.
        (ih.done i, record { db = (interrupt_each os (quiet d)).1.db; fates = ih.quiet_after i }) in
    let rows =
      ih.rows
      ∙ update_where-congr (listed os) (λ o. is_running o.status) d.operations
          (listed-snapshot d.operations k) in
    rw ends (
      ap ok (length-snapshot d.operations),
      rows,
      ap (count (λ o. is_running o.status)) rows ∙ none_running_after d.operations,
      ih.same_tenants,
      ih.same_pairs,
      (
        ih.new,
        ih.appended,
        length-Told d.tenants os ih.new ih.told ∙ length-snapshot d.operations,
        (λ o m runs. Told-event d.tenants o os ih.new ih.told (
            (In-order_by_created o _).1
              (select-In (λ p. is_running p.status) o d.operations m runs))),
        (λ e m.
            let (o, there, tells) = Told-operation d.tenants e os ih.new ih.told m in
            let (stored, runs) = In-of_snapshot d.operations k o there in (o, stored, runs, tells)),
      ),
    )

-- From tables whose keys are in order, `interrupt_running` reports a failed connection, or returns
-- the number of running operations, and has interrupted each of them in its stage and changed no
-- other row, tenant or pair: none is running. It has kept the events and appended as many as there
-- were running operations: each of these has one that says "provisioning_interrupted" for its
-- tenant, with its stage and the error "provisioner_restarted", and each new event is such a one.
pub interrupt_running-Stops :
    (s : Session Db)
    → Keyed s.db.operations
    → All (IsOwned s.db.tenants) s.db.operations
    → let (r, s') = interrupt_running s in (r ≡ connection_failed) ⊎ Stops s.db (r, s'.db)
interrupt_running-Stops s k owned = elim (methods-Atomic.0.steady.at s) [
  | inl failed_connection ↦ inl failed_connection
  | inr (same_result, same_tables) ↦
      inr (rw (same_result, same_tables) (interrupt_running_quiet s.db k owned))
]
