-- ===== src/Admission/Replies.antt =====
-- How POST /tenants ends on any connection, where capacity is provisioned on demand.
use radius_todolist_app.Prelude.{String, ◌≡◌, ◌⊎◌, Bool, none, [], ◌∷◌, ◌++◌, ◌+◌, In}
use radius_todolist_app.Error.{Result, ok, err, http}
use radius_todolist_app.Session.{Session}
use radius_todolist_app.Tables.{Status, pending, running, Tenant, Pair, Operation, Db}
use radius_todolist_app.Admission.{TenantRequest, Generated, Reply, accepted, duplicate}
use radius_todolist_app.Admission.Choice.{IsOrder, IsFree, IsChoice}

abbrev IsActive : Status → Type 0
IsActive status = (status ≡ pending) ⊎ (status ≡ running)

-- There is a tenant with the key.
abbrev pub IsKnown : String → Db → Type 0
IsKnown id d = (t : Tenant) × In t d.tenants × (t.tenant_id ≡ id)

-- An operation is pending or running.
abbrev pub IsBusy : Db → Type 0
IsBusy d = (o : Operation) × In o d.operations × IsActive o.status

-- The tenant on the pair, its pending operation and one event have been added.
abbrev pub Accepts : TenantRequest → Generated → Pair → Db → Db → Type 0
Accepts r g p d d' =
    (d'.tenants
      ≡ d.tenants
        ++ record {
          tenant_id = r.tenant_id;
          onboarding_id = g.onboarding_id;
          isolation = r.isolation;
          pair_id = p.pair_id;
          initial_message = r.initial_message;
          desired_revision = 1;
        }
          ∷ [])
    × (d'.operations
        ≡ d.operations
          ++ record {
            operation_id = g.operation_id;
            tenant_id = r.tenant_id;
            status = pending;
            stage = "accepted";
            error_code = none;
            created_at = g.created_at;
          }
            ∷ [])
    × (d'.events
        ≡ d.events
          ++ record {
            event_id = d.next_event_id;
            tenant_id = r.tenant_id;
            onboarding_id = g.onboarding_id;
            pair_id = p.pair_id;
            source = "management";
            type = "tenant_requested";
            version = 1;
            error_code = none;
            stage = none;
          }
            ∷ [])
    × (d'.next_event_id ≡ d.next_event_id + 1)
    × (d'.pairs ≡ d.pairs)

module _ (collate : String → String → Bool) (order : IsOrder collate) (r : TenantRequest)
    (g : Generated) where
  abbrev pub Replies : Db → Result Reply × Db → Type 0
  Replies d (answer, d') =
      ((answer ≡ ok (duplicate r.tenant_id)) × IsKnown r.tenant_id d × (d' ≡ d))
      ⊎ ((answer ≡ err (http 503 "provisioner_busy"))
          × (¬ IsKnown r.tenant_id d)
          × IsBusy d
          × (d' ≡ d))
      ⊎ ((answer ≡ err (http 503 "allocation_unavailable"))
          × (¬ IsKnown r.tenant_id d)
          × (¬ IsBusy d)
          × ((p : Pair) → In p d.pairs → ¬ IsFree collate order r.isolation d p)
          × (d' ≡ d))
      ⊎ ((p : Pair) × (answer ≡ ok (accepted r.tenant_id g.operation_id))
          × (¬ IsKnown r.tenant_id d)
          × (¬ IsBusy d)
          × IsChoice collate order r.isolation d p
          × Accepts r g p d d')
