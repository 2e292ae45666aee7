-- ===== src/Admission/Consistency.antt =====
-- What holds of the management tables between any two calls.
pub mod Updates
pub mod Calls
pub mod Accepts
use radius_todolist_app.Prelude.{
  ℕ, ◌≤◌, String, ◌≡◌, Bool, true, false, none, some, List, [], ◌∷◌, str_eq, ◌&&◌, not, count, any,
  find, All,
}
use radius_todolist_app.Tables.{Status, succeeded, Tenant, Pair, Operation, Db, is_active}
use radius_todolist_app.Operations.Keys.{Keyed, IsOwned}

abbrev pub is_succeeded : Status → Bool
is_succeeded succeeded = true
is_succeeded _ = false

abbrev pub is_at : String → Pair → Bool
is_at id p = str_eq p.pair_id id

abbrev pub is_available_at : String → Pair → Bool
is_available_at id p = str_eq p.pair_id id && str_eq p.stage "available"

-- The pair of the operation's tenant is available.
abbrev pub is_ready : List Tenant → List Pair → Operation → Bool
is_ready ts ps o = elim (find (λ t. str_eq t.tenant_id o.tenant_id) ts) [
  | none ↦ false
  | some t ↦ any (is_available_at t.pair_id) ps
]

-- Two tenants of which neither is shared are on one pair.
abbrev pub conflicts : Tenant → Tenant → Bool
conflicts t u =
    not (str_eq t.isolation "shared")
    && not (str_eq u.isolation "shared")
    && str_eq t.pair_id u.pair_id

abbrev pub Exclusive : List Tenant → Type 0
Exclusive [] = Unit
Exclusive (t ∷ ts) = All (λ u. conflicts t u ≡ false) ts × Exclusive ts

pub record IsConsistent (d : Db) : Type 0 where
  -- PRIMARY KEY of operations
  pub keyed : Keyed d.operations
  -- operations REFERENCES tenants
  pub owned : All (IsOwned d.tenants) d.operations
  -- tenants REFERENCES pairs
  pub placed : All (λ t. any (is_at t.pair_id) d.pairs ≡ true) d.tenants
  -- UNIQUE INDEX one_active_operation
  pub one_active : count (λ o. is_active o.status) d.operations ≤ 1
  -- UNIQUE INDEX isolated_pair_assignment
  pub exclusive : Exclusive d.tenants
  -- a succeeded operation has its infrastructure
  pub ready :
      All (λ o. is_succeeded o.status ≡ true → is_ready d.tenants d.pairs o ≡ true) d.operations
