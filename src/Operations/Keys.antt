-- ===== src/Operations/Keys.antt =====
-- Primary keys: what an UPDATE by key does to the row that another key finds, and which rows a
-- lookup by key finds.
use radius_todolist_app.Prelude.{
  String, ◌≡◌, ◌≢◌, ◌↔◌, refl, ◌⊎◌, inl, inr, Bool, true, none, some, List, [], ◌∷◌, arith, leb,
  str_eq, eq_iff, eq_refl, if◌then◌else◌, Bool-cases, Option-cases, any, find, update_where, All,
  In, All-In,
}
use radius_todolist_app.Tables.{Tenant, Operation, Db}
use radius_todolist_app.Operations.{
  Row, locked_row, join_tenant, insert_by_created, order_by_created,
}

abbrev pub has_id : String → Operation → Bool
has_id id o = str_eq o.operation_id id

-- No two rows of the table have one `operation_id`.
abbrev pub Keyed : List Operation → Type 0
Keyed [] = Unit
Keyed (o ∷ os) = All (λ p. p.operation_id ≢ o.operation_id) os × Keyed os

-- In a keyed table the key of each row finds that row.
pub find-In :
    (o : Operation) (os : List Operation)
    → Keyed os
    → In o os
    → find (has_id o.operation_id) os ≡ some o
find-In o [] k m = absurd m
find-In o (p ∷ os) k (inl e) = rw (← e, eq_refl) refl
find-In o (p ∷ os) k (inr m) = ground (
  arith,
  eq_iff p.operation_id o.operation_id,
  find-In o os k.1 m,
  All-In (λ q. q.operation_id ≢ p.operation_id) o os k.0 m,
)

module _ (change : Operation → Operation)
    (keeps : (o : Operation) → (change o).operation_id ≡ o.operation_id) where
  -- The row that `j` finds after an UPDATE of the row with key `i`.
  pub find-update_where :
      (i j : String) (os : List Operation)
      → find (has_id j) (update_where (has_id i) change os) ≡ elim (find (has_id j) os) [
        | none ↦ none
        | some o ↦ some (if str_eq i j then change o else o)
      ]
  find-update_where i j [] = refl
  find-update_where i j (o ∷ os) = ground (
    arith,
    eq_iff o.operation_id i,
    eq_iff o.operation_id j,
    eq_iff i j,
    keeps o,
    find-update_where i j os,
  )

In-insert_by_created :
    (o p : Operation) (os : List Operation) → In o (insert_by_created p os) ↔ ((o ≡ p) ⊎ In o os)
unfolding insert_by_created
In-insert_by_created o p [] = (λ m. m, λ m. m)
In-insert_by_created o p (q ∷ os) = elim (Bool-cases (leb p.created_at q.created_at)) [
  | inl e ↦ rw e (λ m. m, λ m. m)
  | inr e ↦ rw e (
    elim [
      | inl x ↦ inr (inl x)
      | inr m ↦ elim ((In-insert_by_created o p os).0 m) [ inl x ↦ inl x | inr y ↦ inr (inr y) ]
    ],
    elim [
      | inl x ↦ inr ((In-insert_by_created o p os).1 (inl x))
      | inr (inl y) ↦ inl y
      | inr (inr y) ↦ inr ((In-insert_by_created o p os).1 (inr y))
    ],
  )
]

module _ (test : Operation → Bool) (change : Operation → Operation)
    (keeps : (o : Operation) → (change o).operation_id ≡ o.operation_id) where
  All-update_where :
      (id : String) (os : List Operation)
      → All (λ p. p.operation_id ≢ id) os
      → All (λ p. p.operation_id ≢ id) (update_where test change os)
  All-update_where id [] h = tt
  All-update_where id (o ∷ os) h = (ground (arith, keeps o), All-update_where id os h.1)

  pub Keyed-update_where : (os : List Operation) → Keyed os → Keyed (update_where test change os)
  Keyed-update_where [] k = tt
  Keyed-update_where (o ∷ os) k = elim (Bool-cases (test o)) [
    | inl e ↦ rw (e, keeps o) (All-update_where o.operation_id os k.0, Keyed-update_where os k.1)
    | inr e ↦ rw e (All-update_where o.operation_id os k.0, Keyed-update_where os k.1)
  ]

-- An UPDATE whose key no row has changes nothing.
pub update_where_absent :
    (change : Operation → Operation) (id : String) (os : List Operation)
    → All (λ p. p.operation_id ≢ id) os
    → update_where (has_id id) change os ≡ os
update_where_absent change id [] h = refl
update_where_absent change id (o ∷ os) h =
    ground (arith, eq_iff o.operation_id id, update_where_absent change id os h.1)

pub find-update_any :
    (test : Operation → Bool) (change : Operation → Operation)
    → ((o : Operation) → (change o).operation_id ≡ o.operation_id)
    → (id : String) (os : List Operation)
    → find (has_id id) (update_where test change os)
      ≡ elim (find (has_id id) os) [ none ↦ none | some o ↦ some (if test o then change o else o) ]
find-update_any test change keeps id [] = refl
find-update_any test change keeps id (o ∷ os) =
    ground (arith, keeps o, find-update_any test change keeps id os)

pub In-order_by_created :
    (o : Operation) (os : List Operation) → In o (order_by_created os) ↔ In o os
unfolding order_by_created
In-order_by_created o [] = (λ m. m, λ m. m)
In-order_by_created o (p ∷ os) =
    let (from, to) = In-insert_by_created o p (order_by_created os) in
    let (from', to') = In-order_by_created o os in
    (
      λ m. elim (from m) [ inl e ↦ inl e | inr r ↦ inr (from' r) ],
      elim [ inl e ↦ to (inl e) | inr r ↦ to (inr (to' r)) ],
    )

-- The foreign key of operations into tenants.
abbrev pub IsOwned : List Tenant → Operation → Type 0
IsOwned ts o = any (λ t. str_eq t.tenant_id o.tenant_id) ts ≡ true

pub find_of_any {ℓ} :
    {A : Type ℓ} (test : A → Bool) (xs : List A)
    → any test xs ≡ true
    → (x : A) × (find test xs ≡ some x) × (test x ≡ true)
find_of_any test [] h = cc
find_of_any test (x ∷ xs) h = elim (Bool-cases (test x)) [
  | inl e ↦ (x, rw e, e)
  | inr e ↦ let (y, found, t) = find_of_any test xs (rw e at h) in (y, rw e found, t)
]

pub find-test {ℓ} :
    {A : Type ℓ} (test : A → Bool) (xs : List A) {x : A} → find test xs ≡ some x → test x ≡ true
find-test test [] h = cc
find-test test (y ∷ xs) {x} h = ground (arith, find-test test xs {x = x})

pub any_of_In :
    (o : Operation) (os : List Operation) → In o os → any (has_id o.operation_id) os ≡ true
any_of_In o [] m = absurd m
any_of_In o (p ∷ os) (inl e) = ground (arith, eq_iff p.operation_id o.operation_id)
any_of_In o (p ∷ os) (inr m) = ground (arith, any_of_In o os m)

find-IsOwned :
    (ts : List Tenant) (id : String) (os : List Operation) {o : Operation}
    → All (IsOwned ts) os
    → find (has_id id) os ≡ some o
    → IsOwned ts o
find-IsOwned ts id [] h e = cc
find-IsOwned ts id (p ∷ os) {o} h e = elim (Bool-cases (has_id id p)) [
  | inl t ↦ ground arith
  | inr t ↦ find-IsOwned ts id os {o = o} h.1 (rw t at e)
]

-- A key that is in use finds a row of the join.
pub locked_row_of_any :
    (id : String) (d : Db)
    → any (has_id id) d.operations ≡ true
    → All (IsOwned d.tenants) d.operations
    → (row : Row) × (locked_row id d ≡ some row)
      × (find (has_id id) d.operations ≡ some row.operation)
      × (row.operation.operation_id ≡ id)
unfolding locked_row
locked_row_of_any id d h owned =
    let (o, found, is_id) = find_of_any (has_id id) d.operations h in
    let (t, tenant, _) =
      find_of_any (λ (t : Tenant). str_eq t.tenant_id o.tenant_id) d.tenants
        (find-IsOwned d.tenants id d.operations owned found) in
    (
      record { tenant = t; operation = o },
      rw (found, locked_row) (rw (tenant, join_tenant)),
      found,
      (eq_iff o.operation_id id).0 is_id,
    )

module _ (test : Operation → Bool) (change : Operation → Operation) where
  pub any-update_where :
      (id : String) (os : List Operation)
      → ((o : Operation) → (change o).operation_id ≡ o.operation_id)
      → any (has_id id) (update_where test change os) ≡ any (has_id id) os
  any-update_where id [] keeps = refl
  any-update_where id (o ∷ os) keeps = ground (arith, keeps o, any-update_where id os keeps)

  pub IsOwned-update_where :
      (ts : List Tenant) (os : List Operation)
      → ((o : Operation) → (change o).tenant_id ≡ o.tenant_id)
      → All (IsOwned ts) os
      → All (IsOwned ts) (update_where test change os)
  IsOwned-update_where ts [] keeps h = tt
  IsOwned-update_where ts (o ∷ os) keeps h = elim (Bool-cases (test o)) [
    | inl e ↦ rw (e, keeps o) (h.0, IsOwned-update_where ts os keeps h.1)
    | inr e ↦ rw e (h.0, IsOwned-update_where ts os keeps h.1)
  ]

-- The row that `locked` finds is the table's row with that key.
pub locked_row_found :
    (id : String) (d : Db) {row : Row}
    → locked_row id d ≡ some row
    → (find (has_id id) d.operations ≡ some row.operation) × (row.operation.operation_id ≡ id)
unfolding locked_row
locked_row_found id d {row} h = elim (Option-cases (find (has_id id) d.operations)) [
  | inl e ↦ ground arith
  | inr (o, e) ↦ elim (Option-cases (find (λ t. str_eq t.tenant_id o.tenant_id) d.tenants)) [
    | inl f ↦ ground arith
    | inr (t, f) ↦
        ground (arith, find-test (has_id id) d.operations {x = o} e, eq_iff o.operation_id id)
  ]
]

-- Its tenant is the table's row for that tenant.
pub locked_row_tenant :
    (id : String) (d : Db) {row : Row}
    → locked_row id d ≡ some row
    → find (λ t. str_eq t.tenant_id row.operation.tenant_id) d.tenants ≡ some row.tenant
unfolding locked_row
locked_row_tenant id d {row} h = elim (Option-cases (find (has_id id) d.operations)) [
  | inl e ↦ ground arith
  | inr (o, e) ↦ elim (Option-cases (find (λ t. str_eq t.tenant_id o.tenant_id) d.tenants)) [
    | inl f ↦ ground arith
    | inr (t, f) ↦ let q : o ≡ row.operation = ground arith in rw (← q, f) (ground arith)
  ]
]
