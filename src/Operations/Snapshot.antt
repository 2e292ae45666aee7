-- ===== src/Operations/Snapshot.antt =====
-- The running operations that `OperationStore.interrupt_running` walks through, as a list of rows.
use mathlib.Core.Option.{some-injective}
use radius_todolist_app.Prelude.{
  suc, ◌≡◌, refl, sym, ap, ◌∙◌, inl, inr, Bool, true, some, List, [], ◌∷◌, arith, str_eq, eq_iff,
  if◌then◌else◌, Bool-cases, length, select, any, update_where, count, In, In-select, select-In,
}
use radius_todolist_app.Tables.{Operation, interrupted, is_running}
use radius_todolist_app.Operations.{insert_by_created, set_observed, order_by_created}
use radius_todolist_app.Operations.Keys.{Keyed, find-In, In-order_by_created}

-- What an interruption makes of a row; its stage stays.
abbrev pub stop : Operation → Operation
stop o = set_observed interrupted o.stage (some "provisioner_restarted") o

abbrev pub listed : List Operation → Operation → Bool
listed os o = any (λ p. str_eq o.operation_id p.operation_id) os

-- The snapshot that `interrupt_running` walks through lists exactly the running rows.
listed_of_In :
    (p o : Operation) (os : List Operation)
    → In p os
    → p.operation_id ≡ o.operation_id
    → listed os o ≡ true
listed_of_In p o [] m e = absurd m
listed_of_In p o (q ∷ os) (inl x) e = ground (arith, eq_iff o.operation_id q.operation_id)
listed_of_In p o (q ∷ os) (inr m) e = ground (arith, listed_of_In p o os m e)

In-of_listed :
    (o : Operation) (os : List Operation)
    → listed os o ≡ true
    → (p : Operation) × In p os × (p.operation_id ≡ o.operation_id)
In-of_listed o [] h = cc
In-of_listed o (q ∷ os) h = elim (Bool-cases (str_eq o.operation_id q.operation_id)) [
  | inl e ↦ (q, inl refl, ground (arith, eq_iff o.operation_id q.operation_id))
  | inr e ↦ let (p, m, x) = In-of_listed o os (rw e at h) in (p, inr m, x)
]

abbrev pub snapshot : List Operation → List Operation
snapshot os = order_by_created (select (λ o. is_running o.status) os)

module _ (os : List Operation) (k : Keyed os) where
  pub In-of_snapshot : (o : Operation) → In o (snapshot os) → In o os × (is_running o.status ≡ true)
  In-of_snapshot o m = In-select (λ o. is_running o.status) o os ((In-order_by_created o _).0 m)

  pub listed-snapshot : (o : Operation) → In o os → listed (snapshot os) o ≡ is_running o.status
  listed-snapshot o m = elim (Bool-cases (is_running o.status)) [
    | inl e ↦ rw e (
        listed_of_In o o (snapshot os)
          ((In-order_by_created o _).1 (select-In (λ o. is_running o.status) o os m e)) refl)
    | inr e ↦ elim (Bool-cases (listed (snapshot os) o)) [
      | inl l ↦
          let (p, mp, same) = In-of_listed o (snapshot os) l in
          let (inp, runs) = In-of_snapshot p mp in
          let one : some p ≡ some o = sym (find-In p os k inp) ∙ rw same (find-In o os k m) in
          l ∙ sym (rw (some-injective p o one) at runs)
      | inr l ↦ rw (e, l)
    ]
  ]

pub update_where-congr :
    (t u : Operation → Bool) (os : List Operation)
    → ((o : Operation) → In o os → t o ≡ u o)
    → update_where t stop os ≡ update_where u stop os
update_where-congr t u [] h = refl
update_where-congr t u (o ∷ os) h = rw (h o (inl refl)) (
    ap (λ (r : List Operation). (if u o then stop o else o) ∷ r)
      (update_where-congr t u os (λ p m. h p (inr m))))

length-insert_by_created :
    (o : Operation) (os : List Operation) → length (insert_by_created o os) ≡ suc (length os)
unfolding insert_by_created
length-insert_by_created o [] = refl
length-insert_by_created o (p ∷ os) = ground (arith, length-insert_by_created o os)

length-order_by_created : (os : List Operation) → length (order_by_created os) ≡ length os
unfolding order_by_created
length-order_by_created [] = refl
length-order_by_created (o ∷ os) =
    length-insert_by_created o (order_by_created os) ∙ ap suc (length-order_by_created os)

length-select-running :
    (os : List Operation)
    → length (select (λ o. is_running o.status) os) ≡ count (λ o. is_running o.status) os
length-select-running [] = refl
length-select-running (o ∷ os) = ground (arith, length-select-running os)

pub length-snapshot :
    (os : List Operation) → length (snapshot os) ≡ count (λ o. is_running o.status) os
length-snapshot os =
    length-order_by_created (select (λ o. is_running o.status) os) ∙ length-select-running os

pub none_running_after :
    (os : List Operation)
    → count (λ o. is_running o.status) (update_where (λ o. is_running o.status) stop os) ≡ 0
none_running_after [] = refl
none_running_after (o ∷ os) = ground (arith, none_running_after os)
