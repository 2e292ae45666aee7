-- ===== src/Admission/Choice.antt =====
-- The pair that `accept_tenant` chooses, described by what holds of it.
use radius_todolist_app.Prelude.{
  String, ◌≡◌, ◌≢◌, refl, ◌⊎◌, inl, inr, Bool, true, false, none, some, List, [], ◌∷◌, arith,
  str_eq, eq_iff, Bool-cases, Option-cases, any, select, In, In-select, select-In,
}
use mathlib.Core.Option.{some-injective}
use radius_todolist_app.Tables.{Tenant, Pair, Db}
use radius_todolist_app.Admission.{least_pair, is_assigned, is_free}
use radius_todolist_app.Admission.Consistency.Accepts.{least_pair-In}

module _ {A : Type 0} (test : A → Bool) where
  pub any-In : (xs : List A) → any test xs ≡ true → (x : A) × In x xs × (test x ≡ true)
  any-In [] h = cc
  any-In (x ∷ xs) h = elim (Bool-cases (test x)) [
    | inl t ↦ (x, inl refl, t)
    | inr f ↦ let (y, there, t) = any-In xs (rw f at h) in (y, inr there, t)
  ]

  pub any-false-In : (xs : List A) (x : A) → any test xs ≡ false → In x xs → test x ≡ false
  any-false-In [] x h m = absurd m
  any-false-In (y ∷ xs) x h m = elim (Bool-cases (test y)) [
    | inl t ↦ cc (rw t at h)
    | inr f ↦ elim m [ inl same ↦ rw same f | inr there ↦ any-false-In xs x (rw f at h) there ]
  ]

-- A collation: any two texts are in order, and the order is transitive.
pub record IsOrder (collate : String → String → Bool) : Type 0 where
  pub total : (a b : String) → (collate a b ≡ true) ⊎ (collate b a ≡ true)
  pub transitive : (a b c : String) → collate a b ≡ true → collate b c ≡ true → collate a c ≡ true

module _ (collate : String → String → Bool) (order : IsOrder collate) where
  in_order_refl : (a : String) → collate a a ≡ true
  in_order_refl a = elim (order.total a a) [ inl e ↦ e | inr e ↦ e ]

  in_order_back : (a b : String) → collate a b ≡ false → collate b a ≡ true
  in_order_back a b f = elim (order.total a b) [ inl e ↦ cc | inr e ↦ e ]

  least_pair-none : (ps : List Pair) (q : Pair) → least_pair collate ps ≡ none → In q ps → ⊥
  unfolding least_pair
  least_pair-none [] q h m = m
  least_pair-none (p ∷ ps) q h m = elim (Option-cases (least_pair collate ps)) [
    | inl e ↦ cc (rw (least_pair, e) at h)
    | inr (x, e) ↦ cc (rw (least_pair, e) at h)
  ]

  least_pair_least :
      (ps : List Pair) (p q : Pair)
      → least_pair collate ps ≡ some p
      → In q ps
      → collate p.pair_id q.pair_id ≡ true
  unfolding least_pair
  least_pair_least [] p q h m = absurd m
  least_pair_least (y ∷ ps) p q h m = elim (Option-cases (least_pair collate ps)) [
    | inl e ↦
        let is : y ≡ p = some-injective y p (rw (least_pair, e) at h) in
        elim m [
          | inl same ↦ rw (← is, same) (in_order_refl y.pair_id)
          | inr there ↦ absurd (least_pair-none ps q e there)
        ]
    | inr (x, e) ↦ elim (Bool-cases (collate y.pair_id x.pair_id)) [
      | inl t ↦
          let is : y ≡ p = some-injective y p (rw (least_pair, e, t) at h) in
          elim m [
            | inl same ↦ rw (← is, same) (in_order_refl y.pair_id)
            | inr there ↦
                rw (← is) (
                  order.transitive y.pair_id x.pair_id q.pair_id t
                    (least_pair_least ps x q e there))
          ]
      | inr f ↦
          let is : x ≡ p = some-injective x p (rw (least_pair, e, f) at h) in
          elim m [
            | inl same ↦ rw (← is, same) (in_order_back y.pair_id x.pair_id f)
            | inr there ↦ rw (← is) (least_pair_least ps x q e there)
          ]
    ]
  ]

  -- The pair has the isolation, and unless that is "shared", no tenant is on it.
  abbrev pub IsFree : String → Db → Pair → Type 0
  IsFree isolation d p =
      (p.isolation ≡ isolation)
      × ((isolation ≡ "shared") ⊎ ((t : Tenant) → In t d.tenants → t.pair_id ≢ p.pair_id))

  -- A free pair of the table, and the first of them by its `pair_id`.
  abbrev pub IsChoice : String → Db → Pair → Type 0
  IsChoice isolation d p =
      In p d.pairs
      × IsFree isolation d p
      × ((q : Pair) → In q d.pairs → IsFree isolation d q → collate p.pair_id q.pair_id ≡ true)

  is_free-IsFree :
      (isolation : String) (d : Db) (p : Pair) → is_free isolation d p ≡ true → IsFree isolation d p
  is_free-IsFree isolation d p h = (
    (eq_iff p.isolation isolation).0 (ground arith),
    elim (Bool-cases (str_eq isolation "shared")) [
      | inl s ↦ inl ((eq_iff isolation "shared").0 s)
      | inr other ↦ inr (λ t m e.
          let free : is_assigned d p ≡ false = ground arith in
          let apart = any-false-In (λ u. str_eq u.pair_id p.pair_id) d.tenants t free m in
          let same : str_eq t.pair_id p.pair_id ≡ true = (eq_iff t.pair_id p.pair_id).1 e in cc)
    ],
  )

  IsFree-is_free :
      (isolation : String) (d : Db) (p : Pair) → IsFree isolation d p → is_free isolation d p ≡ true
  IsFree-is_free isolation d p (same, inl s) =
      let a : str_eq p.isolation isolation ≡ true = (eq_iff p.isolation isolation).1 same in
      let b : str_eq isolation "shared" ≡ true = (eq_iff isolation "shared").1 s in rw (a, b) refl
  IsFree-is_free isolation d p (same, inr alone) =
      let a : str_eq p.isolation isolation ≡ true = (eq_iff p.isolation isolation).1 same in
      elim (Bool-cases (is_assigned d p)) [
        | inr f ↦ ground arith
        | inl t ↦
            let (u, m, e) = any-In (λ v. str_eq v.pair_id p.pair_id) d.tenants t in
            absurd (alone u m ((eq_iff u.pair_id p.pair_id).0 e))
      ]

  pub least_pair-IsChoice :
      (isolation : String) (d : Db) {p : Pair}
      → least_pair collate (select (is_free isolation d) d.pairs) ≡ some p
      → IsChoice isolation d p
  least_pair-IsChoice isolation d {p} h =
      let (stored, free) = In-select (is_free isolation d) p d.pairs (least_pair-In collate _ h) in
      (
        stored,
        is_free-IsFree isolation d p free,
        (λ q m f.
            least_pair_least _ p q h
              (select-In (is_free isolation d) q d.pairs m (IsFree-is_free isolation d q f))),
      )

  pub least_pair-no_choice :
      (isolation : String) (d : Db)
      → least_pair collate (select (is_free isolation d) d.pairs) ≡ none
      → (p : Pair) → In p d.pairs
      → IsFree isolation d p
      → ⊥
  least_pair-no_choice isolation d h p m f =
      least_pair-none _ p h
        (select-In (is_free isolation d) p d.pairs m (IsFree-is_free isolation d p f))
