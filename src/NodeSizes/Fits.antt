-- ===== src/NodeSizes/Fits.antt =====
-- The eligible sizes and the quotas.
use radius_todolist_app.Prelude.{
  ℕ, ◌+◌, ◌-◌, ◌*◌, ◌⊎◌, refl, ◌≤◌, String, ◌≡◌, ◌↔◌, inl, inr, none, some, [], ◌∷◌, In, ltb, arith,
  Option-cases, if◌then◌else◌,
}
use radius_todolist_app.Dict.{Dict, get}
use radius_todolist_app.NodeSizes.{
  Budget, Size, Problem, required_cores, owned_of, name_problem, quota_problem,
}
use radius_todolist_app.NodeSizes.Available.{eligible_of}

-- The cores of a name that the fleet owns: none where no credit is recorded.
abbrev pub Owns : ℕ → String → Dict ℕ → Type 0
unfolding get
Owns owned name credits =
    (get name credits ≡ some owned) ⊎ ((get name credits ≡ none) × (owned ≡ 0))

-- The quota of a name has room for the required cores that are not owned yet.
abbrev pub HasRoom : ℕ → String → Dict (ℕ × ℕ) → Dict ℕ → Type 0
unfolding get
HasRoom required name quotas credits =
    (current : ℕ) × (limit : ℕ) × (owned : ℕ) × (get name quotas ≡ some (current, limit))
    × Owns owned name credits
    × (owned ≤ current)
    × (current + (required - owned) ≤ limit)

owned_of-Owns : (name : String) (credits : Dict ℕ) → Owns (owned_of name credits) name credits
unfolding owned_of
owned_of-Owns name credits = elim (Option-cases (get name credits)) [
  | inl e ↦ inr (e, rw (owned_of, e) refl)
  | inr (n, e) ↦ inl (rw (owned_of, e) refl)
]

Owns-owned_of :
    (owned : ℕ) (name : String) (credits : Dict ℕ)
    → Owns owned name credits
    → owned_of name credits ≡ owned
unfolding owned_of
Owns-owned_of owned name credits (inl e) = rw (owned_of, e) refl
Owns-owned_of owned name credits (inr (e, zero)) = rw (owned_of, e, zero) refl

name_problem-HasRoom :
    (required : ℕ) (name : String) (quotas : Dict (ℕ × ℕ)) (credits : Dict ℕ)
    → name_problem required name quotas credits ≡ none
    → HasRoom required name quotas credits
unfolding name_problem
name_problem-HasRoom required name quotas credits h = elim (Option-cases (get name quotas)) [
  | inl e ↦ cc (rw (name_problem, e) at h)
  | inr ((current, limit), e) ↦
      let owned = owned_of name credits in
      let opened : (if ltb current owned
            then some (Problem.not_caught_up name)
            else if ltb limit (current + (required - owned))
            then some (Problem.needs name (required - owned) limit current)
            else none)
          ≡ none =
        rw (name_problem, e) at h in
      (
        current,
        limit,
        owned,
        e,
        owned_of-Owns name credits,
        ground (arith, opened),
        ground (arith, opened),
      )
]

HasRoom-name_problem :
    (required : ℕ) (name : String) (quotas : Dict (ℕ × ℕ)) (credits : Dict ℕ)
    → HasRoom required name quotas credits
    → name_problem required name quotas credits ≡ none
unfolding name_problem
HasRoom-name_problem required name quotas credits
      (current, limit, owned, e, owns, caught_up, room) =
    rw (name_problem, e, Owns-owned_of owned name credits owns) (ground (arith, caught_up, room))

module _ (budget : Budget) (quotas : Dict (ℕ × ℕ)) (credits : Dict ℕ) where
  -- The fleet of the size has room in the region's quota and in the quota of the size's family.
  abbrev pub IsFitting : Size → Type 0
  IsFitting size =
      let required = budget.clusters * (budget.nodes + 1) * size.cpus in
      HasRoom required "cores" quotas credits × HasRoom required size.family quotas credits

  quota_problem-IsFitting :
      (size : Size) → quota_problem size budget quotas credits ≡ none → IsFitting size
  unfolding quota_problem required_cores
  quota_problem-IsFitting size h =
      elim (Option-cases (name_problem (required_cores budget size) "cores" quotas credits)) [
        | inr (p, e) ↦ cc (rw (quota_problem, e) at h)
        | inl e ↦ (
          name_problem-HasRoom (required_cores budget size) "cores" quotas credits e,
          name_problem-HasRoom (required_cores budget size) size.family quotas credits
              (rw (quota_problem, e) at h),
        )
      ]

  IsFitting-quota_problem :
      (size : Size) → IsFitting size → quota_problem size budget quotas credits ≡ none
  unfolding quota_problem required_cores
  IsFitting-quota_problem size (cores, family) =
      rw
        (
          quota_problem,
          HasRoom-name_problem (required_cores budget size) "cores" quotas credits cores,
        )
        (HasRoom-name_problem (required_cores budget size) size.family quotas credits family)

  eligible_of_sound :
      (p : String × Size) (sizes : Dict Size)
      → In p (eligible_of budget quotas credits sizes)
      → In p sizes × IsFitting p.1
  unfolding eligible_of
  eligible_of_sound p [] m = absurd m
  eligible_of_sound p ((name, size) ∷ sizes) m =
      elim (Option-cases (quota_problem size budget quotas credits)) [
        | inr (problem, e) ↦
            let (there, fits) = eligible_of_sound p sizes (rw (eligible_of, e) at m) in
            (inr there, fits)
        | inl e ↦ elim (rw (eligible_of, e) at m) [
          | inl same ↦ (inl same, rw same (quota_problem-IsFitting size e))
          | inr k ↦ let (there, fits) = eligible_of_sound p sizes k in (inr there, fits)
        ]
      ]

  eligible_of_complete :
      (p : String × Size) (sizes : Dict Size)
      → In p sizes
      → IsFitting p.1
      → In p (eligible_of budget quotas credits sizes)
  unfolding eligible_of
  eligible_of_complete p [] m fits = absurd m
  eligible_of_complete p ((name, size) ∷ sizes) (inl same) fits =
      rw (eligible_of, IsFitting-quota_problem size (rw same at fits)) (inl same)
  eligible_of_complete p ((name, size) ∷ sizes) (inr m) fits =
      elim (Option-cases (quota_problem size budget quotas credits)) [
        | inr (problem, e) ↦ rw (eligible_of, e) (eligible_of_complete p sizes m fits)
        | inl e ↦ rw (eligible_of, e) (inr (eligible_of_complete p sizes m fits))
      ]

  -- The eligible sizes are exactly the sizes whose fleet fits: for the region and for the family, a
  -- quota is known, the cores owned (0 where none are recorded) are in use, and the cores in use,
  -- with those of the required cores that are not owned, are within the limit. Each cluster
  -- requires the cores of its nodes and of one surge node.
  pub eligible_of-IsFitting :
      (p : String × Size) (sizes : Dict Size)
      → In p (eligible_of budget quotas credits sizes) ↔ (In p sizes × IsFitting p.1)
  eligible_of-IsFitting p sizes =
      (eligible_of_sound p sizes, (λ (m, fits). eligible_of_complete p sizes m fits))
