-- ===== src/ConfigMaps/Forward.antt =====
-- `apply` of `ConfigMaps` and the versions that it stores.
use radius_todolist_app.Prelude.{
  String, ◌<◌, ◌≡◌, refl, sym, ◌∙◌, ◌⊎◌, inl, inr, true, Option, arith, str_eq, eq_iff, ◌==◌, ltb,
  Bool-cases,
}
use radius_todolist_app.Error.{
  Result, ok, err, ok-injective, configuration_missing, configuration_invalid,
}
use radius_todolist_app.ConfigMaps.{
  AppliedConfiguration, applied_eq, ConfigMap, Api, Place, parse, read_map, check_actual, store_map,
  compare_stored, apply_to, apply,
}

pub applied_eq-means : (a b : AppliedConfiguration) → applied_eq a b ≡ true → a ≡ b
applied_eq-means a b h =
    let tenant : a.tenant_id ≡ b.tenant_id = ground (arith, eq_iff a.tenant_id b.tenant_id) in
    let onboarding : a.onboarding_id ≡ b.onboarding_id =
      ground (arith, eq_iff a.onboarding_id b.onboarding_id) in
    let message : a.message ≡ b.message = ground (arith, eq_iff a.message b.message) in
    let version : a.version ≡ b.version = ground arith in
    λ i. record {
      tenant_id = tenant i;
      onboarding_id = onboarding i;
      message = message i;
      version = version i;
    }

-- The result is what was asked for, or a newer version of the same onboarding.
abbrev pub IsForward : AppliedConfiguration → AppliedConfiguration → Type 0
IsForward desired a =
    (a ≡ desired) ⊎ ((a.onboarding_id ≡ desired.onboarding_id) × (desired.version < a.version))

module _ (uuid_of : String → Option String) (place : Place) {C : Type 0} (kube : Api C)
    (desired : AppliedConfiguration) where
  check_actual-IsForward :
      (r : Result AppliedConfiguration) (a : AppliedConfiguration)
      → check_actual uuid_of place kube desired r ≡ ok a
      → a ≡ desired
  unfolding check_actual
  check_actual-IsForward (ok b) a h = elim (Bool-cases (applied_eq b desired)) [
    | inl t ↦ sym (ok-injective b a (rw t at h)) ∙ applied_eq-means b desired t
    | inr t ↦ ground arith
  ]
  check_actual-IsForward (err e) a h = cc

  -- When `apply` may write: nothing is stored, or an older version of the same onboarding.
  abbrev pub MayWrite : Result ConfigMap → Type 0
  MayWrite existing =
      (existing ≡ err configuration_missing)
      ⊎ ((cm : ConfigMap) × (current : AppliedConfiguration) × (existing ≡ ok cm)
          × (parse uuid_of place desired.tenant_id cm ≡ ok current)
          × (current.onboarding_id ≡ desired.onboarding_id)
          × (current.version < desired.version))

  compare_stored-IsForward :
      (cm : ConfigMap) (r : Result AppliedConfiguration) (c : C) (a : AppliedConfiguration)
      → (compare_stored uuid_of place kube desired cm r c).0 ≡ ok a
      → IsForward desired a
  unfolding compare_stored store_map
  compare_stored-IsForward cm (err e) c a h = cc
  compare_stored-IsForward cm (ok current) c a h =
      elim (Bool-cases (str_eq current.onboarding_id desired.onboarding_id)) [
        | inr other_tenant ↦ ground arith
        | inl same ↦ elim (Bool-cases (ltb desired.version current.version)) [
          | inl newer ↦
              let is : current ≡ a = ok-injective current a (rw (same, newer) at h) in
              inr (
                rw (← is) ((eq_iff current.onboarding_id desired.onboarding_id).0 same),
                rw (← is) (ground arith),
              )
          | inr older ↦ elim (Bool-cases (current.version == desired.version)) [
            | inr differs ↦ inl (check_actual-IsForward _ a (rw (same, older, differs) at h))
            | inl equal ↦ elim (Bool-cases (applied_eq current desired)) [
              | inl t ↦ inl (
                  sym (ok-injective current a (rw (t, same, older, equal) at h))
                  ∙ applied_eq-means current desired t)
              | inr t ↦
                  let k : ◌≡◌ {A = Result AppliedConfiguration} (err configuration_invalid) (ok a) =
                    rw (t, same, older, equal) at h in
                  cc
            ]
          ]
        ]
      ]

  compare_stored_writes :
      (cm : ConfigMap) (r : Result AppliedConfiguration) (c : C)
      → ((compare_stored uuid_of place kube desired cm r c).1 ≡ c)
        ⊎ ((current : AppliedConfiguration) × (r ≡ ok current)
            × (current.onboarding_id ≡ desired.onboarding_id)
            × (current.version < desired.version))
  unfolding compare_stored
  compare_stored_writes cm (err e) c = inl refl
  compare_stored_writes cm (ok current) c =
      elim (Bool-cases (str_eq current.onboarding_id desired.onboarding_id)) [
        | inr other_tenant ↦ inl (ground arith)
        | inl same ↦ elim (Bool-cases (ltb desired.version current.version)) [
          | inl newer ↦ inl (ground arith)
          | inr older ↦ elim (Bool-cases (current.version == desired.version)) [
            | inl equal ↦ inl (ground arith)
            | inr differs ↦ inr (
              current,
              refl,
              (eq_iff current.onboarding_id desired.onboarding_id).0 same,
              ground arith,
            )
          ]
        ]
      ]

  apply_to-IsForward :
      (existing : Result ConfigMap) (c : C) (a : AppliedConfiguration)
      → (apply_to uuid_of place kube desired existing c).0 ≡ ok a
      → IsForward desired a
  unfolding apply_to store_map
  apply_to-IsForward (ok cm) c a h =
      compare_stored-IsForward cm (parse uuid_of place desired.tenant_id cm) c a h
  apply_to-IsForward (err configuration_missing) c a h = inl (check_actual-IsForward _ a h)
  apply_to-IsForward (err e) c a h = cc

  apply_to_writes :
      (existing : Result ConfigMap) (c : C)
      → ((apply_to uuid_of place kube desired existing c).1 ≡ c) ⊎ MayWrite existing
  unfolding apply_to
  apply_to_writes (ok cm) c =
      elim (compare_stored_writes cm (parse uuid_of place desired.tenant_id cm) c) [
        | inl same ↦ inl same
        | inr (current, parsed, onboarding, older) ↦
            inr (inr (cm, current, refl, parsed, onboarding, older))
      ]
  apply_to_writes (err configuration_missing) c = inr (inl refl)
  apply_to_writes (err e) c = inl refl

  -- On any Kubernetes API: if `apply` returns a configuration, it is the desired one, or a newer
  -- version of the same onboarding; and `apply` has done nothing after its read, unless the read
  -- found no config map, or a valid one of the same onboarding with an older version.
  pub apply-IsForward :
      (c : C)
      → ((a : AppliedConfiguration)
          → (apply uuid_of place kube desired c).0 ≡ ok a
          → IsForward desired a)
        × (let (existing, c') = read_map uuid_of place kube desired.tenant_id c in
            ((apply uuid_of place kube desired c).1 ≡ c') ⊎ MayWrite existing)
  unfolding apply
  apply-IsForward c =
      let (existing, c') = read_map uuid_of place kube desired.tenant_id c in
      ((λ a h. apply_to-IsForward existing c' a h), apply_to_writes existing c')
