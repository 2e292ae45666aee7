-- ===== src/ConfigMaps/Seen.antt =====
-- Where a configuration that `apply` returns comes from: a Kubernetes API with a log of the config
-- maps that it has answered with.
use radius_todolist_app.Prelude.{
  String, ◌≡◌, refl, sym, ◌∙◌, inl, inr, Option, none, some, List, ◌∷◌, arith, str_eq, ltb, ◌==◌,
  Bool-cases, In,
}
use radius_todolist_app.Error.{Result, ok, err, ok-injective, configuration_missing}
use radius_todolist_app.ConfigMaps.{
  AppliedConfiguration, applied_eq, ConfigMap, Api, Place, parse, read_map, missing_or, name_of,
  parse_read, write, check_actual, store_map, compare_stored, apply_to, apply, body,
}

abbrev logged :
    {C : Type 0} → List ConfigMap → Result ConfigMap × C → Result ConfigMap × (C × List ConfigMap)
logged log (ok cm, c) = (ok cm, (c, cm ∷ log))
logged log (err e, c) = (err e, (c, log))

-- The API, with its log.
abbrev pub logging : {C : Type 0} → Api C → Api (C × List ConfigMap)
logging kube = record {
  read_config_map = λ name c. logged c.1 (kube.read_config_map name c.0);
  patch_config_map = λ name cm c. logged c.1 (kube.patch_config_map name cm c.0);
  create_config_map = λ cm c. logged c.1 (kube.create_config_map cm c.0);
}

abbrev pub Extends : List ConfigMap → List ConfigMap → Type 0
Extends log log' = (cm : ConfigMap) → In cm log → In cm log'

module _ (uuid_of : String → Option String) (place : Place) where
  -- A config map of the log says so.
  abbrev pub IsSeen : List ConfigMap → String → AppliedConfiguration → Type 0
  IsSeen log tenant_id a = (cm : ConfigMap) × In cm log × (parse uuid_of place tenant_id cm ≡ ok a)

  -- What is asked of an answer: the log has grown, and a returned configuration is seen.
  abbrev pub Answers :
      {C : Type 0}
      → String
      → List ConfigMap
      → Result AppliedConfiguration × (C × List ConfigMap)
      → Type 0
  Answers tenant_id log (r, (c, log')) =
      Extends log log' × ((a : AppliedConfiguration) → r ≡ ok a → IsSeen log' tenant_id a)

  logged_lem :
      {C : Type 0} (log : List ConfigMap) (r : Result ConfigMap × C)
      → Extends log (logged log r).1.1
        × ((cm : ConfigMap) → (logged log r).0 ≡ ok cm → In cm (logged log r).1.1)
  logged_lem log (ok cm, c) = ((λ x m. inr m), (λ x h. inl (sym (ok-injective cm x h))))
  logged_lem log (err e, c) = ((λ x m. m), (λ x h. cc))

  module _ {C : Type 0} (kube : Api C) (desired : AppliedConfiguration) where
    write_lem :
        (existing : Option ConfigMap) (c : C × List ConfigMap)
        → let (r, c') = write uuid_of place (logging kube) desired existing c in
          Extends c.1 c'.1 × ((cm : ConfigMap) → r ≡ ok cm → In cm c'.1)
    unfolding write
    write_lem none c = logged_lem c.1 (kube.create_config_map (body uuid_of place desired none) c.0)
    write_lem (some cm) c = logged_lem c.1 (
        kube.patch_config_map (name_of uuid_of place desired.tenant_id)
          (body uuid_of place desired (some cm)) c.0)

    checked_same :
        (r : Result AppliedConfiguration) (a : AppliedConfiguration)
        → check_actual uuid_of place (logging kube) desired r ≡ ok a
        → r ≡ ok a
    unfolding check_actual
    checked_same (ok b) a k = elim (Bool-cases (applied_eq b desired)) [
      | inl t ↦ rw t at k
      | inr t ↦ ground arith
    ]
    checked_same (err e) a k = cc

    checked_lem :
        (response : Result ConfigMap) (log : List ConfigMap)
        → ((cm : ConfigMap) → response ≡ ok cm → In cm log)
        → (a : AppliedConfiguration)
        → check_actual uuid_of place
            (logging kube)
            desired
            (parse_read uuid_of place (logging kube) desired.tenant_id response)
          ≡ ok a
        → IsSeen log desired.tenant_id a
    unfolding check_actual parse_read
    checked_lem (err e) log h a k = cc
    checked_lem (ok cm) log h a k =
        (cm, h cm refl, checked_same (parse uuid_of place desired.tenant_id cm) a k)

    store_map-Answers :
        (existing : Option ConfigMap) (c : C × List ConfigMap)
        → Answers desired.tenant_id c.1 (store_map uuid_of place (logging kube) desired existing c)
    unfolding store_map
    store_map-Answers existing c =
        let (grows, seen) = write_lem existing c in
        let (response, c') = write uuid_of place (logging kube) desired existing c in
        (grows, checked_lem response c'.1 seen)

    compare_stored-Answers :
        (cm : ConfigMap) (c : C × List ConfigMap)
        → In cm c.1
        → (r : Result AppliedConfiguration) → parse uuid_of place desired.tenant_id cm ≡ r
        → Answers desired.tenant_id c.1 (compare_stored uuid_of place (logging kube) desired cm r c)
    unfolding compare_stored
    compare_stored-Answers cm c m (err e) parsed = ((λ x n. n), (λ a k. cc))
    compare_stored-Answers cm c m (ok current) parsed =
        elim (Bool-cases (str_eq current.onboarding_id desired.onboarding_id)) [
          | inr t ↦ rw (compare_stored, t) ((λ x n. n), (λ a k. cc))
          | inl t ↦ elim (Bool-cases (ltb desired.version current.version)) [
            | inl newer ↦ rw (compare_stored, t, newer) ((λ x n. n), (λ a k. (cm, m, parsed ∙ k)))
            | inr older ↦ elim (Bool-cases (current.version == desired.version)) [
              | inr differs ↦ rw (compare_stored, t, older, differs) (store_map-Answers (some cm) c)
              | inl equal ↦ elim (Bool-cases (applied_eq current desired)) [
                | inl same ↦
                    rw (compare_stored, same, t, older, equal)
                      ((λ x n. n), (λ a k. (cm, m, parsed ∙ k)))
                | inr differs ↦
                    rw (compare_stored, differs, t, older, equal) ((λ x n. n), (λ a k. cc))
              ]
            ]
          ]
        ]

    apply_to-Answers :
        (existing : Result ConfigMap) (c : C × List ConfigMap)
        → ((cm : ConfigMap) → existing ≡ ok cm → In cm c.1)
        → Answers desired.tenant_id c.1 (apply_to uuid_of place (logging kube) desired existing c)
    unfolding apply_to
    apply_to-Answers (ok cm) c h =
        compare_stored-Answers cm c (h cm refl) (parse uuid_of place desired.tenant_id cm) refl
    apply_to-Answers (err configuration_missing) c h = store_map-Answers none c
    apply_to-Answers (err e) c h = ((λ x n. n), (λ a k. cc))

    missing_same :
        (r : Result ConfigMap) (cm : ConfigMap) → missing_or uuid_of place r ≡ ok cm → r ≡ ok cm
    unfolding missing_or
    missing_same r cm k = ground arith

    read_map_lem :
        (c : C × List ConfigMap)
        → let (r, c') = read_map uuid_of place (logging kube) desired.tenant_id c in
          Extends c.1 c'.1 × ((cm : ConfigMap) → r ≡ ok cm → In cm c'.1)
    unfolding read_map
    read_map_lem c =
        let (grows, seen) =
          logged_lem c.1 (kube.read_config_map (name_of uuid_of place desired.tenant_id) c.0) in
        (grows, (λ cm k. seen cm (missing_same _ cm k)))

    -- The log only grows, and a configuration that `apply` returns is what a logged answer holds.
    pub apply-Answers :
        (c : C × List ConfigMap)
        → Answers desired.tenant_id c.1 (apply uuid_of place (logging kube) desired c)
    unfolding apply
    apply-Answers c =
        let (grows, seen) = read_map_lem c in
        let (existing, c') = read_map uuid_of place (logging kube) desired.tenant_id c in
        let (grows', seen') = apply_to-Answers existing c' seen in
        ((λ cm m. grows' cm (grows cm m)), seen')
