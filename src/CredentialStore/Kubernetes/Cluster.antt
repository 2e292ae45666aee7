-- ===== src/CredentialStore/Kubernetes/Cluster.antt =====
-- The Kubernetes credential store on a cluster that keeps its secrets.
use radius_todolist_app.Prelude.{String, ◌≡◌, ◌≢◌, refl, true, Option, none, some, eq_refl}
use radius_todolist_app.Error.{Error, Result, ok, err, api}
use radius_todolist_app.Dict.{get}
use radius_todolist_app.Text.{concat}
use radius_todolist_app.CredentialStore.{Backend, is_reference, is_credential}
use radius_todolist_app.CredentialStore.Scope.{
  CredentialScope, all_labels, labels, owner_labels, secret_name, identity_text, verify_labels,
  has_labels, has_value, validate_reference,
}
use radius_todolist_app.CredentialStore.Kubernetes.{
  Namespace, V1Secret, KubernetesClient, credential_value, check_namespace, decoded, check_secret,
  read_result, secret_of, create_result, verify_namespace, read_named, read_verified, read_value,
  run_guard, send, create_named, create_value, kubernetes_store,
}

module _ (scope : CredentialScope) (namespace : String) (digest : String → String)
    (encode : String → String) (decode : String → Option String) where
  unfoldable pub name_of : String → String → String
  unfolding concat identity_text
  name_of slot role = concat "credential-" (digest (identity_text scope slot role))

  secret_name-name_of :
      (slot role : String)
      → is_reference slot role ≡ true
      → secret_name digest scope slot role ≡ ok (name_of slot role)
  unfolding secret_name validate_reference name_of
  secret_name-name_of slot role h = rw (secret_name, validate_reference, h) refl

  labels-all_labels :
      (slot role : String)
      → is_reference slot role ≡ true
      → labels scope slot role ≡ ok (all_labels scope slot role)
  unfolding labels validate_reference
  labels-all_labels slot role h = rw (labels, validate_reference, h) refl

  has_labels-all_labels :
      (slot role : String)
      → has_labels (all_labels scope slot role) (all_labels scope slot role) ≡ true
  unfolding has_labels all_labels owner_labels get has_value
  has_labels-all_labels slot role =
      rw
        (
          eq_refl scope.project,
          eq_refl scope.deployment,
          eq_refl scope.environment,
          eq_refl slot,
          eq_refl role,
        )
        refl

  -- The secret that `_create` sends is one that `_read` takes.
  pub check_secret-secret_of :
      (slot role value : String)
      → decode (encode value) ≡ some value
      → is_reference slot role ≡ true
      → is_credential value role ≡ true
      → check_secret scope namespace digest encode decode slot role (name_of slot role) (
          secret_of scope namespace digest encode decode
            (name_of slot role)
            value
            (all_labels scope slot role))
        ≡ ok value
  unfolding check_secret secret_of verify_labels decoded credential_value
  check_secret-secret_of slot role value back h is =
      rw
        (
          check_secret,
          secret_of,
          eq_refl (name_of slot role),
          eq_refl namespace,
          labels-all_labels slot role h,
          verify_labels,
          has_labels-all_labels slot role,
          decoded,
          back,
          credential_value,
          is,
        )
        refl

-- What `read_namespaced_secret` answers.
abbrev pub answer_of : Option V1Secret → Result V1Secret
answer_of none = err (api (some 404))
answer_of (some secret) = ok secret

-- What `singleton_guard` answers, if there is one.
abbrev pub asked : {C : Type 0} → Option (C → Result (Unit {0}) × C) → C → Result (Unit {0}) × C
asked guard c = elim guard [ none ↦ (ok tt, c) | some check ↦ check c ]

module _ {C : Type 0} (namespace : String) (client : KubernetesClient C)
    (content : C → String → Option V1Secret) where
  -- The secrets but one are those of another state.
  abbrev pub Others : String → C → C → Type 0
  Others name c c' = (other : String) → other ≢ name → content c' other ≡ content c other

  -- A namespace whose secrets are the `content` of the state: a read gives them, and a secret is
  -- created where there is none with its name.
  pub record IsCluster (owned : Namespace) : Type 0 where
    pub shows_namespace : (c : C) → client.read_namespace namespace c ≡ (ok owned, c)
    pub shows_secret :
        (name : String) (c : C)
        → client.read_secret name namespace c ≡ (answer_of (content c name), c)
    pub creates :
        (name : String) (secret : V1Secret) (c : C)
        → secret.name ≡ some name
        → content c name ≡ none
        → (c' : C) × (client.create_secret namespace secret c ≡ (ok tt, c'))
          × (content c' name ≡ some secret)
          × Others name c c'

module _ (scope : CredentialScope) (namespace : String) (digest : String → String)
    (encode : String → String) (decode : String → Option String) {C : Type 0}
    (client : KubernetesClient C) (content : C → String → Option V1Secret) (owned : Namespace)
    (cluster : IsCluster namespace client content owned)
    (is_owned : check_namespace scope namespace digest encode decode (ok owned) ≡ ok tt)
    (guard : Option (C → Result (Unit {0}) × C)) where
  unfoldable pub name : String → String → String
  unfolding name_of
  name = name_of scope namespace digest encode decode

  unfoldable pub store : Backend C
  unfolding kubernetes_store
  store = kubernetes_store scope namespace digest encode decode client guard

  pub read_value-content :
      (slot role : String) (c : C)
      → is_reference slot role ≡ true
      → store.read_value slot role c ≡ (
        read_result scope namespace digest encode decode slot role
            (name slot role)
            (answer_of (content c (name slot role))),
        c,
      )
  unfolding store read_value verify_namespace read_verified read_named name
  read_value-content slot role c h =
      rw
        (
          cluster.shows_namespace c,
          is_owned,
          secret_name-name_of scope namespace digest encode decode slot role h,
          cluster.shows_secret (name slot role) c,
        )
        refl

  pub create_value-free :
      (slot role value : String) (c : C)
      → is_reference slot role ≡ true
      → asked guard c ≡ (ok tt, c)
      → content c (name slot role) ≡ none
      → (c' : C) × (store.create_value slot role value c ≡ (ok true, c'))
        × (content c' (name slot role)
            ≡ some (
                secret_of scope namespace digest encode decode
                  (name slot role)
                  value
                  (all_labels scope slot role)))
        × Others namespace client content (name slot role) c c'
  unfolding store create_value create_named send run_guard create_result name secret_of
  create_value-free slot role value c h allowed free =
      let (c', created, held, others) =
        cluster.creates (name slot role)
          (secret_of scope namespace digest encode decode (name slot role) value
            (all_labels scope slot role))
          c refl free in
      (
        c',
        rw
            (
              secret_name-name_of scope namespace digest encode decode slot role h,
              labels-all_labels scope namespace digest encode decode slot role h,
              allowed,
              created,
            )
            refl,
        held,
        others,
      )

  pub create_value-refused :
      (slot role value : String) (e : Error) (c : C)
      → is_reference slot role ≡ true
      → asked guard c ≡ (err e, c)
      → store.create_value slot role value c ≡ (err e, c)
  unfolding store create_value create_named send run_guard
  create_value-refused slot role value e c h refused =
      rw
        (
          secret_name-name_of scope namespace digest encode decode slot role h,
          labels-all_labels scope namespace digest encode decode slot role h,
          refused,
        )
        refl
