-- ===== src/CredentialStore/Kubernetes.antt =====
-- `KubernetesCredentialStore` of src/plane_demo/management/providers/secret_store.py, as a backend
-- of `_OwnedStore`. The client, base64 with UTF-8 and the guard are parameters.
pub mod Cluster
pub mod Refines
use radius_todolist_app.Prelude.{
  ℕ, String, Bool, true, false, not, ◌&&◌, ◌||◌, Option, none, some, List, [], ◌∷◌, str_eq, ◌==◌,
  if◌then◌else◌,
}
use radius_todolist_app.Error.{Error, Result, ok, err, store, api, transport, ◌>>=◌, ◌>>◌, raise_if}
use radius_todolist_app.Dict.{Dict}
use radius_todolist_app.Text.{is_alnum, is_framed}
use radius_todolist_app.CredentialStore.{Backend, is_credential}
use radius_todolist_app.CredentialStore.Scope.{
  CredentialScope, owner_labels, labels, secret_name, request_error, verify_labels,
}

-- A namespace's metadata.
pub record Namespace : Type 0 where
  pub name : Option String
  pub labels_of : Option (Dict String)

-- A V1Secret.
pub record V1Secret : Type 0 where
  pub name : Option String
  pub namespace : Option String
  pub labels_of : Option (Dict String)
  pub type_of : Option String
  pub immutable : Option Bool
  pub data_map : Option (Dict String)

-- `KubernetesClient`, over a state of the cluster's.
pub record KubernetesClient (C : Type 0) : Type 0 where
  pub read_namespace : String → C → Result Namespace × C
  pub read_secret : String → String → C → Result V1Secret × C
  pub create_secret : String → V1Secret → C → Result (Unit {0}) × C

-- `_credential_value`
unfoldable pub credential_value : String → String → Result String
unfolding is_credential
credential_value value role = do
  raise_if (not (is_credential value role)) (store "invalid_credential_value")
  ok value

abbrev pub is_text : Option String → String → Bool
is_text none text = false
is_text (some given) text = str_eq given text

abbrev pub is_true : Option Bool → Bool
is_true (some true) = true
is_true _ = false

-- What the code raises for an exception of the client; `transport` is urllib3's HTTPError here.
unfoldable pub raised : Error → Error
unfolding request_error
raised (api status) = request_error status
raised transport = store "credential_store_unavailable"
raised e = e

abbrev field_of : Option (Dict String) → Result String
field_of (some ((key, value) ∷ [])) =
    if str_eq key "value" then ok value else err (store "invalid_credential_record")
field_of _ = err (store "invalid_credential_record")

-- NAMESPACE: [a-z0-9](?:[a-z0-9-]{0,61}[a-z0-9])?
is_namespace : String → Bool
unfolding is_framed
is_namespace = is_framed is_alnum b'-' 61

-- The check of `__init__`.
unfoldable pub accepts_scope : CredentialScope → String → Result (Unit {0})
unfolding is_namespace
accepts_scope scope namespace =
    raise_if (not (str_eq scope.environment "local") || not (is_namespace namespace))
      (store "invalid_credential_scope")

module _ (scope : CredentialScope) (namespace : String) (digest : String → String)
    (encode : String → String) (decode : String → Option String) where
  unfoldable pub check_namespace : Result Namespace → Result (Unit {0})
  unfolding raised verify_labels owner_labels
  check_namespace (err e) = err (raised e)
  check_namespace (ok record_of) = do
    raise_if (not (is_text record_of.name namespace)) (store "credential_owner_mismatch")
    verify_labels record_of.labels_of (owner_labels scope)

  decoded : String → String → Result String
  unfolding credential_value
  decoded role text = elim (decode text) [
    | none ↦ err (store "invalid_credential_record")
    | some value ↦ credential_value value role
  ]

  -- `_read` on the secret that the client has read.
  unfoldable pub check_secret : String → String → String → V1Secret → Result String
  unfolding labels verify_labels decoded
  check_secret slot role name secret = do
    raise_if (not (is_text secret.name name) || not (is_text secret.namespace namespace))
        (store "credential_owner_mismatch")
    expected ← labels scope slot role
    verify_labels secret.labels_of expected
    raise_if (not (is_text secret.type_of "Opaque") || not (is_true secret.immutable))
        (store "invalid_credential_record")
    text ← field_of secret.data_map
    decoded role text

  -- The result of `_read`, for what `read_namespaced_secret` gives.
  unfoldable pub read_result : String → String → String → Result V1Secret → Result (Option String)
  unfolding check_secret raised
  read_result slot role name (err (api (some status))) =
      if status == 404 then ok none else err (raised (api (some status)))
  read_result slot role name (err e) = err (raised e)
  read_result slot role name (ok secret) = do
    value ← check_secret slot role name secret
    ok (some value)

  -- The secret that `_create` sends.
  unfoldable pub secret_of : String → String → Dict String → V1Secret
  secret_of name value slot_labels = record {
    name = some name;
    namespace = some namespace;
    labels_of = some slot_labels;
    type_of = some "Opaque";
    immutable = some true;
    data_map = some (("value", encode value) ∷ []);
  }

  -- The result of `_create`, for what `create_namespaced_secret` gives.
  unfoldable pub create_result : Result (Unit {0}) → Result Bool
  unfolding raised
  create_result (ok _) = ok true
  create_result (err (api (some status))) =
      if status == 409 then ok false else err (raised (api (some status)))
  create_result (err e) = err (raised e)

  module _ {C : Type 0} (client : KubernetesClient C)
      (guard : Option (C → Result (Unit {0}) × C)) where
    -- `_verify_namespace`
    unfoldable pub verify_namespace : C → Result (Unit {0}) × C
    unfolding check_namespace
    verify_namespace c =
        let (answer, c') = client.read_namespace namespace c in (check_namespace answer, c')

    read_named : String → String → Result String → C → Result (Option String) × C
    unfolding read_result
    read_named slot role (err e) c = (err e, c)
    read_named slot role (ok name) c =
        let (answer, c') = client.read_secret name namespace c in
        (read_result slot role name answer, c')

    read_verified : String → String → Result (Unit {0}) × C → Result (Option String) × C
    unfolding read_named secret_name
    read_verified slot role (err e, c) = (err e, c)
    read_verified slot role (ok _, c) = read_named slot role (secret_name digest scope slot role) c

    -- `_read`
    unfoldable pub read_value : String → String → C → Result (Option String) × C
    unfolding read_verified verify_namespace
    read_value slot role c = read_verified slot role (verify_namespace c)

    run_guard : C → Result (Unit {0}) × C
    run_guard c = elim guard [ none ↦ (ok tt, c) | some check ↦ check c ]

    send : V1Secret → Result (Unit {0}) × C → Result Bool × C
    unfolding create_result
    send secret (err e, c) = (err e, c)
    send secret (ok _, c) =
        let (answer, c') = client.create_secret namespace secret c in (create_result answer, c')

    create_named : String → Result (String × Dict String) → C → Result Bool × C
    unfolding send run_guard secret_of
    create_named value (err e) c = (err e, c)
    create_named value (ok (name, slot_labels)) c =
        send (secret_of name value slot_labels) (run_guard c)

    -- `_create`
    unfoldable pub create_value : String → String → String → C → Result Bool × C
    unfolding create_named secret_name labels
    create_value slot role value c =
        create_named value
          (do
            name ← secret_name digest scope slot role
            slot_labels ← labels scope slot role
            ok (name, slot_labels))
          c

    -- `KubernetesCredentialStore`, for `_OwnedStore`
    unfoldable pub kubernetes_store : Backend C
    unfolding read_value create_value
    kubernetes_store = record {
      read_value = read_value;
      allow_create = λ c. (ok tt, c);
      create_value = create_value;
    }
