-- ===== src/CredentialStore/KeyVault.antt =====
-- `AzureKeyVaultCredentialStore` of src/plane_demo/management/providers/secret_store.py, as a backend
-- of `_OwnedStore`. The SDK's client and the guard are parameters.
pub mod Singleton
use radius_todolist_app.Prelude.{
  ℕ, String, Bool, true, false, not, ◌&&◌, ◌||◌, Option, none, some, str_eq, ◌==◌, if◌then◌else◌,
}
use radius_todolist_app.Error.{Error, Result, ok, err, store, ◌>>=◌, ◌>>◌, raise_if}
use radius_todolist_app.Dict.{Dict}
use radius_todolist_app.CredentialStore.{Backend}
use radius_todolist_app.CredentialStore.Scope.{
  CredentialScope, labels, secret_name, request_error, verify_labels,
}
use radius_todolist_app.CredentialStore.Kubernetes.{credential_value, is_text, is_true}

-- What a call of the client raises: one of `request_errors`, with its status and the code of its
-- error, or another exception.
pub data Failure : Type 0 where
  request : Option ℕ → Option String → Failure
  exception : Error → Failure

pub data Answer (A : Type 0) : Type 0 where
  answered : A → Answer A
  failed : Failure → Answer A

-- A KeyVaultSecret, with its properties.
pub record KeyVaultSecret : Type 0 where
  pub name : Option String
  pub tags : Option (Dict String)
  pub enabled : Option Bool
  pub value : Option String

-- `KeyVaultClient`, over a state of the vault's.
pub record KeyVaultClient (V : Type 0) : Type 0 where
  pub get_secret : String → V → Answer KeyVaultSecret × V
  pub set_secret : String → String → Dict String → V → Answer (Unit {0}) × V

-- The check of `__init__`.
unfoldable pub accepts_scope : CredentialScope → Result (Unit {0})
accepts_scope scope =
    raise_if (not (str_eq scope.environment "azure")) (store "invalid_credential_scope")

module _ (scope : CredentialScope) (digest : String → String) where
  value_of : String → Option String → Result (Option String)
  unfolding credential_value
  value_of role none = err (store "invalid_credential_value")
  value_of role (some text) = do value ← credential_value text role; ok (some value)

  -- The result of `_read`, for what `get_secret` gives.
  unfoldable pub read_result :
      String → String → String → Answer KeyVaultSecret → Result (Option String)
  unfolding request_error labels verify_labels value_of
  read_result slot role name (failed (exception e)) = err e
  read_result slot role name (failed (request none code)) = err (request_error none)
  read_result slot role name (failed (request (some status) code)) =
      if status == 404 && is_text code "SecretNotFound"
      then ok none
      else err (request_error (some status))
  read_result slot role name (answered secret) = do
    raise_if (not (is_text secret.name name)) (store "credential_owner_mismatch")
    expected ← labels scope slot role
    verify_labels secret.tags expected
    raise_if (not (is_true secret.enabled)) (store "invalid_credential_record")
    value_of role secret.value

  -- The result of `_create`, for what `set_secret` gives.
  unfoldable pub create_result : Answer (Unit {0}) → Result Bool
  unfolding request_error
  create_result (answered _) = ok true
  create_result (failed (exception e)) = err e
  create_result (failed (request none code)) = err (request_error none)
  create_result (failed (request (some status) code)) =
      if status == 409 then ok false else err (request_error (some status))

  module _ {V : Type 0} (client : KeyVaultClient V) (singleton_writer : Bool)
      (guard : Option (V → Result (Unit {0}) × V)) where
    -- `_allow_create`
    unfoldable pub allow_create : V → Result (Unit {0}) × V
    allow_create v =
        if singleton_writer
        then elim guard [ none ↦ (ok tt, v) | some check ↦ check v ]
        else (err (store "credential_store_singleton_required"), v)

    read_named : String → String → Result String → V → Result (Option String) × V
    unfolding read_result
    read_named slot role (err e) v = (err e, v)
    read_named slot role (ok name) v =
        let (answer, v') = client.get_secret name v in (read_result slot role name answer, v')

    -- `_read`
    unfoldable pub read_value : String → String → V → Result (Option String) × V
    unfolding read_named secret_name
    read_value slot role v = read_named slot role (secret_name digest scope slot role) v

    create_named : String → Result (String × Dict String) → V → Result Bool × V
    unfolding create_result
    create_named value (err e) v = (err e, v)
    create_named value (ok (name, tags)) v =
        let (answer, v') = client.set_secret name value tags v in (create_result answer, v')

    -- `_create`
    unfoldable pub create_value : String → String → String → V → Result Bool × V
    unfolding create_named secret_name labels
    create_value slot role value v =
        create_named value
          (do
            name ← secret_name digest scope slot role
            tags ← labels scope slot role
            ok (name, tags))
          v

    -- `AzureKeyVaultCredentialStore`, for `_OwnedStore`
    unfoldable pub key_vault_store : Backend V
    unfolding read_value allow_create create_value
    key_vault_store = record {
      read_value = read_value;
      allow_create = allow_create;
      create_value = create_value;
    }
