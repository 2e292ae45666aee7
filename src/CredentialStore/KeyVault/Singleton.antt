-- ===== src/CredentialStore/KeyVault/Singleton.antt =====
-- `get_or_create` of the Key Vault store without `singleton_writer`.
use radius_todolist_app.Prelude.{
  String, ◌≡◌, refl, inl, inr, Bool, false, Option, none, some, Bool-cases,
}
use radius_todolist_app.Error.{Error, Result, ok, err, store}
use radius_todolist_app.CredentialStore.{
  Backend, is_reference, get_or_create, use_existing, is_provided,
}
use radius_todolist_app.CredentialStore.Scope.{CredentialScope, secret_name}
use radius_todolist_app.CredentialStore.KeyVault.{
  KeyVaultClient, key_vault_store, allow_create, read_value, read_named,
}

module _ {B : Type 0} (backend : Backend B) (generated : String) (slot role : String)
    (Same : B → Type 0) where
  -- Where nothing may be created, `get_or_create` leaves the state as its first read leaves it.
  get_or_create-refused :
      (provided : Option String) (require_existing : Bool) (b : B) (refusal : B → Error)
      → ((b' : B) → backend.allow_create b' ≡ (err (refusal b'), b'))
      → Same b
      → Same (backend.read_value slot role b).1
      → Same (get_or_create backend generated slot role provided require_existing b).1
  unfolding get_or_create
  get_or_create-refused provided require_existing b refusal refused same kept =
      elim (Bool-cases (is_reference slot role)) [
        | inr f ↦ rw (get_or_create, f) same
        | inl t ↦ elim (Bool-cases (is_provided backend generated slot role provided)) [
          | inr f ↦ rw (get_or_create, t, f) same
          | inl u ↦ rw (get_or_create, t, u) (go (backend.read_value slot role b) kept)
        ]
      ]
    where
      go :
          (seen : Result (Option String) × B)
          → Same seen.1
          → Same (use_existing backend generated slot role provided require_existing seen).1
      go (err e, b') kept = kept
      go (ok (some existing), b') kept = kept
      go (ok none, b') kept = elim (Bool-cases require_existing) [
        | inl t ↦ rw t kept
        | inr f ↦ rw (f, refused b') kept
      ]

module _ (scope : CredentialScope) (digest : String → String) {V : Type 0}
    (client : KeyVaultClient V) (singleton_writer : Bool)
    (guard : Option (V → Result (Unit {0}) × V)) where
  read_value-Same :
      (Same : V → Type 0) (slot role : String) (v : V)
      → ((name : String) (v' : V) → Same v' → Same (client.get_secret name v').1)
      → Same v
      → Same (read_value scope digest client singleton_writer guard slot role v).1
  unfolding read_value
  read_value-Same Same slot role v keeps same = go (secret_name digest scope slot role)
    where
      go :
          (name : Result String)
          → Same (read_named scope digest client singleton_writer guard slot role name v).1
      go (err e) = same
      go (ok name) = keeps name v same

module _ (scope : CredentialScope) (digest : String → String) {V : Type 0}
    (client : KeyVaultClient V) (guard : Option (V → Result (Unit {0}) × V)) where
  -- Without `singleton_writer`, whatever the guard is, a property of the vault that reads keep is
  -- kept by `get_or_create`: no secret is set.
  pub get_or_create-Singleton :
      (Same : V → Type 0) (generated slot role : String) (provided : Option String)
      (require_existing : Bool) (v : V)
      → ((name : String) (v' : V) → Same v' → Same (client.get_secret name v').1)
      → Same v
      → Same
          (get_or_create
            (key_vault_store scope digest client false guard)
            generated
            slot
            role
            provided
            require_existing
            v).1
  unfolding key_vault_store allow_create
  get_or_create-Singleton Same generated slot role provided require_existing v keeps same =
      get_or_create-refused (key_vault_store scope digest client false guard) generated slot role
        Same provided require_existing v (λ _. store "credential_store_singleton_required")
        (λ v'. refl) same
        (read_value-Same scope digest client false guard Same slot role v keeps same)
