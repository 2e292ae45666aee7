-- ===== src/Tests/Credentials.antt =====
-- A store with one place for a credential.
use radius_todolist_app.Prelude.{String, true, false, Option, none, some, ◌≡◌, ◌⊎◌, refl}
use radius_todolist_app.Error.{ok, err, store}
use radius_todolist_app.CredentialStore.{
  Backend, is_reference, is_provided, is_credential, use_existing, get_or_create, get,
}
use radius_todolist_app.CredentialStore.Owned.{
  WasRead, Agrees, get_or_create_stored, get_or_create-WasRead,
}

abbrev place : Backend (Option String)
place = record {
  read_value = λ slot role b. (ok b, b);
  allow_create = λ b. (ok tt, b);
  create_value = λ slot role value b. (ok true, some value);
}

abbrev secret : String
secret = "0123456789abcdef0123456789abcdef"

get_or_create_stored_example :
    let (r, after) = get_or_create place secret "management" "mgmt_api" none false (some "kept") in
    ((after ≡ some "kept")
      × (get place secret "management" "mgmt_api" (some "kept") ≡ (ok "kept", some "kept"))
      × Agrees "kept" none r)
    ⊎ ((after ≡ some "kept")
        × (is_reference "management" "mgmt_api" ≡ false)
        × (r ≡ err (store "invalid_credential_reference")))
    ⊎ ((after ≡ some "kept")
        × (is_provided place secret "management" "mgmt_api" none ≡ false)
        × (r ≡ err (store "invalid_credential_value")))
get_or_create_stored_example =
    get_or_create_stored place secret "management" "mgmt_api" none false (some "kept") (some "kept")
      "kept" refl

get_or_create-WasRead_example :
    WasRead place secret "management" "mgmt_api" none secret (some secret)
unfolding get_or_create use_existing is_reference is_credential
get_or_create-WasRead_example =
    get_or_create-WasRead place secret "management" "mgmt_api" none false none secret refl
