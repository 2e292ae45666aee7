-- ===== src/CredentialStore/Scope.antt =====
-- `CredentialScope` with its labels and names, `_request_error` and `_verify_labels` of
-- src/plane_demo/management/providers/secret_store.py. The hexadecimal SHA-256 is a parameter.

use radius_todolist_app.Prelude.{
  ℕ, String, Bool, true, false, not, ◌&&◌, ◌||◌, Option, none, some, [], ◌∷◌, ◌++◌, str_eq, ◌==◌,
  leb, if◌then◌else◌,
}
use radius_todolist_app.Error.{Error, Result, ok, err, store, ◌>>◌, raise_if}
use radius_todolist_app.Dict.{Dict, get}
use radius_todolist_app.Text.{is_lower, is_framed, is_one_of, concat}
use radius_todolist_app.CredentialStore.{is_reference}

pub record CredentialScope : Type 0 where
  pub project : String
  pub deployment : String
  pub environment : String

-- IDENTIFIER: [a-z](?:[a-z0-9-]{0,46}[a-z0-9])?
unfoldable pub is_identifier : String → Bool
unfolding is_framed
is_identifier = is_framed is_lower b'-' 46

-- `CredentialScope(...)`
unfoldable pub scope_of : CredentialScope → Result CredentialScope
unfolding is_one_of is_identifier
scope_of s = do
  raise_if
      (not (is_one_of s.environment ("azure" ∷ "local" ∷ []))
        || not (is_identifier s.project)
        || not (is_identifier s.deployment))
      (store "invalid_credential_scope")
  ok s

unfoldable pub owner_labels : CredentialScope → Dict String
owner_labels s =
    ("plane-demo/project", s.project)
    ∷ ("plane-demo/deployment", s.deployment)
    ∷ ("plane-demo/environment", s.environment)
    ∷ []

-- `_validate_reference`
unfoldable pub validate_reference : String → String → Result (Unit {0})
unfolding is_reference
validate_reference slot role =
    raise_if (not (is_reference slot role)) (store "invalid_credential_reference")

unfoldable pub all_labels : CredentialScope → String → String → Dict String
unfolding owner_labels
all_labels s slot role =
    owner_labels s
    ++ (("plane-demo/source", "credential-store")
        ∷ ("plane-demo/credential-schema", "v1")
        ∷ ("plane-demo/slot", slot)
        ∷ ("plane-demo/credential-role", role)
        ∷ [])

unfoldable pub labels : CredentialScope → String → String → Result (Dict String)
unfolding validate_reference all_labels
labels s slot role = do validate_reference slot role; ok (all_labels s slot role)

unfoldable pub quoted : String → String → String
unfolding concat
quoted text rest = concat "\"" (concat text (concat "\"" rest))

-- `json.dumps([...], separators=(",", ":"))` of texts in which nothing is escaped.
unfoldable pub identity_text : CredentialScope → String → String → String
unfolding quoted concat
identity_text s slot role = concat "[" (
    quoted s.project (
      concat "," (
        quoted s.deployment (
          concat ","
            (quoted s.environment (concat "," (quoted slot (concat "," (quoted role "]")))))))))

module _ (digest : String → String) where
  unfoldable pub secret_name : CredentialScope → String → String → Result String
  unfolding validate_reference identity_text concat
  secret_name s slot role = do
    validate_reference slot role
    ok (concat "credential-" (digest (identity_text s slot role)))

-- `_request_error`
unfoldable pub request_error : Option ℕ → Error
request_error none = store "credential_store_unavailable"
request_error (some status) =
    if status == 401 || status == 403
    then store "credential_store_access_denied"
    else if status == 404
    then store "credential_store_missing"
    else if status == 409
    then store "credential_conflict"
    else if status == 408 || status == 429 || leb 500 status
    then store "credential_store_unavailable"
    else store "credential_store_failed"

unfoldable pub has_value : Option String → String → Bool
has_value none value = false
has_value (some text) value = str_eq text value

unfoldable pub has_labels : Dict String → Dict String → Bool
unfolding get has_value
has_labels actual [] = true
has_labels actual ((k, v) ∷ expected) = has_value (get k actual) v && has_labels actual expected

-- `_verify_labels`
unfoldable pub verify_labels : Option (Dict String) → Dict String → Result (Unit {0})
unfolding has_labels
verify_labels none expected = err (store "credential_owner_mismatch")
verify_labels (some actual) expected =
    raise_if (not (has_labels actual expected)) (store "credential_owner_mismatch")
