-- ===== src/CredentialStore.antt =====
-- `_OwnedStore` of src/plane_demo/management/providers/secret_store.py, over the operations that its
-- two subclasses give it. `secrets.token_urlsafe(48)` is an argument; a text has no lone surrogates.
pub mod Owned
pub mod Scope
pub mod Quoted
pub mod Unambiguous
pub mod Kubernetes
pub mod KeyVault
use Prim.Native.Char.{Char, code}
use Prim.Native.String
use radius_todolist_app.Prelude.{
  ℕ, String, Bool, true, false, not, ◌&&◌, ◌||◌, Option, none, some, str_eq, ◌==◌, ltb, leb,
  if◌then◌else◌,
}
use radius_todolist_app.Error.{Error, Result, ok, err, store}
use radius_todolist_app.Text.{is_lower, is_printable, all_chars, is_framed, rpartition, text_length}

-- [a-z](?:[a-z0-9x]{0,30}[a-z0-9])?
unfoldable pub is_name : ℕ → String → Bool
unfolding is_framed
is_name x = is_framed is_lower x 30

is_reporting_role : String → Bool
unfolding is_name
is_reporting_role (String.◌∷◌ c (String.◌∷◌ p (String.◌∷◌ u s))) =
    code c == b'c' && code p == b'p' && code u == b'_' && is_name b'_' s
is_reporting_role s = false

is_plane_role : String → String → Bool
is_plane_role plane role =
    (str_eq plane "data" && str_eq role "demoKey")
    || (str_eq plane "control"
        && (str_eq role "demoKey"
            || str_eq role "cp_api"
            || str_eq role "cp_reconciler"
            || str_eq role "dp_reconciler"))

-- `_validate_reference`
unfoldable pub is_reference : String → String → Bool
unfolding is_reporting_role is_plane_role rpartition is_name
is_reference slot role =
    if str_eq slot "management"
    then str_eq role "demoKey"
      || str_eq role "mgmt_api"
      || str_eq role "mgmt_provisioner"
      || str_eq role "management_admin"
      || is_reporting_role role
    else elim (rpartition slot) [
      | none ↦ false
      | some (pair, plane) ↦ is_name b'-' pair && is_plane_role plane role
    ]

no_null : String → Bool
no_null String.[] = true
no_null (String.◌∷◌ c s) = not (code c == 0) && no_null s

-- `_credential_value`
unfoldable pub is_credential : String → String → Bool
unfolding all_chars no_null text_length
is_credential value role =
    leb 32 (text_length value)
    && no_null value
    && (not (str_eq role "demoKey")
        || (all_chars is_printable value && leb (text_length value) 512))

-- What a subclass gives: `_read`, `_allow_create` and `_create`.
pub record Backend (B : Type 0) : Type 0 where
  pub read_value : String → String → B → Result (Option String) × B
  pub allow_create : B → Result (Unit {0}) × B
  pub create_value : String → String → String → B → Result Bool × B

-- `_match`
unfoldable pub match : String → Option String → Result String
match existing none = ok existing
match existing (some expected) =
    if str_eq existing expected then ok existing else err (store "credential_conflict")

module _ {B : Type 0} (backend : Backend B) (generated : String) (slot role : String) where
  -- After the last read.
  settle : Bool → String → Option String → Result (Option String) × B → Result String × B
  unfolding match
  settle created candidate provided (err e, b) = (err e, b)
  settle created candidate provided (ok none, b) = (err (store "credential_conflict"), b)
  settle created candidate provided (ok (some observed), b) =
      (match observed (if created then some candidate else provided), b)

  -- After `_create`.
  observe_created : String → Option String → Result Bool × B → Result String × B
  unfolding settle
  observe_created candidate provided (err e, b) = (err e, b)
  observe_created candidate provided (ok created, b) =
      settle created candidate provided (backend.read_value slot role b)

  -- The candidate: the provided value, or a generated one.
  candidate_of : Option String → String
  candidate_of none = generated
  candidate_of (some value) = value

  -- After `_allow_create`.
  create : Option String → Result (Unit {0}) × B → Result String × B
  unfolding observe_created candidate_of is_credential
  create provided (err e, b) = (err e, b)
  create provided (ok _, b) =
      if is_credential (candidate_of provided) role
      then observe_created (candidate_of provided) provided
          (backend.create_value slot role (candidate_of provided) b)
      else (err (store "invalid_credential_value"), b)

  -- After the first read.
  unfoldable pub use_existing :
      Option String → Bool → Result (Option String) × B → Result String × B
  unfolding match create
  use_existing provided require_existing (err e, b) = (err e, b)
  use_existing provided require_existing (ok (some existing), b) = (match existing provided, b)
  use_existing provided require_existing (ok none, b) =
      if require_existing
      then (err (store "credential_missing"), b)
      else create provided (backend.allow_create b)

  unfoldable pub is_provided : Option String → Bool
  unfolding is_credential
  is_provided none = true
  is_provided (some value) = is_credential value role

  -- `get_or_create`
  unfoldable pub get_or_create : Option String → Bool → B → Result String × B
  unfolding is_reference is_provided use_existing
  get_or_create provided require_existing b =
      if not (is_reference slot role)
      then (err (store "invalid_credential_reference"), b)
      else if not (is_provided provided)
      then (err (store "invalid_credential_value"), b)
      else use_existing provided require_existing (backend.read_value slot role b)

  found : Result (Option String) × B → Result String × B
  found (err e, b) = (err e, b)
  found (ok none, b) = (err (store "credential_missing"), b)
  found (ok (some value), b) = (ok value, b)

  -- `get`
  unfoldable pub get : B → Result String × B
  unfolding is_reference found
  get b =
      if not (is_reference slot role)
      then (err (store "invalid_credential_reference"), b)
      else found (backend.read_value slot role b)
