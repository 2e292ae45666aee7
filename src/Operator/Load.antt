-- ===== src/Operator/Load.antt =====
-- `OperatorConfig.from_dict` of src/plane_demo/management/provisioning.py.
use Prim.Native.Char.{Char, code}
use radius_todolist_app.Prelude.{
  ℕ, String, Bool, true, false, not, ◌&&◌, ◌||◌, Option, none, some, List, [], ◌∷◌, str_eq, ◌==◌,
  leb, if◌then◌else◌,
}
use radius_todolist_app.Error.{Result, ok, err, value_error, other, ◌>>=◌, ◌>>◌, raise_if}
use radius_todolist_app.Dict.{Dict, get}
use radius_todolist_app.Text.{
  concat, is_one_of, is_lower, is_digit, is_alnum, is_label_char, is_headed, all_chars, is_run,
  strip_prefix, text_length,
}
use radius_todolist_app.Json.{Json, boolean, int, text, arr, obj, items, fields, dict_of, at_key}
use radius_todolist_app.Identity.Config.{DemoConfig}
use radius_todolist_app.Network.{Address, validate_network}
use radius_todolist_app.Operator.{text_at, check_uuid}
use radius_todolist_app.Operator.Foundation.{select_identity}
use radius_todolist_app.Operator.Selected.{check_foundation}
use radius_todolist_app.Operator.Allocation.{check_each, role_suffix, keys_of, all_in}

-- The pairs of the slots that end in "-control".
unfoldable pub pairs_of : List String → List String
unfolding role_suffix
pairs_of [] = []
pairs_of (slot ∷ slots) =
    let rest = pairs_of slots in
    elim (role_suffix slot) [
      | none ↦ rest
      | some (pair, role) ↦ if str_eq role "control" then pair ∷ rest else rest
    ]

unfoldable pub slots_of : List String → List String
unfolding concat
slots_of [] = []
slots_of (pair ∷ pairs) = concat pair "-control" ∷ concat pair "-data" ∷ slots_of pairs

-- `"shared" in pairs and set(allocations) == {...}`
unfoldable pub is_complete : List String → Bool
unfolding is_one_of pairs_of slots_of all_in
is_complete slots =
    is_one_of "shared" (pairs_of slots)
    && all_in slots ("management" ∷ slots_of (pairs_of slots))
    && all_in ("management" ∷ slots_of (pairs_of slots)) slots

unfoldable pub are_pairs : List String → Bool
unfolding is_headed
are_pairs [] = true
are_pairs (pair ∷ pairs) = is_headed is_lower is_label_char 0 31 pair && are_pairs pairs

is_path_char : Char → Bool
is_path_char c = is_alnum c || code c == b'/' || code c == b'_' || code c == b'-'

is_tag_char : Char → Bool
is_tag_char c =
    is_alnum c
    || (leb b'A' (code c) && leb (code c) b'Z')
    || code c == b'_'
    || code c == b'.'
    || code c == b'-'

is_hex : Char → Bool
is_hex c = is_digit c || (leb b'a' (code c) && leb (code c) b'f')

-- X+ of a class, and then the character and what follows it
after_run : (Char → Bool) → ℕ → String → Option String
after_run test sep String.[] = none
after_run test sep (String.◌∷◌ c s) =
    let rest = after_run test sep s in
    if test c
    then elim s [ String.[] ↦ none | String.◌∷◌ d s' ↦ if code d == sep then some s' else rest ]
    else none

-- sha256:[a-f0-9]{64}
is_digest : String → Bool
unfolding strip_prefix is_run is_hex
is_digest s = elim (strip_prefix "sha256:" s) [
  | none ↦ false
  | some rest ↦ is_run is_hex 64 64 rest
]

-- The registry's prefix, a path of the class, the separator, and a text that passes the test.
is_image : String → ℕ → (String → Bool) → String → Bool
unfolding strip_prefix after_run is_path_char concat
is_image registry sep test s = elim (strip_prefix (concat registry ".azurecr.io/") s) [
  | none ↦ false
  | some path ↦ elim (after_run is_path_char sep path) [ none ↦ false | some rest ↦ test rest ]
]

is_tag : String → Bool
unfolding all_chars is_tag_char text_length
is_tag s = all_chars is_tag_char s && leb 1 (text_length s)

unfoldable pub check_recipes : String → Dict Json → List String → Result (Unit {0})
unfolding at_key text_at is_image is_tag is_digest
check_recipes registry recipes [] = ok tt
check_recipes registry recipes (name ∷ names) = do
  value ← at_key name recipes
  recipe ← dict_of value
  reference ← text_at "reference" recipe
  raise_if (not (is_image registry b':' is_tag reference))
      (value_error "recipes require a registry tag and expected digest")
  digest ← text_at "digest" recipe
  raise_if (not (is_digest digest))
      (value_error "recipes require a registry tag and expected digest")
  check_recipes registry recipes names

-- `image.get("reference")` of a dictionary
image_of : Json → Option Json
unfolding get
image_of (obj fs) = get "reference" (fields fs)
image_of v = some v

is_image_value : String → Option Json → Bool
unfolding is_image is_digest
is_image_value registry (some (text s)) = is_image registry b'@' is_digest s
is_image_value registry _ = false

-- `images[name] = image`, for a name that `images` has
set_key : String → Json → Dict Json → Dict Json
set_key key value [] = []
set_key key value ((k, v) ∷ m) =
    let rest = set_key key value m in if str_eq k key then (k, value) ∷ m else (k, v) ∷ rest

-- The loop over the application images.
unfoldable pub check_images : String → List String → Dict Json → Result (Dict Json)
unfolding at_key image_of is_image_value set_key
check_images registry [] images = ok images
check_images registry (name ∷ names) images = do
  value ← at_key name images
  raise_if (not (is_image_value registry (image_of value)))
      (value_error "application images must use project-registry digests")
  elim (image_of value) [
    | none ↦ err other
    | some image ↦ check_images registry names (set_key name image images)
  ]

no_null : String → Bool
no_null String.[] = true
no_null (String.◌∷◌ c s) = not (code c == 0) && no_null s

are_arguments : List Json → Bool
unfolding no_null
are_arguments [] = true
are_arguments (text s ∷ vs) = not (str_eq s "") && no_null s && are_arguments vs
are_arguments (_ ∷ vs) = false

unfoldable pub command_of : Option Json → Result (List Json)
unfolding are_arguments
command_of none = ok []
command_of (some (arr vs)) =
    if are_arguments (items vs)
    then ok (items vs)
    else err (value_error "certificateCommand must be an argument vector")
command_of (some _) = err (value_error "certificateCommand must be an argument vector")

-- `OperatorConfig`, with its mappings as they are in the file.
pub record OperatorConfig : Type 0 where
  pub foundation : Dict Json
  pub allocations : Dict Json
  pub recipes : Json
  pub images : Dict Json
  pub coordinator_identity : Json
  pub management_cluster : Json
  pub certificate_command : List Json
  pub identity : Option DemoConfig

-- `data.get("version") != 1`; True is 1
unfoldable pub is_version : Option Json → Bool
is_version (some (int n)) = n == 1
is_version (some (boolean b)) = b
is_version _ = false

module _ (uuid : String → Option String) (hash : String → String) (is_public : Address → Bool) where
  -- What follows the checks of the allocations.
  unfoldable pub check_rest :
      Dict Json → String → Dict Json → Dict Json → Option DemoConfig → Result OperatorConfig
  unfolding at_key check_recipes check_images check_uuid command_of get
  check_rest m registry foundation allocations identity = do
    recipes_value ← at_key "recipes" m
    recipes ← dict_of recipes_value
    check_recipes registry recipes ("cluster" ∷ "postgresql" ∷ "gateway" ∷ "redis" ∷ [])
    images_value ← at_key "images" m
    given ← dict_of images_value
    images ← check_images registry ("api" ∷ "provisioner" ∷ []) given
    coordinator_identity ← at_key "coordinatorIdentity" m
    coordinator ← dict_of coordinator_identity
    client ← at_key "clientId" coordinator
    check_uuid uuid client
    command ← command_of (get "certificateCommand" m)
    management_cluster ← at_key "managementCluster" m
    ok (record {
      foundation = foundation;
      allocations = allocations;
      recipes = recipes_value;
      images = images;
      coordinator_identity = coordinator_identity;
      management_cluster = management_cluster;
      certificate_command = command;
      identity = identity;
    })

  -- The allocations, if they are a dictionary with the management slot.
  unfoldable pub allocations_of : Json → Result (Dict Json)
  unfolding is_one_of keys_of
  allocations_of (obj fs) = do
    raise_if (not (is_one_of "management" (keys_of (fields fs))))
        (value_error "allocations must be a slot-keyed dictionary")
    ok (fields fs)
  allocations_of _ = err (value_error "allocations must be a slot-keyed dictionary")

  -- The checks from the allocations on.
  unfoldable pub load_allocations :
      Dict Json → String → Dict Json → Option DemoConfig → Result OperatorConfig
  unfolding at_key allocations_of text_at concat check_each validate_network is_complete keys_of
      are_pairs pairs_of check_rest
  load_allocations m registry foundation identity = do
    value ← at_key "allocations" m
    allocations ← allocations_of value
    subscription ← text_at "subscriptionId" foundation
    check_each uuid identity (concat "/subscriptions/" (concat subscription "/resourceGroups/"))
        allocations
    validate_network is_public foundation allocations
    raise_if (not (is_complete (keys_of allocations)))
        (value_error "every pair requires exactly one control and data allocation")
    raise_if (not (are_pairs (pairs_of (keys_of allocations))))
        (value_error "invalid pair allocation")
    check_rest m registry foundation allocations identity

  -- `from_dict`
  unfoldable pub from_dict : Dict Json → Option DemoConfig → Result OperatorConfig
  unfolding is_version select_identity at_key check_foundation load_allocations get
  from_dict m given = do
    raise_if (not (is_version (get "version" m)))
        (value_error "provisioning config version must be 1")
    identity ← select_identity uuid m given
    value ← at_key "foundation" m
    foundation ← dict_of value
    registry ← check_foundation uuid hash foundation identity
    load_allocations m registry foundation identity
