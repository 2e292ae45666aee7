-- ===== src/ConfigMaps.antt =====
-- `ConfigMaps` of src/plane_demo/shared/kube.py with `AppliedConfiguration` of
-- src/plane_demo/shared/models.py. The Kubernetes API and the constructor of `uuid.UUID` are
-- parameters; a text has no lone surrogates, and the namespace and the timeouts are left out.
pub mod Forward
pub mod Seen
use Prim.Native.Nat.{◌/◌, ◌%◌}
use Prim.Native.Char.{Char, code}
use Prim.Native.String
use radius_todolist_app.Prelude.{
  ℕ, zero, suc, ◌+◌, ◌-◌, ◌*◌, String, Bool, true, false, not, ◌&&◌, ◌||◌, Option, none, some, List,
  [], ◌∷◌, str_eq, ◌==◌, ltb, leb, if◌then◌else◌,
}
use radius_todolist_app.Error.{
  Error, Result, ok, err, api, configuration_missing, configuration_invalid,
}
pub use radius_todolist_app.Dict.{get}
use radius_todolist_app.Dict.{Dict}
use radius_todolist_app.Text.{is_alnum, ends_alnum, text_length, concat, str, digits_value}

-- re.fullmatch(r"[1-9][0-9]{0,18}", text), and then int(text)
unfoldable pub version_value : String → Option ℕ
unfolding digits_value text_length
version_value String.[] = none
version_value (String.◌∷◌ c s) =
    if leb b'1' (code c) && leb (code c) b'9' && leb (text_length s) 18
    then digits_value (String.◌∷◌ c s)
    else none

pub record AppliedConfiguration : Type 0 where
  pub tenant_id : String
  pub onboarding_id : String
  pub message : String
  pub version : ℕ

abbrev pub applied_eq : AppliedConfiguration → AppliedConfiguration → Bool
applied_eq a b =
    str_eq a.tenant_id b.tenant_id
    && str_eq a.onboarding_id b.onboarding_id
    && str_eq a.message b.message
    && a.version == b.version

-- TENANT_PATTERN of src/plane_demo/shared/settings.py, with the field's length
unfoldable pub is_tenant_id : String → Bool
unfolding ends_alnum text_length
is_tenant_id String.[] = false
is_tenant_id (String.◌∷◌ c s) =
    is_alnum c && ends_alnum b'-' (String.◌∷◌ c s) && leb (text_length s) 31

has_null : String → Bool
has_null String.[] = false
has_null (String.◌∷◌ c s) = code c == 0 || has_null s

-- `Message`
unfoldable pub is_message : String → Bool
unfolding has_null text_length
is_message m = leb (text_length m) 1024 && not (has_null m)

-- A V1ConfigMap; `labels` and `data` may be None.
pub record ConfigMap : Type 0 where
  pub name : String
  pub resource_version : Option String
  pub labels : Option (Dict String)
  pub data_map : Option (Dict String)

-- The operations of CoreV1Api on config maps, over a state of the cluster's.
pub record Api (C : Type 0) : Type 0 where
  pub read_config_map : String → C → Result ConfigMap × C
  pub patch_config_map : String → ConfigMap → C → Result ConfigMap × C
  pub create_config_map : ConfigMap → C → Result ConfigMap × C

pub record Place : Type 0 where
  pub project_id : String
  pub pair_id : String

or_empty : Option (Dict String) → Dict String
or_empty none = []
or_empty (some m) = m

has_label : String → String → Dict String → Bool
unfolding get
has_label key value m = elim (get key m) [ none ↦ false | some v ↦ str_eq v value ]

module _ (uuid_of : String → Option String) (place : Place) where
  -- `AppliedConfiguration(...)`; the greatest version is 2 ** 63 - 1.
  unfoldable pub validate : String → String → String → ℕ → Result AppliedConfiguration
  unfolding is_tenant_id is_message
  validate tenant_id onboarding_id message version = elim (uuid_of onboarding_id) [
    | none ↦ err configuration_invalid
    | some id ↦
        if is_tenant_id tenant_id
          && is_message message
          && leb 1 version
          && leb version 9223372036854775807
        then ok (record {
          tenant_id = tenant_id;
          onboarding_id = id;
          message = message;
          version = version;
        })
        else err configuration_invalid
  ]

  has_labels : AppliedConfiguration → Dict String → Bool
  unfolding has_label
  has_labels a m =
      has_label "plane-demo/project" place.project_id m
      && has_label "plane-demo/pair" place.pair_id m
      && has_label "plane-demo/onboarding" a.onboarding_id m

  labelled : Result AppliedConfiguration → Dict String → Result AppliedConfiguration
  unfolding has_labels
  labelled (err e) m = err configuration_invalid
  labelled (ok a) m = if has_labels a m then ok a else err configuration_invalid

  parse_fields :
      String → Option ℕ → Option String → Option String → Dict String → Result AppliedConfiguration
  unfolding validate labelled
  parse_fields tenant_id (some version) (some onboarding_id) (some message) labels =
      labelled (validate tenant_id onboarding_id message version) labels
  parse_fields tenant_id _ _ _ labels = err configuration_invalid

  version_of : Option String → Option ℕ
  unfolding version_value
  version_of none = none
  version_of (some text) = version_value text

  -- `_parse`
  unfoldable pub parse : String → ConfigMap → Result AppliedConfiguration
  unfolding parse_fields version_of or_empty get
  parse tenant_id cm =
      let m = or_empty cm.data_map in
      parse_fields tenant_id (version_of (get "version" m)) (get "onboarding_id" m)
        (get "message" m) (or_empty cm.labels)

  name_of : String → String
  unfolding concat
  name_of tenant_id = concat "tenant-" tenant_id

  -- `body`
  unfoldable pub body : AppliedConfiguration → Option ConfigMap → ConfigMap
  unfolding name_of str
  body desired existing = record {
    name = name_of desired.tenant_id;
    resource_version = elim existing [ none ↦ none | some cm ↦ cm.resource_version ];
    labels = some (
        ("plane-demo/project", place.project_id)
        ∷ ("plane-demo/pair", place.pair_id)
        ∷ ("plane-demo/onboarding", desired.onboarding_id)
        ∷ []);
    data_map = some (
        ("message", desired.message)
        ∷ ("version", str desired.version)
        ∷ ("onboarding_id", desired.onboarding_id)
        ∷ []);
  }

  missing_or : Result ConfigMap → Result ConfigMap
  missing_or (err (api (some status))) =
      if status == 404 then err configuration_missing else err (api (some status))
  missing_or r = r

  module _ {C : Type 0} (kube : Api C) where
    -- `_read`
    unfoldable pub read_map : String → C → Result ConfigMap × C
    unfolding name_of missing_or
    read_map tenant_id c =
        let (r, c') = kube.read_config_map (name_of tenant_id) c in (missing_or r, c')

    parse_read : String → Result ConfigMap → Result AppliedConfiguration
    unfolding parse
    parse_read tenant_id (ok cm) = parse tenant_id cm
    parse_read tenant_id (err e) = err e

    -- `read`
    unfoldable pub read : String → C → Result AppliedConfiguration × C
    unfolding read_map parse_read
    read tenant_id c = let (r, c') = read_map tenant_id c in (parse_read tenant_id r, c')

    write : AppliedConfiguration → Option ConfigMap → C → Result ConfigMap × C
    unfolding body name_of
    write desired none c = kube.create_config_map (body desired none) c
    write desired (some cm) c =
        kube.patch_config_map (name_of desired.tenant_id) (body desired (some cm)) c

    check_actual : AppliedConfiguration → Result AppliedConfiguration → Result AppliedConfiguration
    check_actual desired (ok actual) =
        if applied_eq actual desired then ok actual else err configuration_invalid
    check_actual desired (err e) = err e

    -- What follows the `try` of `apply`.
    unfoldable pub store_map :
        AppliedConfiguration → Option ConfigMap → C → Result AppliedConfiguration × C
    unfolding write check_actual parse_read
    store_map desired existing c =
        let (response, c') = write desired existing c in
        (check_actual desired (parse_read desired.tenant_id response), c')

    -- The body of the `try` once the stored configuration is parsed.
    unfoldable pub compare_stored :
        AppliedConfiguration
        → ConfigMap
        → Result AppliedConfiguration
        → C
        → Result AppliedConfiguration × C
    unfolding store_map
    compare_stored desired cm (err e) c = (err e, c)
    compare_stored desired cm (ok current) c =
        let stored = store_map desired (some cm) c in
        if not (str_eq current.onboarding_id desired.onboarding_id)
        then (err configuration_invalid, c)
        else if ltb desired.version current.version
        then (ok current, c)
        else if current.version == desired.version
        then (if applied_eq current desired
            then (ok current, c)
            else (err configuration_invalid, c))
        else stored

    unfoldable pub apply_to :
        AppliedConfiguration → Result ConfigMap → C → Result AppliedConfiguration × C
    unfolding compare_stored parse
    apply_to desired (err configuration_missing) c = store_map desired none c
    apply_to desired (err e) c = (err e, c)
    apply_to desired (ok cm) c = compare_stored desired cm (parse desired.tenant_id cm) c

    -- `apply`
    unfoldable pub apply : AppliedConfiguration → C → Result AppliedConfiguration × C
    unfolding apply_to read_map
    apply desired c =
        let (existing, c') = read_map desired.tenant_id c in apply_to desired existing c'
