-- ===== src/PostgresSizes.antt =====
-- `restriction` and `available_sizes` of scripts/operations/azure/postgres_sizes.py. A size keeps its
-- memory in MiB; what Azure gives as a status or a reason is left out of the messages; `str.lower`
-- and the order of the texts that `sorted` uses are parameters.
pub mod Eligible
use Prim.Native.Char.{Char, code}
use Prim.Native.String
use radius_todolist_app.Prelude.{
  ℕ, ◌*◌, String, Bool, true, false, not, ◌&&◌, ◌||◌, Option, none, some, List, [], ◌∷◌, str_eq,
  leb, ◌==◌, if◌then◌else◌,
}
use radius_todolist_app.Error.{
  Error, Result, ok, err, selection_error, other, ◌>>=◌, ◌>>◌, raise_if,
}
use radius_todolist_app.Dict.{Dict, get}
use radius_todolist_app.Text.{concat, is_digit, is_one_of, all_chars}
use radius_todolist_app.Json.{
  Json, null, boolean, int, text, arr, obj, end, stop, items, fields, dict_of,
}
use radius_todolist_app.Identity.Patterns.{is_standard_size}
use radius_todolist_app.NodeSizes.{integer}

-- `Size`
pub record Size : Type 0 where
  pub name : String
  pub tier : String
  pub cpus : ℕ
  pub memory_mb : ℕ
  pub zones : List String

is_restricted : Option Json → Bool
is_restricted none = false
is_restricted (some null) = false
is_restricted (some (boolean b)) = b
is_restricted (some (text s)) = not (str_eq s "Disabled")
is_restricted (some _) = true

is_available : Option Json → Bool
unfolding is_one_of
is_available none = true
is_available (some null) = true
is_available (some (text s)) = is_one_of s ("Available" ∷ "Enabled" ∷ [])
is_available (some _) = false

is_truthy : Option Json → Bool
is_truthy none = false
is_truthy (some null) = false
is_truthy (some (boolean b)) = b
is_truthy (some (int n)) = not (n == 0)
is_truthy (some (text s)) = not (str_eq s "")
is_truthy (some (arr end)) = false
is_truthy (some (obj stop)) = false
is_truthy (some _) = true

-- `restriction`
unfoldable pub restriction : Dict Json → Option String
unfolding is_restricted is_available is_truthy get
restriction m =
    if is_restricted (get "restricted" m)
    then some "restricted by Azure"
    else if not (is_available (get "status" m))
    then some "Azure status"
    else if is_truthy (get "reason" m)
    then some "reason"
    else none

-- The dictionaries of a list that holds nothing else.
dicts_of : List Json → Option (List (Dict Json))
dicts_of [] = some []
dicts_of (obj fs ∷ vs) = elim (dicts_of vs) [ none ↦ none | some ms ↦ some (fields fs ∷ ms) ]
dicts_of (_ ∷ vs) = none

need_dicts : Option Json → String → Result (List (Dict Json))
unfolding dicts_of
need_dicts (some (arr vs)) message = elim (dicts_of (items vs)) [
  | none ↦ err (selection_error message)
  | some ms ↦ ok ms
]
need_dicts _ message = err (selection_error message)

abbrev has_name : String → Dict Json → Bool
unfolding get
has_name name m = elim (get "name" m) [ some (text s) ↦ str_eq s name | _ ↦ false ]

abbrev has_status : String → Dict Json → Bool
unfolding get
has_status value m = elim (get "status" m) [ some (text s) ↦ str_eq s value | _ ↦ false ]

named : String → List (Dict Json) → List (Dict Json)
unfolding has_name
named name [] = []
named name (m ∷ ms) = let rest = named name ms in if has_name name m then m ∷ rest else rest

is_offer_restricted : List (Dict Json) → Bool
unfolding has_name has_status
is_offer_restricted [] = false
is_offer_restricted (m ∷ ms) =
    (has_name "OfferRestricted" m && not (has_status "Disabled" m)) || is_offer_restricted ms

-- [1-9][0-9]*
is_zone : Json → Bool
unfolding all_chars
is_zone (text String.[]) = false
is_zone (text (String.◌∷◌ c s)) = is_digit c && not (code c == b'0') && all_chars is_digit s
is_zone _ = false

are_zones : List Json → Bool
unfolding is_zone
are_zones [] = true
are_zones (v ∷ vs) = is_zone v && are_zones vs

texts : List Json → List String
texts [] = []
texts (text s ∷ vs) = s ∷ texts vs
texts (_ ∷ vs) = texts vs

-- The zones, where `supportedZones` is valid.
zones_of : Option Json → Option (List String)
unfolding are_zones texts
zones_of (some (arr vs)) = if are_zones (items vs) then some (texts (items vs)) else none
zones_of _ = none

-- The cores and the memory of a record, or its problem.
unfoldable pub capacity : Dict Json → Result (ℕ × ℕ)
unfolding integer get
capacity m = do
  cpus ← integer (get "vCores" m) "PostgreSQL vCores"
  memory_mb ← integer (get "supportedMemoryPerVcoreMb" m) "PostgreSQL memory per vCore"
  ok (cpus, cpus * memory_mb)

unfoldable pub fits : ℕ → ℕ → Bool
fits cpus memory_mb = leb 2 cpus && leb cpus 8 && leb 8192 memory_mb && leb memory_mb 65536

module _ (lower : String → String) (precedes : String → String → Bool) where
  insert : String → List String → List String
  unfolding is_one_of
  insert s [] = s ∷ []
  insert s (t ∷ ts) =
      let rest = insert s ts in
      if str_eq s t then t ∷ ts else if precedes t s then t ∷ rest else s ∷ t ∷ ts

  -- `sorted(set(zones))`
  sorted : List String → List String
  unfolding insert
  sorted [] = []
  sorted (s ∷ ss) = insert s (sorted ss)

  sized : String → Result (ℕ × ℕ) → Option (List String) → Option Size
  unfolding sorted fits
  sized name (ok (cpus, memory_mb)) (some zones) =
      if fits cpus memory_mb
      then some (record {
        name = name;
        tier = "GeneralPurpose";
        cpus = cpus;
        memory_mb = memory_mb;
        zones = sorted zones;
      })
      else none
  sized name _ _ = none

  -- The size of a record of the loop, if it has no problem.
  unfoldable pub size_of : String → Dict Json → Option Size
  unfolding restriction sized capacity zones_of get
  size_of name m = elim (restriction m) [
    | some problem ↦ none
    | none ↦ sized name (capacity m) (zones_of (get "supportedZones" m))
  ]

  name_of : Option Json → Result String
  unfolding is_standard_size
  name_of (some (text s)) =
      if is_standard_size s
      then ok s
      else err (selection_error "Invalid or duplicate PostgreSQL SKU name")
  name_of _ = err (selection_error "Invalid or duplicate PostgreSQL SKU name")

  add : String → Option Size → Dict Size → Dict Size
  add key none sizes = sizes
  add key (some size) sizes = (key, size) ∷ sizes

  -- The loop over `skus`; `seen` are the keys of `problems`.
  unfoldable pub eligible_from : List String → List (Dict Json) → Result (Dict Size)
  unfolding name_of add size_of is_one_of get
  eligible_from seen [] = ok []
  eligible_from seen (m ∷ ms) = do
    name ← name_of (get "name" m)
    raise_if (is_one_of (lower name) seen)
        (selection_error "Invalid or duplicate PostgreSQL SKU name")
    rest ← eligible_from (lower name ∷ seen) ms
    ok (add (lower name) (size_of name m) rest)

  features_of : Option Json → Result (List (Dict Json))
  unfolding need_dicts
  features_of none = ok []
  features_of (some v) = need_dicts (some v) "PostgreSQL capability features are invalid"

  unrestricted : Option String → String → Result (Unit {0})
  unrestricted none message = ok tt
  unrestricted (some problem) message = err (selection_error message)

  -- The one element of a list.
  the_one : {A : Type 0} → List A → String → Result A
  the_one (a ∷ []) message = ok a
  the_one _ message = err (selection_error message)

  -- `available_sizes`
  unfoldable pub available_sizes : List Json → Result (Dict Size)
  unfolding the_one unrestricted features_of need_dicts is_offer_restricted named restriction
      eligible_from get
  available_sizes records = do
    value ← the_one records "Expected one regional PostgreSQL capability record"
    capabilities ← dict_of value
    unrestricted (restriction capabilities) "PostgreSQL provisioning is unavailable"
    features ← features_of (get "supportedFeatures" capabilities)
    raise_if (is_offer_restricted features)
        (selection_error "The subscription offer is restricted for PostgreSQL")
    versions ←
        need_dicts (get "supportedServerVersions" capabilities)
          "PostgreSQL version capabilities are missing or invalid"
    version ←
        the_one (named "16" versions) "PostgreSQL 16 is not advertised as available in this region"
    unrestricted (restriction version) "PostgreSQL 16 is not advertised as available in this region"
    editions ←
        need_dicts (get "supportedServerEditions" capabilities)
          "PostgreSQL edition capabilities are missing or invalid"
    edition ←
        the_one (named "GeneralPurpose" editions)
          "Expected one PostgreSQL GeneralPurpose capability record"
    unrestricted (restriction edition) "PostgreSQL GeneralPurpose is unavailable"
    skus ←
        need_dicts (get "supportedServerSkus" edition)
          "PostgreSQL compute capabilities are missing or invalid"
    eligible_from [] skus
