-- ===== src/NodeSizes/Describe.antt =====
-- `describe_size` of scripts/operations/azure/node_sizes.py. `float` on a value of the file and
-- `str.lower` are parameters.
use Prim.Native.Char.{Char, code}
use radius_todolist_app.Prelude.{
  ℕ, String, Bool, true, false, not, ◌&&◌, ◌||◌, Option, none, some, List, [], ◌∷◌, str_eq, ◌==◌,
  leb, if◌then◌else◌,
}
use radius_todolist_app.Error.{Result, ok}
use radius_todolist_app.Dict.{Dict, get}
use radius_todolist_app.Numbers.{Float, is_finite, is_at_least, is_at_most}
use radius_todolist_app.Text.{is_lower, is_digit, is_run, strip_prefix, concat, text_length}
use radius_todolist_app.Json.{Json, text, arr, obj, items, fields}
use radius_todolist_app.NodeSizes.{Size, integer}

drop_run : (Char → Bool) → String → String
drop_run test String.[] = String.[]
drop_run test (String.◌∷◌ c s) =
    let rest = drop_run test s in if test c then rest else String.◌∷◌ c s

starts_digit : String → Bool
starts_digit String.[] = false
starts_digit (String.◌∷◌ c s) = is_digit c

is_letter : Char → Bool
is_letter c = is_lower c || (leb b'A' (code c) && leb (code c) b'Z')

-- \d+
is_number : String → Bool
unfolding is_run text_length
is_number s = is_run is_digit 1 (text_length s) s

-- \d+[A-Za-z]*_v\d+
is_versioned : String → Bool
unfolding starts_digit drop_run is_letter strip_prefix is_number
is_versioned s =
    starts_digit s && elim (strip_prefix "_v" (drop_run is_letter (drop_run is_digit s))) [
      | none ↦ false
      | some version ↦ is_number version
    ]

-- Standard_[DE]\d+[A-Za-z]*_v\d+
is_size_name : String → Bool
unfolding strip_prefix is_versioned
is_size_name s = elim (strip_prefix "Standard_" s) [
  | none ↦ false
  | some String.[] ↦ false
  | some (String.◌∷◌ c rest) ↦ (code c == b'D' || code c == b'E') && is_versioned rest
]

has_text : String → List Json → Bool
has_text s [] = false
has_text s (text t ∷ vs) = str_eq t s || has_text s vs
has_text s (_ ∷ vs) = has_text s vs

abbrev list_of : Option Json → Option (List Json)
list_of (some (arr vs)) = some (items vs)
list_of _ = none

abbrev equals : Option Json → String → Bool
equals (some (text s)) expected = str_eq s expected
equals _ expected = false

-- The size that a record describes, or why it is none.
pub data Description : Type 0 where
  described : Size → Description
  rejected : String → Description

-- `info.get("locations")` of a dictionary, and else the restriction's values
scope_of_restriction : Dict Json → Option Json
unfolding get
scope_of_restriction restriction = elim (get "restrictionInfo" restriction) [
  | some (obj info) ↦ elim (get "locations" (fields info)) [
    | some Json.null ↦ get "values" restriction
    | some v ↦ some v
    | none ↦ get "values" restriction
  ]
  | _ ↦ get "values" restriction
]

-- The loop over `restrictions`.
restriction_problem : String → List Json → Option String
unfolding scope_of_restriction has_text get concat
restriction_problem location [] = none
restriction_problem location (obj fs ∷ rest) =
    let following = restriction_problem location rest in
    if equals (get "type" (fields fs)) "Location"
    then elim (list_of (scope_of_restriction (fields fs))) [
      | none ↦ some "location restriction has no scope"
      | some scope ↦
          if has_text location scope then some (concat "unavailable in " location) else following
    ]
    else if equals (get "type" (fields fs)) "Zone"
    then following
    else some "unknown availability restriction"
restriction_problem location (_ ∷ rest) = some "invalid availability restriction"

-- `caps`, if all capabilities are named
caps_of : List Json → Option (Dict (Option Json))
unfolding get
caps_of [] = some []
caps_of (obj fs ∷ vs) = elim (get "name" (fields fs)) [
  | some (text name) ↦ elim (caps_of vs) [
    | none ↦ none
    | some m ↦ some ((name, get "value" (fields fs)) ∷ m)
  ]
  | _ ↦ none
]
caps_of (_ ∷ vs) = none

has_cap : String → Dict (Option Json) → Bool
has_cap key [] = false
has_cap key ((k, v) ∷ m) = str_eq k key || has_cap key m

repeats_cap : Dict (Option Json) → Bool
unfolding has_cap
repeats_cap [] = false
repeats_cap ((k, v) ∷ m) = has_cap k m || repeats_cap m

abbrev cap : String → Dict (Option Json) → Option Json
unfolding get
cap key caps = elim (get key caps) [ none ↦ none | some value ↦ value ]

-- `part in text.replace(" ", "").split(",")`: `part` is what is left of the part that is expected
-- here, and is none after a difference.
has_part : String → Option String → String → Bool
has_part expected (some String.[]) String.[] = true
has_part expected _ String.[] = false
has_part expected left (String.◌∷◌ c s) =
    if code c == b' '
    then has_part expected left s
    else if code c == b','
    then (elim left [ some String.[] ↦ true | _ ↦ has_part expected (some expected) s ])
    else has_part expected
        (elim left [
          | none ↦ none
          | some String.[] ↦ none
          | some (String.◌∷◌ d rest) ↦ if code c == code d then some rest else none
        ])
        s

module _ (float_of : Option Json → Option Float) (lower : String → String) where
  size_of : String → String → Result ℕ → Option Float → Description
  unfolding is_finite is_at_least is_at_most
  size_of name family (ok cpus) (some memory) =
      if leb 4 cpus
        && leb cpus 16
        && is_finite memory
        && is_at_least 16 memory
        && is_at_most 64 memory
      then described (record { name = name; family = lower family; cpus = cpus; memory = memory })
      else rejected "demo choices require 4-16 vCPUs and 16-64 GiB RAM"
  size_of name family _ _ = rejected "CPU or memory capabilities are invalid"

  has_generation : Option Json → Bool
  unfolding has_part
  has_generation (some (text s)) = has_part "V2" (some "V2") s
  has_generation _ = false

  from_caps : String → String → Dict (Option Json) → Description
  unfolding size_of has_generation repeats_cap integer cap
  from_caps name family caps =
      if repeats_cap caps
      then rejected "duplicate VM capabilities"
      else if not (equals (cap "CpuArchitectureType" caps) "x64")
      then rejected "requires x64 for the demo's amd64 images"
      else if not (has_generation (cap "HyperVGenerations" caps))
      then rejected "requires a Generation 2 Azure Linux image"
      else if not (equals (cap "PremiumIO" caps) "True")
      then rejected "premium managed disk support is unavailable"
      else size_of name family (integer (cap "vCPUs" caps) "VM vCPUs")
          (float_of (cap "MemoryGB" caps))

  from_capabilities : String → String → Option (List Json) → Description
  unfolding caps_of from_caps
  from_capabilities name family none = rejected "VM capabilities are missing"
  from_capabilities name family (some vs) = elim (caps_of vs) [
    | none ↦ rejected "VM capabilities are missing"
    | some caps ↦ from_caps name family caps
  ]

  -- From the availability restrictions on; the reason of a restriction is left out.
  from_restrictions :
      String → String → String → Option (List Json) → Option (List Json) → Description
  unfolding restriction_problem from_capabilities
  from_restrictions name family location none capabilities =
      rejected "availability restrictions are missing"
  from_restrictions name family location (some vs) capabilities =
      elim (restriction_problem location vs) [
        | some problem ↦ rejected problem
        | none ↦ from_capabilities name family capabilities
      ]

  from_location : String → String → String → Option (List Json) → Dict Json → Description
  unfolding has_text from_restrictions concat get
  from_location name family location none m = rejected (concat "not offered in " location)
  from_location name family location (some vs) m =
      if has_text location vs
      then from_restrictions name family location (list_of (get "restrictions" m))
          (list_of (get "capabilities" m))
      else rejected (concat "not offered in " location)

  from_family : String → String → Option Json → Dict Json → Description
  unfolding from_location get
  from_family name location (some (text family)) m =
      if str_eq family ""
      then rejected "VM family is missing"
      else from_location name family location (list_of (get "locations" m)) m
  from_family name location _ m = rejected "VM family is missing"

  -- `describe_size`, on the record's name
  unfoldable pub describe_size : Option Json → String → Dict Json → Description
  unfolding is_size_name from_family get
  describe_size (some (text name)) location m =
      if is_size_name name
      then from_family name location (get "family" m) m
      else rejected "not a general-purpose or memory-optimized D/E size"
  describe_size _ location m = rejected "not a general-purpose or memory-optimized D/E size"
