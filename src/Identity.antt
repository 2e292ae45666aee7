-- ===== src/Identity.antt =====
-- src/plane_demo/management/providers/identity.py: the names that a deployment derives, with
-- `DemoConfig` in the child modules. Values are texts and numbers.
pub mod Slots
pub mod Patterns
pub mod Config
pub mod Values
pub mod Items
pub mod RoundTrip
pub mod Public
pub mod Names
use radius_todolist_app.Prelude.{
  ℕ, String, Bool, true, false, not, ◌&&◌, ◌||◌, Option, none, some, List, [], ◌∷◌, str_eq, leb,
  if◌then◌else◌,
}
use radius_todolist_app.Error.{Error, Result, ok, err, value_error, ◌>>=◌, ◌>>◌, raise_if}
use radius_todolist_app.Text.{
  is_lower, is_alnum, is_label_char, is_headed, is_framed, concat, rpartition, strip_prefix,
  remove_prefix, is_one_of, str,
}

-- ISOLATED_NAME: [a-z0-9](?:[a-z0-9-]{0,10}[a-z0-9])?
unfoldable pub is_isolated_name : String → Bool
unfolding is_framed
is_isolated_name = is_framed is_alnum b'-' 10

-- SLOTS
abbrev pub all_slots : List String
all_slots =
    "management" ∷ "shared-control" ∷ "shared-data" ∷ "isolated-1-control" ∷ "isolated-1-data" ∷ []

-- AZURE_DEFAULT_SLOTS
abbrev pub azure_default_slots : List String
azure_default_slots = "management" ∷ "shared-control" ∷ "shared-data" ∷ []

unfoldable pub isolated_pair : String → Result String
unfolding is_isolated_name remove_prefix is_one_of concat
isolated_pair name = do
  let short = remove_prefix "isolated-" name
  raise_if (not (is_isolated_name short) || is_one_of short ("shared" ∷ "management" ∷ []))
      (value_error "Isolated environment names require 1-12 lowercase letters or digits")
  ok (concat "isolated-" short)

-- `isolated_pair(pair) == pair`, false where it raises
unfoldable pub is_pair : String → Bool
unfolding isolated_pair
is_pair pair = elim (isolated_pair pair) [ ok name ↦ str_eq name pair | err e ↦ false ]

starts_isolated : String → Bool
unfolding strip_prefix
starts_isolated pair = elim (strip_prefix "isolated-" pair) [ none ↦ false | some _ ↦ true ]

unfoldable pub azure_slot : String → Bool
unfolding is_one_of rpartition is_pair starts_isolated
azure_slot slot = is_one_of slot azure_default_slots || elim (rpartition slot) [
  | none ↦ false
  | some (pair, role) ↦
      is_one_of role ("control" ∷ "data" ∷ []) && starts_isolated pair && is_pair pair
]

-- `SLOTS.index(slot)` in SLOTS[1:]
unfoldable pub slot_index : String → Option ℕ
slot_index slot =
    if str_eq slot "shared-control"
    then some 1
    else if str_eq slot "shared-data"
    then some 2
    else if str_eq slot "isolated-1-control"
    then some 3
    else if str_eq slot "isolated-1-data"
    then some 4
    else none

given_index : String → Option ℕ → Result ℕ
unfolding slot_index
given_index slot (some index) = ok index
given_index slot none = elim (slot_index slot) [
  | none ↦ err (value_error "Named environments require an explicit allocation index")
  | some index ↦ ok index
]

unfoldable pub provisioning_namespace : String → String → Option ℕ → Result String
unfolding is_headed azure_slot given_index concat str
provisioning_namespace prefix slot index = do
  raise_if
      (not (is_headed is_lower is_label_char 0 24 prefix)
        || str_eq slot "management"
        || not (azure_slot slot))
      (value_error "Invalid child provisioning namespace selection")
  chosen ← given_index slot index
  raise_if (not (leb 1 chosen && leb chosen 14)) (value_error "Invalid child allocation index")
  ok (concat prefix (concat "-p-" (str chosen)))
