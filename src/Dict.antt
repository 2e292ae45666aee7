-- ===== src/Dict.antt =====
-- Python's `dict`, as the list of its items in insertion order; the first item of a key counts.
pub mod Collect
use radius_todolist_app.Prelude.{String, Option, none, some, List, [], ◌∷◌, str_eq, if◌then◌else◌}

abbrev pub Dict : Type 0 → Type 0
Dict A = List (String × A)

module _ {A : Type 0} where
  -- `m.get(key)`
  unfoldable pub get : String → Dict A → Option A
  get key [] = none
  get key ((k, v) ∷ m) = if str_eq k key then some v else get key m

  -- What `for key, value in items: if value is not None: m[key] = value` gives, for distinct keys.
  unfoldable pub collect : List (String × Option A) → Dict A
  collect [] = []
  collect ((k, none) ∷ m) = collect m
  collect ((k, some v) ∷ m) = (k, v) ∷ collect m
