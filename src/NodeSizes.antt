-- ===== src/NodeSizes.antt =====
-- scripts/operations/azure/node_sizes.py: the budget of the fleet and the quotas that a size has to
-- fit, with `integer` of compute_selection.py. `str.lower` is a parameter.
pub mod Describe
pub mod Owned
pub mod Available
pub mod Fits
use Prim.Native.String
use radius_todolist_app.Prelude.{
  ℕ, ◌+◌, ◌-◌, ◌*◌, String, Bool, true, false, not, ◌&&◌, ◌||◌, Option, none, some, List, [], ◌∷◌,
  length, str_eq, ◌==◌, ltb, leb, if◌then◌else◌,
}
use radius_todolist_app.Error.{
  Error, Result, ok, err, selection_error, other, ◌>>=◌, ◌>>◌, raise_if,
}
use radius_todolist_app.Dict.{Dict, get}
use radius_todolist_app.Numbers.{Float}
use radius_todolist_app.Text.{concat, digits_value, is_one_of}
use radius_todolist_app.Json.{Json, int, text, arr, obj, items, fields, dict_of}

-- `integer`; a number that is no natural number is none of Json's
unfoldable pub integer : Option Json → String → Result ℕ
unfolding digits_value concat
integer (some (int n)) label = ok n
integer (some (text s)) label = elim (digits_value s) [
  | none ↦ err (selection_error (concat label ": expected a nonnegative integer"))
  | some n ↦ ok n
]
integer _ label = err (selection_error (concat label ": expected a nonnegative integer"))

pub record Budget : Type 0 where
  pub clusters : ℕ
  pub nodes : ℕ

-- The texts of a list, if all of its values are texts.
texts_of : List Json → Option (List String)
texts_of [] = some []
texts_of (text s ∷ vs) = elim (texts_of vs) [ none ↦ none | some ss ↦ some (s ∷ ss) ]
texts_of (_ ∷ vs) = none

has_duplicate : List String → Bool
unfolding is_one_of
has_duplicate [] = false
has_duplicate (s ∷ ss) = is_one_of s ss || has_duplicate ss

slots_of : Option Json → Option (List String)
unfolding texts_of
slots_of (some (arr vs)) = texts_of (items vs)
slots_of _ = none

budget_of : ℕ → Option (List String) → Result Budget
unfolding has_duplicate is_one_of
budget_of nodes none =
    err (selection_error "The compiled template has an invalid cluster capacity plan")
budget_of nodes (some slots) =
    if ltb nodes 2 || has_duplicate slots || is_one_of "management" slots
    then err (selection_error "The compiled template has an invalid cluster capacity plan")
    else ok (record { clusters = length slots + 1; nodes = nodes })

-- The two parameters, if `parameters` and both of them are dictionaries.
parameters_of : Option Json → Option (Dict Json × Dict Json)
unfolding get
parameters_of (some (obj fs)) = elim (get "nodeCount" (fields fs)) [
  | some (obj nodes) ↦ elim (get "childSlots" (fields fs)) [
    | some (obj slots) ↦ some (fields nodes, fields slots)
    | _ ↦ none
  ]
  | _ ↦ none
]
parameters_of _ = none

-- `Budget.from_template`
unfoldable pub from_template : Dict Json → Result Budget
unfolding parameters_of integer slots_of budget_of get
from_template template = elim (parameters_of (get "parameters" template)) [
  | none ↦ err (selection_error "The compiled template has no node capacity parameters")
  | some (nodes, slots) ↦ do
    count ← integer (get "defaultValue" nodes) "Node count"
    budget_of count (slots_of (get "defaultValue" slots))
]

-- `Size`
pub record Size : Type 0 where
  pub name : String
  pub family : String
  pub cpus : ℕ
  pub memory : Float

unfoldable pub fleet_nodes : Budget → ℕ
fleet_nodes budget = budget.clusters * budget.nodes

unfoldable pub required_cores : Budget → Size → ℕ
required_cores budget size = budget.clusters * (budget.nodes + 1) * size.cpus

-- What `quota_problem` says, with the numbers of its message.
pub data Problem : Type 0 where
  not_returned : (name : String) → Problem
  not_caught_up : (name : String) → Problem
  needs : (name : String) (needed limit current : ℕ) → Problem

abbrev pub owned_of : String → Dict ℕ → ℕ
unfolding get
owned_of name credits = elim (get name credits) [ none ↦ 0 | some n ↦ n ]

-- The loop's body of `quota_problem`.
unfoldable pub name_problem : ℕ → String → Dict (ℕ × ℕ) → Dict ℕ → Option Problem
unfolding get owned_of
name_problem required name quotas credits = elim (get name quotas) [
  | none ↦ some (not_returned name)
  | some (current, limit) ↦
      let owned = owned_of name credits in
      if ltb current owned
      then some (not_caught_up name)
      else if ltb limit (current + (required - owned))
      then some (needs name (required - owned) limit current)
      else none
]

-- `quota_problem`
unfoldable pub quota_problem : Size → Budget → Dict (ℕ × ℕ) → Dict ℕ → Option Problem
unfolding name_problem required_cores
quota_problem size budget quotas credits =
    elim (name_problem (required_cores budget size) "cores" quotas credits) [
      | some problem ↦ some problem
      | none ↦ name_problem (required_cores budget size) size.family quotas credits
    ]

module _ (lower : String → String) where
  -- The loop of `quota_rows` over the rows.
  rows_from : Dict (ℕ × ℕ) → List Json → Result (Dict (ℕ × ℕ))
  unfolding get integer concat
  rows_from quotas [] = ok quotas
  rows_from quotas (obj row ∷ rows) = elim (get "name" (fields row)) [
    | some (obj named) ↦ elim (get "value" (fields named)) [
      | some (text name) ↦ do
        raise_if (elim (get (lower name) quotas) [ none ↦ false | some _ ↦ true ])
            (selection_error "Azure returned an invalid or duplicate quota name")
        current ← integer (get "currentValue" (fields row)) (concat name " usage")
        limit ← integer (get "limit" (fields row)) (concat name " limit")
        rows_from ((lower name, (current, limit)) ∷ quotas) rows
      | _ ↦ err (selection_error "Azure returned an invalid or duplicate quota name")
    ]
    | _ ↦ err (selection_error "Azure returned an invalid quota entry")
  ]
  rows_from quotas (_ ∷ rows) = err (selection_error "Azure returned an invalid quota entry")

  -- `quota_rows`
  unfoldable pub quota_rows : List Json → Result (Dict (ℕ × ℕ))
  unfolding rows_from get
  quota_rows rows = do
    quotas ← rows_from [] rows
    raise_if (elim (get "cores" quotas) [ none ↦ true | some _ ↦ false ])
        (selection_error "Azure did not return the regional vCPU quota")
    ok quotas
