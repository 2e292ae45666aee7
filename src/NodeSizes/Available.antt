-- ===== src/NodeSizes/Available.antt =====
-- What `Discovery.available` of scripts/operations/azure/node_sizes.py makes of the answers of az:
-- the sizes that are eligible.
use radius_todolist_app.Prelude.{ℕ, String, Option, none, some, List, [], ◌∷◌}
use radius_todolist_app.Error.{Result, ok, err, selection_error, ◌>>=◌, ◌>>◌, raise_if}
use radius_todolist_app.Dict.{Dict, get}
use radius_todolist_app.Numbers.{Float}
use radius_todolist_app.Text.{is_one_of}
use radius_todolist_app.Json.{Json, text, dict_of}
use radius_todolist_app.NodeSizes.{Budget, Size, quota_problem, quota_rows}
use radius_todolist_app.Identity.Config.{DemoConfig}
use radius_todolist_app.NodeSizes.Owned.{owned_cores}
use radius_todolist_app.NodeSizes.Describe.{Description, described, rejected, describe_size}

module _ (float_of : Option Json → Option Float) (lower : String → String) where
  add_size : String → Description → Dict Size → Dict Size
  add_size key (described size) sizes = (key, size) ∷ sizes
  add_size key (rejected problem) sizes = sizes

  record_name : Option Json → Result String
  record_name (some (text s)) = ok s
  record_name _ = err (selection_error "Azure returned an invalid or duplicate VM size name")

  -- The loop over `records`; `seen` are the keys of `problems`.
  unfoldable pub sizes_of : String → List String → List Json → Result (Dict Size)
  unfolding add_size record_name describe_size is_one_of get
  sizes_of location seen [] = ok []
  sizes_of location seen (value ∷ values) = do
    m ← dict_of value
    name ← record_name (get "name" m)
    raise_if (is_one_of (lower name) seen)
        (selection_error "Azure returned an invalid or duplicate VM size name")
    rest ← sizes_of location (lower name ∷ seen) values
    ok (add_size (lower name) (describe_size float_of lower (get "name" m) location m) rest)

-- The loop over `sizes`.
unfoldable pub eligible_of : Budget → Dict (ℕ × ℕ) → Dict ℕ → Dict Size → Dict Size
unfolding quota_problem
eligible_of budget quotas credits [] = []
eligible_of budget quotas credits ((name, size) ∷ sizes) =
    let rest = eligible_of budget quotas credits sizes in
    elim (quota_problem size budget quotas credits) [
      | some problem ↦ rest
      | none ↦ (name, size) ∷ rest
    ]

module _ (float_of : Option Json → Option Float) (lower : String → String) (config : DemoConfig)
    (location : String) where
  -- `available`, for the answers to its three requests
  unfoldable pub available :
      Budget → List String → List Json → List Json → List Json → Result (Dict Size)
  unfolding sizes_of quota_rows owned_cores eligible_of
  available budget slots records rows clusters = do
    sizes ← sizes_of float_of lower location [] records
    quotas ← quota_rows lower rows
    credits ← owned_cores lower config sizes clusters slots
    ok (eligible_of budget quotas credits sizes)
