-- ===== src/Identity/Items.antt =====
-- The items that `values` of src/plane_demo/management/providers/identity.py writes: demo keys in
-- order, and numbers that are read as they were written.

use radius_todolist_app.Prelude.{
  ℕ, String, ◌≡◌, refl, ap, inl, inr, Bool, true, false, ◌&&◌, Option, none, some, List, [], ◌∷◌,
  ◌==◌, arith, Bool-cases,
}
use radius_todolist_app.Error.{ok}
use radius_todolist_app.Dict.{Dict, get, collect}
use radius_todolist_app.Text.{digits_value, str}
use radius_todolist_app.Identity.Config.{
  eq_lower, lower_code, all_keys, all_values, is_choice, absent_or,
}
use radius_todolist_app.Identity.Values.{number_text, number_value}

unfoldable pub slot_items : Dict String → List (String × Option String)
unfolding get
slot_items m =
    ("management", get "management" m)
    ∷ ("shared-control", get "shared-control" m)
    ∷ ("shared-data", get "shared-data" m)
    ∷ ("isolated-1-control", get "isolated-1-control" m)
    ∷ ("isolated-1-data", get "isolated-1-data" m)
    ∷ []

-- The demo keys in the order of SLOTS.
unfoldable pub in_order : Dict String → Dict String
unfolding collect slot_items
in_order m = collect (slot_items m)

unfoldable pub all_items : (String → Bool) → List (String × Option String) → Bool
all_items test [] = true
all_items test ((k, v) ∷ m) = test k && all_items test m

pub all_keys-collect :
    (test : String → Bool) (m : List (String × Option String))
    → all_items test m ≡ true
    → all_keys test (collect m) ≡ true
unfolding all_keys collect all_items
all_keys-collect test [] h = refl
all_keys-collect test ((k, none) ∷ m) h = ground (arith, all_keys-collect test m)
all_keys-collect test ((k, some v) ∷ m) h = ground (arith, all_keys-collect test m)

all_values-get :
    (test : String → Bool) (key : String) (m : Dict String)
    → all_values test m ≡ true
    → absent_or test (get key m) ≡ true
unfolding all_values get
all_values-get test key [] h = refl
all_values-get test key ((k, v) ∷ m) h = ground (arith, all_values-get test key m)

all_values-collect :
    (test : String → Bool) (k : String) (o : Option String) (m : List (String × Option String))
    → absent_or test o ≡ true
    → all_values test (collect m) ≡ true
    → all_values test (collect ((k, o) ∷ m)) ≡ true
unfolding all_values collect in_order slot_items
all_values-collect test k none m h r = r
all_values-collect test k (some v) m h r = ground arith

pub all_values-in_order :
    (test : String → Bool) (m : Dict String)
    → all_values test m ≡ true
    → all_values test (in_order m) ≡ true
unfolding all_values collect in_order slot_items
all_values-in_order test m h =
    let at : (key : String) → absent_or test (get key m) ≡ true =
      λ key. all_values-get test key m h in
    all_values-collect test _ (get "management" m) _ (at "management") (
      all_values-collect test _ (get "shared-control" m) _ (at "shared-control") (
        all_values-collect test _ (get "shared-data" m) _ (at "shared-data") (
          all_values-collect test _ (get "isolated-1-control" m) _ (at "isolated-1-control")
            (all_values-collect test _ (get "isolated-1-data" m) [] (at "isolated-1-data") refl))))

pub eq_lower_refl : (a b : String) → eq_lower a b ≡ true → eq_lower a a ≡ true
unfolding eq_lower lower_code
eq_lower_refl String.[] b h = refl
eq_lower_refl (String.◌∷◌ c s) String.[] h = ground arith
eq_lower_refl (String.◌∷◌ c s) (String.◌∷◌ d t) h = ground (arith, eq_lower_refl s t)

reads_as : Option ℕ → ℕ → Bool
reads_as none n = false
reads_as (some m) n = m == n

unfoldable pub all_written : List ℕ → Bool
unfolding digits_value str reads_as
all_written [] = true
all_written (n ∷ ns) = reads_as (digits_value (str n)) n && all_written ns

reads_as-some : (o : Option ℕ) (n : ℕ) → reads_as o n ≡ true → o ≡ some n
unfolding reads_as
reads_as-some none n h = cc
reads_as-some (some m) n h = ap some (ground arith)

choice-read :
    (n : ℕ) (choices : List ℕ)
    → all_written choices ≡ true
    → is_choice n choices ≡ true
    → digits_value (str n) ≡ some n
unfolding all_written is_choice
choice-read n [] w h = cc
choice-read n (m ∷ ms) w h = elim (Bool-cases (n == m)) [
  | inl e ↦
      let same : n ≡ m = ground arith in
      rw same (reads_as-some (digits_value (str m)) m (ground arith))
  | inr e ↦ choice-read n ms (ground arith) (ground arith)
]

-- The number of a choice, written and read.
pub number_choice :
    (key : String) (choices : List ℕ) (value : Option ℕ)
    → all_written choices ≡ true
    → absent_or (λ n. is_choice n choices) value ≡ true
    → number_value key (number_text value) ≡ ok value
unfolding number_value
number_choice key choices none w h = refl
number_choice key choices (some n) w h = rw (number_value, choice-read n choices w h) refl
