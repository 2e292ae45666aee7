-- ===== src/Dict/Collect.antt =====
-- Looking a key up in a collected dictionary.
use radius_todolist_app.Prelude.{
  String, Bool, true, false, not, ◌&&◌, ◌||◌, inl, inr, Option, none, some, List, [], ◌∷◌, str_eq,
  ◌≡◌, refl, eq_iff, arith, Bool-cases, if◌then◌else◌,
}
use radius_todolist_app.Dict.{get, collect}

module _ {A : Type 0} where
  has_key : String → List (String × Option A) → Bool
  has_key key [] = false
  has_key key ((k, v) ∷ m) = str_eq k key || has_key key m

  unfoldable pub distinct : List (String × Option A) → Bool
  unfolding has_key
  distinct [] = true
  distinct ((k, v) ∷ m) = not (has_key k m) && distinct m

  -- The value that an item list has for a key.
  unfoldable pub value_at : String → List (String × Option A) → Option A
  value_at key [] = none
  value_at key ((k, v) ∷ m) = if str_eq k key then v else value_at key m

  get-collect-none :
      (key : String) (m : List (String × Option A))
      → has_key key m ≡ false
      → get key (collect m) ≡ none
  unfolding get collect has_key
  get-collect-none key [] h = refl
  get-collect-none key ((k, none) ∷ m) h = ground (arith, get-collect-none key m)
  get-collect-none key ((k, some v) ∷ m) h = ground (arith, get-collect-none key m)

  pub get-collect :
      (key : String) (m : List (String × Option A))
      → distinct m ≡ true
      → get key (collect m) ≡ value_at key m
  unfolding get collect distinct value_at
  get-collect key [] h = refl
  get-collect key ((k, none) ∷ m) h = elim (Bool-cases (str_eq k key)) [
    | inl e ↦ rw e (get-collect-none key m (rw (← (eq_iff k key).0 e) (ground (arith, h))))
    | inr e ↦ ground (arith, get-collect key m)
  ]
  get-collect key ((k, some v) ∷ m) h = ground (arith, get-collect key m)
