-- ===== src/Prelude/Lists.antt =====
-- Lists measured by native numbers, and what a SQL statement does to a table's rows.
use Prim.Native.Nat.{ℕ, zero, suc, ◌+◌}
use mathlib.Core.Path.{◌≡◌, refl}
use mathlib.Core.Bool.{Bool, true, false, ◌||◌}
use mathlib.Core.Option.{Option, none, some, some-injective}
use mathlib.Core.List.{List, [], ◌∷◌, ◌++◌}
use native.Mathlib.Omega.{arith}
use mathlib.Core.Logic.{◌⊎◌, inl, inr}
use radius_todolist_app.Prelude.Tests.{if◌then◌else◌, Bool-cases}

module _ {ℓ} {A : Type ℓ} where
  abbrev pub length : List A → ℕ
  length [] = 0
  length (x ∷ xs) = suc (length xs)

  abbrev pub take : ℕ → List A → List A
  take zero xs = []
  take (suc n) [] = []
  take (suc n) (x ∷ xs) = x ∷ take n xs

  abbrev pub drop : ℕ → List A → List A
  drop zero xs = xs
  drop (suc n) [] = []
  drop (suc n) (x ∷ xs) = drop n xs

  pub length-append : (xs ys : List A) → length (xs ++ ys) ≡ length xs + length ys
  length-append [] ys = omega arith
  length-append (x ∷ xs) ys = omega (arith, length-append xs ys)

  -- `any(test(x) for x in xs)`, `EXISTS (SELECT ... WHERE test)`
  abbrev pub any : (A → Bool) → List A → Bool
  any test [] = false
  any test (x ∷ xs) = test x || any test xs

  -- `SELECT ... WHERE test`
  abbrev pub select : (A → Bool) → List A → List A
  select test [] = []
  select test (x ∷ xs) = let rest = select test xs in if test x then x ∷ rest else rest

  -- `LIMIT 1`, `fetchone()`
  abbrev pub first : List A → Option A
  first [] = none
  first (x ∷ xs) = some x

  -- The row that a unique key finds.
  abbrev pub find : (A → Bool) → List A → Option A
  find test [] = none
  find test (x ∷ xs) = if test x then some x else find test xs

  -- `UPDATE ... SET change WHERE test`
  abbrev pub update_where : (A → Bool) → (A → A) → List A → List A
  update_where test change [] = []
  update_where test change (x ∷ xs) = (if test x then change x else x) ∷ update_where test change xs

  -- `len(select(test, xs))`
  abbrev pub count : (A → Bool) → List A → ℕ
  count test [] = 0
  count test (x ∷ xs) = (if test x then 1 else 0) + count test xs

module _ {ℓ κ} {A : Type ℓ} (P : A → Type κ) where
  abbrev pub All : List A → Type κ
  All [] = Unit
  All (x ∷ xs) = P x × All xs

module _ {A : Type 0} where
  pub All-append : (P : A → Type 0) (xs ys : List A) → All P xs → All P ys → All P (xs ++ ys)
  All-append P [] ys hx hy = hy
  All-append P (x ∷ xs) ys hx hy = (hx.0, All-append P xs ys hx.1 hy)

  pub count-append :
      (test : A → Bool) (xs ys : List A) → count test (xs ++ ys) ≡ count test xs + count test ys
  count-append test [] ys = omega arith
  count-append test (x ∷ xs) ys = omega (arith, count-append test xs ys)

  pub any-append :
      (test : A → Bool) (xs ys : List A) → any test (xs ++ ys) ≡ (any test xs || any test ys)
  any-append test [] ys = refl
  any-append test (x ∷ xs) ys = ground (arith, any-append test xs ys)

  pub count_none : (test : A → Bool) (xs : List A) → any test xs ≡ false → count test xs ≡ 0
  count_none test [] h = refl
  count_none test (x ∷ xs) h = ground (arith, count_none test xs)

  pub find-none : (test : A → Bool) (xs : List A) → any test xs ≡ false → find test xs ≡ none
  find-none test [] h = refl
  find-none test (x ∷ xs) h = ground (arith, find-none test xs)

  pub find-append :
      (test : A → Bool) (xs ys : List A) {x : A}
      → find test xs ≡ some x
      → find test (xs ++ ys) ≡ some x
  find-append test [] ys h = cc
  find-append test (y ∷ xs) ys {x} h = ground (arith, find-append test xs ys {x = x})

  pub find-append_none :
      (test : A → Bool) (xs ys : List A) → find test xs ≡ none → find test (xs ++ ys) ≡ find test ys
  find-append_none test [] ys h = refl
  find-append_none test (y ∷ xs) ys h = ground (arith, find-append_none test xs ys)

  pub All-map : (P Q : A → Type 0) (xs : List A) → ((x : A) → P x → Q x) → All P xs → All Q xs
  All-map P Q [] f h = tt
  All-map P Q (x ∷ xs) f h = (f x h.0, All-map P Q xs f h.1)

  abbrev pub In : A → List A → Type 0
  In a [] = ⊥
  In a (x ∷ xs) = (a ≡ x) ⊎ In a xs

  pub All-In : (P : A → Type 0) (a : A) (xs : List A) → All P xs → In a xs → P a
  All-In P a [] h m = absurd m
  All-In P a (x ∷ xs) h (inl e) = rw e h.0
  All-In P a (x ∷ xs) h (inr m) = All-In P a xs h.1 m

  -- What holds of all rows holds of the row that a lookup finds.
  pub All-find :
      (P : A → Type 0) (test : A → Bool) (xs : List A) {x : A}
      → All P xs
      → find test xs ≡ some x
      → P x
  All-find P test [] h e = ground arith
  All-find P test (y ∷ xs) {x} h e = elim (Bool-cases (test y)) [
    | inl t ↦ rw (← some-injective y x (rw t at e)) h.0
    | inr f ↦ All-find P test xs h.1 (rw f at e)
  ]

  pub All-of_In : (P : A → Type 0) (xs : List A) → ((x : A) → In x xs → P x) → All P xs
  All-of_In P [] f = tt
  All-of_In P (x ∷ xs) f = (f x (inl refl), All-of_In P xs (λ y m. f y (inr m)))

  In-cons-select :
      (test : A → Bool) (a x : A) (xs : List A)
      → In a (select test (x ∷ xs))
      → ((a ≡ x) × (test x ≡ true)) ⊎ In a (select test xs)
  In-cons-select test a x xs m = elim (Bool-cases (test x)) [
    | inl e ↦ elim (rw e at m) [ inl q ↦ inl (q, e) | inr r ↦ inr r ]
    | inr e ↦ inr (rw e at m)
  ]

  pub any-true :
      (test : A → Bool) (a : A) (xs : List A) → In a xs → test a ≡ true → any test xs ≡ true
  any-true test a [] m h = absurd m
  any-true test a (x ∷ xs) (inl e) h = rw (← e, h)
  any-true test a (x ∷ xs) (inr m) h = ground (arith, any-true test a xs m h)

  pub In-select :
      (test : A → Bool) (a : A) (xs : List A) → In a (select test xs) → In a xs × (test a ≡ true)
  In-select test a [] m = absurd m
  In-select test a (x ∷ xs) m = elim (In-cons-select test a x xs m) [
    | inl (q, e) ↦ (inl q, rw q e)
    | inr r ↦ (inr (In-select test a xs r).0, (In-select test a xs r).1)
  ]

  pub select-In :
      (test : A → Bool) (a : A) (xs : List A) → In a xs → test a ≡ true → In a (select test xs)
  select-In test a [] m e = absurd m
  select-In test a (x ∷ xs) (inl q) e = rw (← q, e) (inl refl)
  select-In test a (x ∷ xs) (inr m) e = elim (Bool-cases (test x)) [
    | inl t ↦ rw t (inr (select-In test a xs m e))
    | inr f ↦ rw f (select-In test a xs m e)
  ]
