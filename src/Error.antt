-- ===== src/Error.antt =====
-- The exceptions of src/plane_demo, as one data type, and results that carry them.
-- Messages of `ValueError` are kept as their text; a `psycopg.Error` by its SQLSTATE, `none` where
-- the connection failed without one.
use radius_todolist_app.Prelude.{ℕ, String, ◌≡◌, refl, ap, Bool, true, false, Option}

pub data Error : Type 0 where
  value_error : String → Error
  -- psycopg.Error
  database : Option String → Error
  -- ProvisioningError(code)
  provisioning : String → Error
  -- StoreError(code)
  store : String → Error
  -- fastapi's HTTPException(status, detail)
  http : ℕ → String → Error
  -- kubernetes' ApiException(status)
  api : Option ℕ → Error
  -- urllib3's HTTPError, and OSError
  transport : Error
  configuration_missing configuration_invalid : Error
  -- redis' RedisError
  redis_error : Error
  -- SelectionError(message) of scripts/operations/azure/compute_selection.py
  selection_error : String → Error
  -- any other subclass of Exception
  other : Error

pub data Result {ℓ} (A : Type ℓ) : Type ℓ where
  ok : A → Result A
  err : Error → Result A

-- `isinstance(error, psycopg.Error)`
abbrev pub is_database : Error → Bool
is_database (database _) = true
is_database _ = false

-- `if test: raise e`
abbrev pub raise_if : Bool → Error → Result (Unit {0})
raise_if true e = err e
raise_if false e = ok tt

pub ok-injective {ℓ} : {A : Type ℓ} (a b : A) → ok a ≡ ok b → a ≡ b
ok-injective a b h = ap (elim [ ok x ↦ x | err e ↦ a ]) h

module _ {ℓ κ} {A : Type ℓ} {B : Type κ} where
  infixl 5 ◌>>=◌
  -- The next step of a `do` block, unless an exception is raised.
  abbrev pub ◌>>=◌ : Result A → (A → Result B) → Result B
  err e >>= next = err e
  ok a >>= next = next a

  -- What has returned, when the whole block returns.
  pub >>=-eq-ok :
      (first : Result A) (next : A → Result B) {b : B}
      → (first >>= next) ≡ ok b
      → (a : A) × (first ≡ ok a) × (next a ≡ ok b)
  >>=-eq-ok (err e) next h = cc
  >>=-eq-ok (ok a) next h = (a, refl, h)

module _ {ℓ} {B : Type ℓ} where
  infixl 5 ◌>>◌
  abbrev pub ◌>>◌ : Result (Unit {0}) → Result B → Result B
  first >> second = first >>= λ _. second

  pub >>-eq-ok :
      (first : Result (Unit {0})) (second : Result B) {b : B}
      → (first >> second) ≡ ok b
      → (first ≡ ok tt) × (second ≡ ok b)
  >>-eq-ok (err e) second h = cc
  >>-eq-ok (ok _) second h = (refl, h)

pub raise_if-eq-ok : (test : Bool) (e : Error) → raise_if test e ≡ ok tt → test ≡ false
raise_if-eq-ok true e h = cc
raise_if-eq-ok false e h = refl
