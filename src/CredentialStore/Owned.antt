-- ===== src/CredentialStore/Owned.antt =====
-- `get_or_create` of `_OwnedStore` and what the store holds.
use radius_todolist_app.Prelude.{
  String, ◌≡◌, ◌≢◌, refl, sym, ap, ◌∙◌, ◌⊎◌, inl, inr, Bool, true, false, Option, none, some, arith,
  str_eq, eq_iff, if◌then◌else◌, Bool-cases,
}
use radius_todolist_app.Error.{Result, ok, err, ok-injective, store}
use mathlib.Core.Option.{some-injective}
use radius_todolist_app.CredentialStore.{
  is_reference, Backend, match, use_existing, is_provided, get_or_create, get, settle,
  observe_created, candidate_of, create, is_credential,
}

-- What is returned for a stored value, with the value that is provided.
abbrev pub Agrees : String → Option String → Result String → Type 0
Agrees existing provided r =
    (((provided ≡ none) ⊎ (provided ≡ some existing)) × (r ≡ ok existing))
    ⊎ ((w : String) × (provided ≡ some w)
        × (w ≢ existing)
        × (r ≡ err (store "credential_conflict")))

match-Agrees :
    (existing : String) (provided : Option String)
    → Agrees existing provided (match existing provided)
unfolding match
match-Agrees existing none = inl (inl refl, refl)
match-Agrees existing (some w) = elim (Bool-cases (str_eq existing w)) [
  | inl t ↦ inl (inr (ap some (sym ((eq_iff existing w).0 t))), ground arith)
  | inr f ↦ inr (
    w,
    refl,
    (λ e. let t : str_eq existing w ≡ true = (eq_iff existing w).1 (sym e) in cc),
    ground arith,
  )
]

module _ {B : Type 0} (backend : Backend B) (generated : String) (slot role : String) where
  -- If a credential is stored, `get_or_create` does nothing but read it, whatever value is generated
  -- and whether one is required: where no value or the stored one is provided, it returns the
  -- stored value, which is the one that `get` gives, and where another is provided, it is a conflict;
  -- or it reads nothing, and is the error of an invalid reference or an invalid provided value.
  pub get_or_create_stored :
      (provided : Option String) (require_existing : Bool) (b b' : B) (existing : String)
      → backend.read_value slot role b ≡ (ok (some existing), b')
      → let (r, after) = get_or_create backend generated slot role provided require_existing b in
        ((after ≡ b')
          × (get backend generated slot role b ≡ (ok existing, b'))
          × Agrees existing provided r)
        ⊎ ((after ≡ b)
            × (is_reference slot role ≡ false)
            × (r ≡ err (store "invalid_credential_reference")))
        ⊎ ((after ≡ b)
            × (is_provided backend generated slot role provided ≡ false)
            × (r ≡ err (store "invalid_credential_value")))
  unfolding get_or_create use_existing get
  get_or_create_stored provided require_existing b b' existing h =
      elim (Bool-cases (is_reference slot role)) [
        | inr f ↦ inr (inl (rw (get_or_create, f) (refl, refl, refl)))
        | inl t ↦ elim (Bool-cases (is_provided backend generated slot role provided)) [
          | inr f ↦ inr (inr (rw (get_or_create, t, f) (refl, refl, refl)))
          | inl u ↦
              inl (rw (get_or_create, get, t, u, h) (refl, refl, match-Agrees existing provided))
        ]
      ]

match_ok :
    (existing : String) (expected : Option String) (v : String)
    → match existing expected ≡ ok v
    → (v ≡ existing) × ((w : String) → expected ≡ some w → v ≡ w)
unfolding match
match_ok existing none v h = (sym (ok-injective existing v h), (λ w e. cc))
match_ok existing (some expected) v h = elim (Bool-cases (str_eq existing expected)) [
  | inr f ↦ ground arith
  | inl t ↦
      let is : v ≡ existing = sym (ok-injective existing v (rw t at h)) in
      (is, (λ w e. is ∙ (eq_iff existing expected).0 t ∙ some-injective expected w e))
]

module _ {B : Type 0} (backend : Backend B) (generated : String) (slot role : String) where
  -- The value has just been read, and is the provided one if one is provided.
  abbrev pub WasRead : Option String → String → B → Type 0
  WasRead provided v after =
      ((b : B) × (backend.read_value slot role b ≡ (ok (some v), after)))
      × ((w : String) → provided ≡ some w → v ≡ w)

  match-WasRead :
      (provided expected : Option String) (existing v : String) (b after : B)
      → ((w : String) → provided ≡ some w → expected ≡ some w)
      → backend.read_value slot role b ≡ (ok (some existing), after)
      → match existing expected ≡ ok v
      → WasRead provided v after
  match-WasRead provided expected existing v b after stronger read h =
      let (is, same) = match_ok existing expected v h in
      (
        (b, read ∙ ap (λ (x : String). (ok (some x), after)) (sym is)),
        (λ w e. same w (stronger w e)),
      )

  stronger :
      (created : Bool) (candidate : String) (provided : Option String)
      → ((w : String) → provided ≡ some w → candidate ≡ w)
      → (w : String) → provided ≡ some w
      → (if created then some candidate else provided) ≡ some w
  stronger true candidate provided is w e = ap some (is w e)
  stronger false candidate provided is w e = e

  settle-WasRead :
      (created : Bool) (candidate : String) (provided : Option String) (b : B) (v : String)
      → ((w : String) → provided ≡ some w → candidate ≡ w)
      → let (r, after) =
          settle backend generated slot role created candidate provided
            (backend.read_value slot role b) in
        r ≡ ok v → WasRead provided v after
  unfolding settle
  settle-WasRead created candidate provided b v is = go (backend.read_value slot role b) refl
    where
      go :
          (seen : Result (Option String) × B)
          → backend.read_value slot role b ≡ seen
          → let (r, after) = settle backend generated slot role created candidate provided seen in
            r ≡ ok v → WasRead provided v after
      go (err x, b') e h = cc
      go (ok none, b') e h = cc
      go (ok (some observed), b') e h =
          match-WasRead provided (if created then some candidate else provided) observed v b b'
            (stronger created candidate provided is) e h

  observe_created-WasRead :
      (candidate : String) (provided : Option String) (answer : Result Bool × B) (v : String)
      → ((w : String) → provided ≡ some w → candidate ≡ w)
      → let (r, after) = observe_created backend generated slot role candidate provided answer in
        r ≡ ok v → WasRead provided v after
  unfolding observe_created
  observe_created-WasRead candidate provided (err e, b) v is h = cc
  observe_created-WasRead candidate provided (ok created, b) v is h =
      settle-WasRead created candidate provided b v is h

  candidate_is :
      (provided : Option String) (w : String)
      → provided ≡ some w
      → candidate_of backend generated slot role provided ≡ w
  unfolding candidate_of
  candidate_is none w e = cc
  candidate_is (some value) w e = some-injective value w e

  create-WasRead :
      (provided : Option String) (allowed : Result (Unit {0}) × B) (v : String)
      → let (r, after) = create backend generated slot role provided allowed in
        r ≡ ok v → WasRead provided v after
  unfolding create
  create-WasRead provided (err e, b) v h = cc
  create-WasRead provided (ok _, b) v h =
      let candidate = candidate_of backend generated slot role provided in
      elim (Bool-cases (is_credential candidate role)) [
        | inr f ↦ ground arith
        | inl t ↦
            rw (create, t)
              (observe_created-WasRead candidate provided
                (backend.create_value slot role candidate b) v (candidate_is provided)
                (rw (create, t) at h))
      ]

  use_existing-WasRead :
      (provided : Option String) (require_existing : Bool) (b : B) (v : String)
      → let (r, after) =
          use_existing backend generated slot role provided require_existing
            (backend.read_value slot role b) in
        r ≡ ok v → WasRead provided v after
  unfolding use_existing
  use_existing-WasRead provided require_existing b v = go (backend.read_value slot role b) refl
    where
      go :
          (seen : Result (Option String) × B)
          → backend.read_value slot role b ≡ seen
          → let (r, after) =
              use_existing backend generated slot role provided require_existing seen in
            r ≡ ok v → WasRead provided v after
      go (err x, b') e h = cc
      go (ok (some existing), b') e h =
          match-WasRead provided provided existing v b b' (λ w k. k) e h
      go (ok none, b') e h = elim (Bool-cases require_existing) [
        | inl t ↦ ground arith
        | inr t ↦ rw t (create-WasRead provided (backend.allow_create b') v (rw t at h))
      ]

  -- On any backend, other writers and failures included: a value that `get_or_create` returns is
  -- what its last read has found in the store, and if a value is provided, it is that value.
  pub get_or_create-WasRead :
      (provided : Option String) (require_existing : Bool) (b : B) (v : String)
      → let (r, after) = get_or_create backend generated slot role provided require_existing b in
        r ≡ ok v → WasRead provided v after
  unfolding get_or_create
  get_or_create-WasRead provided require_existing b v h =
      elim (Bool-cases (is_reference slot role)) [
        | inr f ↦ ground arith
        | inl t ↦ elim (Bool-cases (is_provided backend generated slot role provided)) [
          | inr f ↦ ground arith
          | inl u ↦
              rw (get_or_create, t, u)
                (use_existing-WasRead provided require_existing b v (rw (get_or_create, t, u) at h))
        ]
      ]
