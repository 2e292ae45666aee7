-- ===== src/PostgresSizes/Eligible.antt =====
-- What the eligible PostgreSQL sizes satisfy.
use radius_todolist_app.Prelude.{
  ℕ, ◌≤◌, String, ◌≡◌, inl, inr, Bool, Option, none, some, List, [], ◌∷◌, All, arith, Bool-cases,
  Option-cases,
}
use mathlib.Core.Option.{some-injective}
use radius_todolist_app.Error.{
  Result, ok, err, ok-injective, selection_error, raise_if, >>=-eq-ok, >>-eq-ok,
}
use radius_todolist_app.Dict.{Dict, get}
use radius_todolist_app.Text.{is_one_of}
use radius_todolist_app.Json.{Json, dict_of}
use radius_todolist_app.PostgresSizes.{
  Size, restriction, capacity, fits, size_of, sized, eligible_from, add, name_of, available_sizes,
  the_one, unrestricted, features_of, need_dicts, is_offer_restricted, named, zones_of,
}

-- The size has 2 to 8 cores and 8 to 64 GiB.
abbrev pub IsInRange : String × Size → Type 0
IsInRange (key, size) =
    (2 ≤ size.cpus) × (size.cpus ≤ 8) × (8192 ≤ size.memory_mb) × (size.memory_mb ≤ 65536)

module _ (lower : String → String) (precedes : String → String → Bool) where
  sized-IsInRange :
      (key name : String) (r : Result (ℕ × ℕ)) (zones : Option (List String)) (size : Size)
      → sized lower precedes name r zones ≡ some size
      → IsInRange (key, size)
  unfolding sized fits
  sized-IsInRange key name (ok (cpus, memory_mb)) (some zones) size h =
      elim (Bool-cases (fits cpus memory_mb)) [
        | inr f ↦ cc (rw (sized, f) at h)
        | inl t ↦
            let same = some-injective _ size (rw (sized, t) at h) in
            rw (← same) (ground (arith, t), ground (arith, t), ground (arith, t), ground (arith, t))
      ]
  sized-IsInRange key name (ok (cpus, memory_mb)) none size h = cc
  sized-IsInRange key name (err e) zones size h = cc

  size_of-IsInRange :
      (key name : String) (m : Dict Json) (size : Size)
      → size_of lower precedes name m ≡ some size
      → IsInRange (key, size)
  unfolding size_of
  size_of-IsInRange key name m size h = elim (Option-cases (restriction m)) [
    | inr (problem, e) ↦ cc (rw (size_of, e) at h)
    | inl e ↦
        sized-IsInRange key name (capacity m) (zones_of (get "supportedZones" m)) size
          (rw (size_of, e) at h)
  ]

  add-IsInRange :
      (key name : String) (m : Dict Json) (sizes : Dict Size)
      → All IsInRange sizes
      → All IsInRange (add lower precedes key (size_of lower precedes name m) sizes)
  unfolding add
  add-IsInRange key name m sizes h = elim (Option-cases (size_of lower precedes name m)) [
    | inl e ↦ rw (e, add) h
    | inr (size, e) ↦ rw (e, add) (size_of-IsInRange key name m size e, h)
  ]

  eligible_from-IsInRange :
      (seen : List String) (ms : List (Dict Json)) (sizes : Dict Size)
      → eligible_from lower precedes seen ms ≡ ok sizes
      → All IsInRange sizes
  unfolding eligible_from
  eligible_from-IsInRange seen [] sizes h = rw (← ok-injective [] sizes h) tt
  eligible_from-IsInRange seen (m ∷ ms) sizes h =
      let (name, _, h1) = >>=-eq-ok (name_of lower precedes (get "name" m)) _ h in
      let (_, h2) =
        >>-eq-ok
          (raise_if (is_one_of (lower name) seen)
            (selection_error "Invalid or duplicate PostgreSQL SKU name"))
          _ h1 in
      let (rest, e, h3) = >>=-eq-ok (eligible_from lower precedes (lower name ∷ seen) ms) _ h2 in
      rw
        (← ok-injective (add lower precedes (lower name) (size_of lower precedes name m) rest) sizes
          h3)
        (add-IsInRange (lower name) name m rest
          (eligible_from-IsInRange (lower name ∷ seen) ms rest e))

  -- Every size that `available_sizes` returns, whatever Azure answers, has 2 to 8 cores and 8 to 64
  -- GiB of memory.
  pub available_sizes-IsInRange :
      (records : List Json) (sizes : Dict Size)
      → available_sizes lower precedes records ≡ ok sizes
      → All IsInRange sizes
  unfolding available_sizes
  available_sizes-IsInRange records sizes h =
      let (value, _, h1) =
        >>=-eq-ok
          (the_one lower precedes records "Expected one regional PostgreSQL capability record") _
          h in
      let (m, _, h2) = >>=-eq-ok (dict_of value) _ h1 in
      let (_, h3) =
        >>-eq-ok
          (unrestricted lower precedes (restriction m) "PostgreSQL provisioning is unavailable") _
          h2 in
      let (features, _, h4) =
        >>=-eq-ok (features_of lower precedes (get "supportedFeatures" m)) _ h3 in
      let (_, h5) =
        >>-eq-ok
          (raise_if (is_offer_restricted features)
            (selection_error "The subscription offer is restricted for PostgreSQL"))
          _ h4 in
      let (versions, _, h6) =
        >>=-eq-ok
          (need_dicts (get "supportedServerVersions" m)
            "PostgreSQL version capabilities are missing or invalid")
          _ h5 in
      let (version, _, h7) =
        >>=-eq-ok
          (the_one lower precedes (named "16" versions)
            "PostgreSQL 16 is not advertised as available in this region")
          _ h6 in
      let (_, h8) =
        >>-eq-ok
          (unrestricted lower precedes (restriction version)
            "PostgreSQL 16 is not advertised as available in this region")
          _ h7 in
      let (editions, _, h9) =
        >>=-eq-ok
          (need_dicts (get "supportedServerEditions" m)
            "PostgreSQL edition capabilities are missing or invalid")
          _ h8 in
      let (edition, _, h10) =
        >>=-eq-ok
          (the_one lower precedes (named "GeneralPurpose" editions)
            "Expected one PostgreSQL GeneralPurpose capability record")
          _ h9 in
      let (_, h11) =
        >>-eq-ok
          (unrestricted lower precedes (restriction edition)
            "PostgreSQL GeneralPurpose is unavailable")
          _ h10 in
      let (skus, _, h12) =
        >>=-eq-ok
          (need_dicts (get "supportedServerSkus" edition)
            "PostgreSQL compute capabilities are missing or invalid")
          _ h11 in
      eligible_from-IsInRange [] skus sizes h12
