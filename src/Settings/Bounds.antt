-- ===== src/Settings/Bounds.antt =====
-- What settings satisfy when `from_env` returns them.
use radius_todolist_app.Prelude.{
  ℕ, ◌≤◌, ◌<◌, ◌*◌, refl, String, ◌≡◌, inl, inr, Bool, true, false, not, ◌&&◌, ◌||◌, Option, str_eq,
  ltb, leb, arith, Bool-cases, not-eq-false,
}
use radius_todolist_app.Error.{
  ok, value_error, ok-injective, raise_if, >>=-eq-ok, >>-eq-ok, raise_if-eq-ok,
}
use radius_todolist_app.Dict.{Dict}
use Prim.Native.Nat.{◌^◌}
use radius_todolist_app.Numbers.{ℤ, pos, negsuc, Float, finite, infinity, nan, is_above, is_at_most}
use radius_todolist_app.Text.{text_length}
use radius_todolist_app.Settings.{
  env_or, required, required_if, Settings, is_api, uses_management, uses_control, uses_data,
  is_paired, is_identifier, is_bad, in_range, parsed, from_env,
}

in_range-bounds :
    (low high : ℕ) (message : String) (i : ℤ) (n : ℕ)
    → in_range low high message i ≡ ok n
    → (low ≤ n) × (n ≤ high)
unfolding in_range
in_range-bounds low high message (negsuc k) n h = cc
in_range-bounds low high message (pos k) n h = elim (Bool-cases (leb low k && leb k high)) [
  | inl t ↦
      let same : k ≡ n = ok-injective k n (rw (in_range, t) at h) in
      (ground (arith, t, same), ground (arith, t, same))
  | inr f ↦ cc (rw (in_range, f) at h)
]

required_if-given :
    (test : Bool) (env : Dict String) (name value : String)
    → required_if test env name ≡ ok value
    → test ≡ true
    → str_eq value "" ≡ false
unfolding required_if required
required_if-given true env name value h t = elim (Bool-cases (str_eq (env_or env name "") "")) [
  | inl e ↦ cc (rw (required, e) at h)
  | inr f ↦ rw (← ok-injective (env_or env name "") value (rw (required, f) at h)) f
]
required_if-given false env name value h t = cc

identifier_given :
    (value : String) → is_bad value ≡ false → str_eq value "" ≡ false → is_identifier value ≡ true
unfolding is_bad
identifier_given value h f = ground arith

long_enough : (api : Bool) (n : ℕ) → (api && ltb n 32) ≡ false → api ≡ true → 32 ≤ n
long_enough api n h t = ground arith

first_false : (a b c : Bool) → (a || b || c) ≡ false → a ≡ false
first_false a b c h = ground arith

-- The number is greater than 0 and at most 60.
abbrev pub IsInterval : Float → Type 0
IsInterval x = (m : ℕ) × (e : ℕ) × (x ≡ finite (pos m) e) × (0 < m) × (m ≤ 60 * 2 ^ e)

IsInterval-of_tests : (x : Float) → (is_above 0 x && is_at_most 60 x) ≡ true → IsInterval x
unfolding is_above is_at_most
IsInterval-of_tests (finite (pos m) e) h = (m, e, refl, ground arith, ground arith)
IsInterval-of_tests (finite (negsuc m) e) h = cc
IsInterval-of_tests (infinity true) h = cc
IsInterval-of_tests (infinity false) h = cc
IsInterval-of_tests nan h = cc

module _ (int_of : String → Option ℤ) (float_of : String → Option Float) where
  -- The settings of a role.
  abbrev pub AreValid : String → Settings → Type 0
  unfolding is_api is_paired is_identifier text_length
  AreValid role s =
      IsInterval s.poll_interval
      × ((1 ≤ s.timeout_seconds) × (s.timeout_seconds ≤ 30))
      × ((4096 ≤ s.body_limit) × (s.body_limit ≤ 65536))
      × ((1024 ≤ s.listen_port) × (s.listen_port ≤ 65535))
      × (is_api role ≡ true → 32 ≤ text_length s.demo_key)
      × (is_paired role ≡ true → is_identifier s.pair_id ≡ true)

  -- The settings that `from_env` returns for any environment and role are valid: the interval is in
  -- (0, 60], the timeout, the body limit and the port are in their ranges, the key of an API has at
  -- least 32 characters, and the pair of a role that has one is an identifier.
  pub from_env-AreValid :
      (env : Dict String) (role : String) (s : Settings)
      → from_env int_of float_of env role ≡ ok s
      → AreValid role s
  unfolding from_env
  from_env-AreValid env role s h =
      let (demo_key, _, h1) = >>=-eq-ok (required_if (is_api role) env "DEMO_KEY") _ h in
      let (_, _, h2) = >>=-eq-ok (required_if (uses_management role) env "MANAGEMENT_DSN") _ h1 in
      let (_, _, h3) = >>=-eq-ok (required_if (uses_control role) env "CONTROL_DSN") _ h2 in
      let (pair_id, paired, h4) = >>=-eq-ok (required_if (is_paired role) env "PAIR_ID") _ h3 in
      let (project_id, _, h5) = >>=-eq-ok (required_if (uses_data role) env "PROJECT_ID") _ h4 in
      let (namespace, _, h6) = >>=-eq-ok (required_if (uses_data role) env "KUBE_NAMESPACE") _ h5 in
      let (interval, _, h7) =
        >>=-eq-ok (parsed float_of (env_or env "POLL_INTERVAL_SECONDS" "5")) _ h6 in
      let (timeout, _, h8) = >>=-eq-ok (parsed int_of (env_or env "TIMEOUT_SECONDS" "5")) _ h7 in
      let (limit, _, h9) = >>=-eq-ok (parsed int_of (env_or env "HTTP_BODY_LIMIT" "8192")) _ h8 in
      let (port, _, h10) = >>=-eq-ok (parsed int_of (env_or env "LISTEN_PORT" "8088")) _ h9 in
      let (long, h11) =
        >>-eq-ok
          (raise_if (is_api role && ltb (text_length demo_key) 32)
            (value_error "DEMO_KEY must contain at least 32 characters"))
          _ h10 in
      let (inside, h12) =
        >>-eq-ok
          (raise_if (not (is_above 0 interval && is_at_most 60 interval))
            (value_error "POLL_INTERVAL_SECONDS must be in (0, 60]"))
          _ h11 in
      let (t, timed, h13) =
        >>=-eq-ok (in_range 1 30 "TIMEOUT_SECONDS must be in [1, 30]" timeout) _ h12 in
      let (b, limited, h14) =
        >>=-eq-ok (in_range 4096 65536 "HTTP_BODY_LIMIT must be in [4096, 65536]" limit) _ h13 in
      let (l, listening, h15) =
        >>=-eq-ok (in_range 1024 65535 "LISTEN_PORT must be an unprivileged TCP port" port) _ h14 in
      let (fine, h16) =
        >>-eq-ok
          (raise_if (is_bad pair_id || is_bad project_id || is_bad namespace)
            (value_error "invalid project, pair, or namespace identifier"))
          _ h15 in
      rw (← ok-injective _ s h16) (
        IsInterval-of_tests interval (not-eq-false _ (raise_if-eq-ok _ _ inside)),
        in_range-bounds 1 30 _ timeout t timed,
        in_range-bounds 4096 65536 _ limit b limited,
        in_range-bounds 1024 65535 _ port l listening,
        (λ api. long_enough (is_api role) (text_length demo_key) (raise_if-eq-ok _ _ long) api),
        (λ pairs.
            identifier_given pair_id
              (first_false (is_bad pair_id) (is_bad project_id) (is_bad namespace)
                (raise_if-eq-ok _ _ fine))
              (required_if-given (is_paired role) env "PAIR_ID" pair_id paired pairs)),
      )
