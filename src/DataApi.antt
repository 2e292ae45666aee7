-- ===== src/DataApi.antt =====
-- src/plane_demo/data/api.py: `serve` behind both handlers, over `ConfigMaps` and the counters of
-- Redis, which are parameters with states of their own. `int(text)` is a parameter.
pub mod Counts
use radius_todolist_app.Prelude.{ℕ, String, Bool, true, false, Option, none, some, if◌then◌else◌}
use radius_todolist_app.Error.{
  Error, Result, ok, err, value_error, http, api, transport, configuration_missing,
  configuration_invalid, redis_error,
}
use radius_todolist_app.Text.{concat}
use radius_todolist_app.Numbers.{ℤ, pos}
use radius_todolist_app.ConfigMaps.{AppliedConfiguration, Api, Place, read}

-- `incr` and `get` of redis' client; what is got may be None.
pub record Counters (S : Type 0) : Type 0 where
  pub incr : String → S → Result ℤ × S
  pub get_text : String → S → Result (Option String) × S

pub record TenantCounter : Type 0 where
  pub tenant_id : String
  pub onboarding_id : String
  pub message : String
  pub applied_version : ℕ
  pub counter : ℤ

-- What the first `try` raises instead.
unfoldable pub configuration_error : Error → Error
configuration_error configuration_missing = http 404 "tenant_config_not_applied"
configuration_error configuration_invalid = http 503 "tenant_config_invalid"
configuration_error (api status) = http 503 "local_configuration_unavailable"
configuration_error transport = http 503 "local_configuration_unavailable"
configuration_error e = e

-- What the second `try` raises instead.
unfoldable pub counter_error : Error → Error
counter_error redis_error = http 503 "local_counter_unavailable"
counter_error (value_error message) = http 503 "local_counter_unavailable"
counter_error e = e

unfoldable pub counter_key : AppliedConfiguration → String → String
unfolding concat
counter_key applied tenant_id =
    concat "plane-demo:" (concat applied.onboarding_id (concat ":" (concat tenant_id ":counter")))

module _ (int_of : String → Option ℤ) where
  -- `int(value) if value is not None else 0`
  unfoldable pub counter_value : Option String → Result ℤ
  counter_value none = ok (pos 0)
  counter_value (some text) = elim (int_of text) [
    | some n ↦ ok n
    | none ↦ err (value_error "invalid literal")
  ]

  unfoldable pub reply_of : AppliedConfiguration → String → Result ℤ → Result TenantCounter
  unfolding counter_error
  reply_of applied tenant_id (err e) = err (counter_error e)
  reply_of applied tenant_id (ok counter) = ok (record {
    tenant_id = tenant_id;
    onboarding_id = applied.onboarding_id;
    message = applied.message;
    applied_version = applied.version;
    counter = counter;
  })

  module _ {S : Type 0} (counters : Counters S) where
    unfoldable pub count_of : Result (Option String) → Result ℤ
    unfolding counter_value
    count_of (err e) = err e
    count_of (ok value) = counter_value value

    -- The body of the second `try`.
    unfoldable pub count : String → Bool → S → Result ℤ × S
    unfolding count_of
    count key true s = counters.incr key s
    count key false s = let (value, s') = counters.get_text key s in (count_of value, s')

    -- What follows the first `try`.
    unfoldable pub serve_applied :
        String → Bool → Result AppliedConfiguration → S → Result TenantCounter × S
    unfolding count configuration_error counter_key reply_of
    serve_applied tenant_id increment (err e) s = (err (configuration_error e), s)
    serve_applied tenant_id increment (ok applied) s =
        let (counter, s') = count (counter_key applied tenant_id) increment s in
        (reply_of applied tenant_id counter, s')

    module _ (uuid_of : String → Option String) (place : Place) {C : Type 0} (kube : Api C) where
      -- `serve`
      unfoldable pub serve : String → Bool → C → S → Result TenantCounter × C × S
      unfolding serve_applied read
      serve tenant_id increment c s =
          let (applied, c') = read uuid_of place kube tenant_id c in
          let (reply, s') = serve_applied tenant_id increment applied s in (reply, c', s')

      unfoldable pub read_tenant : String → C → S → Result TenantCounter × C × S
      unfolding serve
      read_tenant tenant_id = serve tenant_id false

      unfoldable pub increment_counter : String → C → S → Result TenantCounter × C × S
      unfolding serve
      increment_counter tenant_id = serve tenant_id true
