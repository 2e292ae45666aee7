-- ===== src/DataApi/Counts.antt =====
-- When `serve` touches the counter, and what it answers.
use radius_todolist_app.Prelude.{
  String, ◌≡◌, refl, ◌⊎◌, inl, inr, Bool, true, false, Option, none, some, Option-cases,
}
use radius_todolist_app.Error.{
  Error, Result, ok, err, value_error, http, api, transport, configuration_missing,
  configuration_invalid, redis_error,
}
use radius_todolist_app.Text.{concat}
use radius_todolist_app.Numbers.{ℤ, pos}
use radius_todolist_app.ConfigMaps.{AppliedConfiguration, Api, Place, read}
use radius_todolist_app.DataApi.{
  Counters, TenantCounter, configuration_error, counter_error, counter_value, counter_key, count,
  count_of, serve_applied, serve, reply_of,
}

-- What the client is told of an error of `ConfigMaps.read`.
abbrev pub ConfigurationFails : Error → Error → Type 0
ConfigurationFails configuration_missing x = x ≡ http 404 "tenant_config_not_applied"
ConfigurationFails configuration_invalid x = x ≡ http 503 "tenant_config_invalid"
ConfigurationFails (api status) x = x ≡ http 503 "local_configuration_unavailable"
ConfigurationFails transport x = x ≡ http 503 "local_configuration_unavailable"
ConfigurationFails e x = x ≡ e

-- What the client is told of an error of the counter.
abbrev pub CounterFails : Error → Error → Type 0
CounterFails redis_error x = x ≡ http 503 "local_counter_unavailable"
CounterFails (value_error message) x = x ≡ http 503 "local_counter_unavailable"
CounterFails e x = x ≡ e

-- The answer for a configuration whose counter is `n`.
abbrev pub Answers : AppliedConfiguration → String → Result ℤ → Result TenantCounter → Type 0
Answers a tenant_id (ok k) r =
    r
    ≡ ok (record {
      tenant_id = tenant_id;
      onboarding_id = a.onboarding_id;
      message = a.message;
      applied_version = a.version;
      counter = k;
    })
Answers a tenant_id (err e) r = (x : Error) × (r ≡ err x) × CounterFails e x

configuration_error-Fails : (e : Error) → ConfigurationFails e (configuration_error e)
unfolding configuration_error
configuration_error-Fails configuration_missing = refl
configuration_error-Fails configuration_invalid = refl
configuration_error-Fails (api status) = refl
configuration_error-Fails transport = refl
configuration_error-Fails e = refl

counter_error-Fails : (e : Error) → CounterFails e (counter_error e)
unfolding counter_error
counter_error-Fails redis_error = refl
counter_error-Fails (value_error message) = refl
counter_error-Fails e = refl

module _ (int_of : String → Option ℤ) where
  -- The number that a text of the counter stands for: 0 where there is none.
  abbrev pub Reads : Result (Option String) → Result ℤ → Type 0
  Reads (err e) n = n ≡ err e
  Reads (ok none) n = n ≡ ok (pos 0)
  Reads (ok (some text)) n =
      ((k : ℤ) × (int_of text ≡ some k) × (n ≡ ok k))
      ⊎ ((int_of text ≡ none) × ((message : String) × (n ≡ err (value_error message))))

  reply_of-Answers :
      (a : AppliedConfiguration) (tenant_id : String) (n : Result ℤ)
      → Answers a tenant_id n (reply_of int_of a tenant_id n)
  unfolding reply_of
  reply_of-Answers a tenant_id (ok k) = refl
  reply_of-Answers a tenant_id (err e) = (counter_error e, refl, counter_error-Fails e)

  module _ {S : Type 0} (counters : Counters S) (uuid_of : String → Option String) (place : Place)
      {C : Type 0} (kube : Api C) where
    count_of-Reads : (got : Result (Option String)) → Reads got (count_of int_of counters got)
    unfolding count_of counter_value
    count_of-Reads (err e) = refl
    count_of-Reads (ok none) = refl
    count_of-Reads (ok (some text)) = elim (Option-cases (int_of text)) [
      | inl e ↦ inr (e, ("invalid literal", rw (counter_value, e) refl))
      | inr (k, e) ↦ inl (k, e, rw (counter_value, e) refl)
    ]

    -- What `serve` does with the tenant's counter, and its answer.
    abbrev pub Counts : String → Bool → AppliedConfiguration → S → Result TenantCounter → S → Type 0
    unfolding concat
    Counts tenant_id true a s r s' =
        let key =
          concat "plane-demo:"
            (concat a.onboarding_id (concat ":" (concat tenant_id ":counter"))) in
        let (n, after) = counters.incr key s in (s' ≡ after) × Answers a tenant_id n r
    Counts tenant_id false a s r s' =
        let key =
          concat "plane-demo:"
            (concat a.onboarding_id (concat ":" (concat tenant_id ":counter"))) in
        let (got, after) = counters.get_text key s in
        (s' ≡ after) × ((n : Result ℤ) × Reads got n × Answers a tenant_id n r)

    -- What `serve` has done, for what `ConfigMaps.read` gives.
    abbrev pub Serves :
        String → Bool → Result AppliedConfiguration → S → Result TenantCounter → S → Type 0
    Serves tenant_id increment (err e) s r s' =
        (s' ≡ s) × ((x : Error) × (r ≡ err x) × ConfigurationFails e x)
    Serves tenant_id increment (ok a) s r s' = Counts tenant_id increment a s r s'

    serve_applied-Serves :
        (tenant_id : String) (increment : Bool) (applied : Result AppliedConfiguration) (s : S)
        → let (r, s') = serve_applied int_of counters tenant_id increment applied s in
          Serves tenant_id increment applied s r s'
    unfolding serve_applied count counter_key
    serve_applied-Serves tenant_id increment (err e) s =
        (refl, (configuration_error e, refl, configuration_error-Fails e))
    serve_applied-Serves tenant_id true (ok a) s =
        (refl, reply_of-Answers a tenant_id (counters.incr (counter_key a tenant_id) s).0)
    serve_applied-Serves tenant_id false (ok a) s =
        let n = count_of int_of counters (counters.get_text (counter_key a tenant_id) s).0 in
        (refl, (n, count_of-Reads _, reply_of-Answers a tenant_id n))

    -- `serve` touches the counters only where `ConfigMaps.read` gives a configuration: else they stay
    -- and the answer is 404 where the tenant has none, 503 where it is invalid or cannot be read. Then
    -- it increments, or only reads, the counter at "plane-demo:<onboarding_id>:<tenant_id>:counter",
    -- and answers with the number, which is 0 where none is stored, and the configuration, or with
    -- 503 where Redis fails or the text is no number. Any other error is raised as it is.
    pub serve-Serves :
        (tenant_id : String) (increment : Bool) (c : C) (s : S)
        → let (r, c', s') = serve int_of counters uuid_of place kube tenant_id increment c s in
          let (applied, c1) = read uuid_of place kube tenant_id c in
          (c' ≡ c1) × Serves tenant_id increment applied s r s'
    unfolding serve
    serve-Serves tenant_id increment c s =
        (refl, serve_applied-Serves tenant_id increment (read uuid_of place kube tenant_id c).0 s)
