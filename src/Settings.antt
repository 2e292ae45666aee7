-- ===== src/Settings.antt =====
-- src/plane_demo/shared/settings.py. The constructors `int` and `float` on texts, `unquote` and
-- the constructors of redis' client are parameters.
pub mod Bounds
use Prim.Native.String
use radius_todolist_app.Prelude.{
  ℕ, String, Bool, true, false, not, ◌&&◌, ◌||◌, Option, none, some, List, [], ◌∷◌, str_eq, ltb,
  leb, if◌then◌else◌,
}
use radius_todolist_app.Error.{Error, Result, ok, err, value_error, ◌>>=◌, ◌>>◌, raise_if}
use radius_todolist_app.Dict.{Dict, get}
use radius_todolist_app.Numbers.{ℤ, pos, negsuc, Float, is_above, is_at_most}
use radius_todolist_app.Text.{concat, is_alnum, is_framed, is_one_of, strip_prefix, text_length}

abbrev pub env_or : Dict String → String → String → String
unfolding get
env_or env name default = elim (get name env) [ none ↦ default | some value ↦ value ]

-- `required`
unfoldable pub required : Dict String → String → Result String
unfolding env_or concat
required env name =
    if str_eq (env_or env name "") ""
    then err (value_error (concat "required setting: " name))
    else ok (env_or env name "")

abbrev pub required_if : Bool → Dict String → String → Result String
unfolding required
required_if test env name = if test then required env name else ok ""

-- `Settings`
pub record Settings : Type 0 where
  pub demo_key : String
  pub management_dsn : String
  pub control_dsn : String
  pub redis_url : String
  pub pair_id : String
  pub project_id : String
  pub namespace : String
  pub poll_interval : Float
  pub timeout_seconds : ℕ
  pub body_limit : ℕ
  pub listen_port : ℕ
  pub challenge_directory : String

unfoldable pub is_api : String → Bool
unfolding is_one_of
is_api role = is_one_of role ("management_api" ∷ "control_api" ∷ "data_api" ∷ [])

uses_management : String → Bool
unfolding is_one_of
uses_management role = is_one_of role ("management_api" ∷ "control_reconciler" ∷ [])

uses_control : String → Bool
unfolding is_one_of
uses_control role = is_one_of role ("control_api" ∷ "control_reconciler" ∷ "data_reconciler" ∷ [])

uses_data : String → Bool
unfolding is_one_of
uses_data role = is_one_of role ("data_api" ∷ "data_reconciler" ∷ [])

unfoldable pub is_paired : String → Bool
unfolding is_one_of
is_paired role = is_one_of role ("control_reconciler" ∷ "data_reconciler" ∷ "data_api" ∷ [])

-- [a-z0-9](?:[a-z0-9-]{0,61}[a-z0-9])?
unfoldable pub is_identifier : String → Bool
unfolding is_framed
is_identifier = is_framed is_alnum b'-' 61

-- `value and not re.fullmatch(...)`
is_bad : String → Bool
unfolding is_identifier
is_bad value = not (str_eq value "") && not (is_identifier value)

-- A number in the closed interval, or the error.
in_range : ℕ → ℕ → String → ℤ → Result ℕ
in_range low high message (negsuc n) = err (value_error message)
in_range low high message (pos n) =
    if leb low n && leb n high then ok n else err (value_error message)

-- `int(text)` or `float(text)`
parsed : {A : Type 0} → (String → Option A) → String → Result A
parsed parse text = elim (parse text) [
  | some value ↦ ok value
  | none ↦ err (value_error "invalid literal")
]

module _ (int_of : String → Option ℤ) (float_of : String → Option Float) where
  -- `from_env`
  unfoldable pub from_env : Dict String → String → Result Settings
  unfolding required_if uses_management uses_control uses_data is_api is_paired parsed in_range
      is_bad env_or text_length is_above is_at_most
  from_env env role = do
    demo_key ← required_if (is_api role) env "DEMO_KEY"
    management_dsn ← required_if (uses_management role) env "MANAGEMENT_DSN"
    control_dsn ← required_if (uses_control role) env "CONTROL_DSN"
    pair_id ← required_if (is_paired role) env "PAIR_ID"
    project_id ← required_if (uses_data role) env "PROJECT_ID"
    namespace ← required_if (uses_data role) env "KUBE_NAMESPACE"
    poll_interval ← parsed float_of (env_or env "POLL_INTERVAL_SECONDS" "5")
    timeout ← parsed int_of (env_or env "TIMEOUT_SECONDS" "5")
    limit ← parsed int_of (env_or env "HTTP_BODY_LIMIT" "8192")
    port ← parsed int_of (env_or env "LISTEN_PORT" "8088")
    raise_if (is_api role && ltb (text_length demo_key) 32)
        (value_error "DEMO_KEY must contain at least 32 characters")
    raise_if (not (is_above 0 poll_interval && is_at_most 60 poll_interval))
        (value_error "POLL_INTERVAL_SECONDS must be in (0, 60]")
    timeout_seconds ← in_range 1 30 "TIMEOUT_SECONDS must be in [1, 30]" timeout
    body_limit ← in_range 4096 65536 "HTTP_BODY_LIMIT must be in [4096, 65536]" limit
    listen_port ← in_range 1024 65535 "LISTEN_PORT must be an unprivileged TCP port" port
    raise_if (is_bad pair_id || is_bad project_id || is_bad namespace)
        (value_error "invalid project, pair, or namespace identifier")
    ok (record {
      demo_key = demo_key;
      management_dsn = management_dsn;
      control_dsn = control_dsn;
      redis_url = env_or env "REDIS_URL" "";
      pair_id = pair_id;
      project_id = project_id;
      namespace = namespace;
      poll_interval = poll_interval;
      timeout_seconds = timeout_seconds;
      body_limit = body_limit;
      listen_port = listen_port;
      challenge_directory = env_or env "CHALLENGE_DIRECTORY" "/challenges";
    })

-- What the client of `redis_client` is built from.
pub data RedisClient : Type 0 where
  from_url : (url : String) (timeout : ℕ) → RedisClient
  from_parts :
      (host : String) (port : ℤ) (password : String) (ssl : Bool) (timeout : ℕ) → RedisClient

has_redis_scheme : String → Bool
unfolding strip_prefix
has_redis_scheme url = elim (strip_prefix "redis://" url) [
  | some _ ↦ true
  | none ↦ elim (strip_prefix "rediss://" url) [ some _ ↦ true | none ↦ false ]
]

module _ (int_of : String → Option ℤ) (lower unquote : String → String) where
  -- The branches of `redis_client` without a URL.
  client_of_parts : Dict String → Settings → Result RedisClient
  unfolding required is_one_of parsed
  client_of_parts env settings = do
    host ← required env "CONNECTION_REDIS_HOST"
    given ← required env "CONNECTION_REDIS_TLS"
    let tls = lower given
    raise_if (not (is_one_of tls ("true" ∷ "false" ∷ [])))
        (value_error "CONNECTION_REDIS_TLS must be true or false")
    password ← required env "CONNECTION_REDIS_PASSWORD"
    port_text ← required env "CONNECTION_REDIS_PORT"
    port ← parsed int_of port_text
    ok (from_parts host port (unquote password) (str_eq tls "true") settings.timeout_seconds)

  -- `redis_client`
  unfoldable pub redis_client : Dict String → Settings → Result RedisClient
  unfolding has_redis_scheme client_of_parts env_or
  redis_client env settings =
      let url =
        if str_eq settings.redis_url ""
        then env_or env "CONNECTION_REDIS_URL" ""
        else settings.redis_url in
      if str_eq url "" then client_of_parts env settings else do
        raise_if (not (has_redis_scheme url))
            (value_error "Redis URL must use redis:// or rediss://")
        ok (from_url url settings.timeout_seconds)
