-- ===== src/Tests/Services.antt =====
-- A data plane whose counters are one number, and the settings of its API.
use radius_todolist_app.Prelude.{ℕ, ◌+◌, String, ◌≡◌, refl, true, Option, none, some, [], ◌∷◌}
use radius_todolist_app.Error.{ok}
use radius_todolist_app.Dict.{Dict}
use radius_todolist_app.Text.{digits_value}
use radius_todolist_app.ConfigMaps.{ConfigMap, Api, Place, read}
use radius_todolist_app.Numbers.{ℤ, pos, Float, finite}
use radius_todolist_app.Settings.{Settings, from_env}
use radius_todolist_app.Settings.Bounds.{AreValid, from_env-AreValid}
use radius_todolist_app.DataApi.{Counters, serve}
use radius_todolist_app.DataApi.Counts.{Serves, serve-Serves}

abbrev counters : Counters ℕ
counters = record {
  incr = λ key s. (ok (pos (s + 1)), s + 1);
  get_text = λ key s. (ok (some "7"), s);
}

abbrev cluster : Api ConfigMap
cluster = record {
  read_config_map = λ name c. (ok c, c);
  patch_config_map = λ name change c. (ok change, change);
  create_config_map = λ change c. (ok change, change);
}

abbrev place : Place
place = record { project_id = "todo"; pair_id = "shared" }

abbrev stored : ConfigMap
stored = record {
  name = "tenant-acme";
  resource_version = none;
  labels = some (
      ("plane-demo/project", "todo")
      ∷ ("plane-demo/pair", "shared")
      ∷ ("plane-demo/onboarding", "id-1")
      ∷ []);
  data_map = some (("message", "hi") ∷ ("version", "3") ∷ ("onboarding_id", "id-1") ∷ []);
}

int_of : String → Option ℤ
unfolding digits_value
int_of text = elim (digits_value text) [ none ↦ none | some n ↦ some (pos n) ]

serve-Serves_example :
    let (r, c', s') = serve int_of counters some place cluster "acme" true stored 4 in
    let (applied, c1) = read some place cluster "acme" stored in
    (c' ≡ c1) × Serves int_of counters some place cluster "acme" true applied 4 r s'
serve-Serves_example = serve-Serves int_of counters some place cluster "acme" true stored 4

abbrev environment : Dict String
environment =
    ("DEMO_KEY", "0123456789abcdef0123456789abcdef")
    ∷ ("PAIR_ID", "shared")
    ∷ ("PROJECT_ID", "todo")
    ∷ ("KUBE_NAMESPACE", "todo-data")
    ∷ ("TIMEOUT_SECONDS", "10")
    ∷ []

abbrev settings : Settings
settings = record {
  demo_key = "0123456789abcdef0123456789abcdef";
  management_dsn = "";
  control_dsn = "";
  redis_url = "";
  pair_id = "shared";
  project_id = "todo";
  namespace = "todo-data";
  poll_interval = finite (pos 5) 0;
  timeout_seconds = 10;
  body_limit = 8192;
  listen_port = 8088;
  challenge_directory = "/challenges";
}

float_of : String → Option Float
unfolding int_of
float_of text = elim (int_of text) [ none ↦ none | some n ↦ some (finite n 0) ]

from_env-AreValid_example : AreValid int_of float_of "data_api" settings
unfolding from_env int_of float_of
from_env-AreValid_example = from_env-AreValid int_of float_of environment "data_api" settings refl
