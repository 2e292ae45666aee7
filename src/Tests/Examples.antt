-- ===== src/Tests/Examples.antt =====
-- Two pairs, one tenant on the shared pair, and a provider that always succeeds.
use radius_todolist_app.Prelude.{ℕ, false, none, List, [], ◌∷◌, refl, arith}
use radius_todolist_app.Error.{ok}
use radius_todolist_app.Session.{Session, Fate}
use radius_todolist_app.Tables.{Status, pending, running, Pair, Tenant, Operation, Db}
use radius_todolist_app.Operations.{PendingOperation}
use radius_todolist_app.Admission.{TenantRequest, Generated}
use radius_todolist_app.Admission.Consistency.{IsConsistent}
use radius_todolist_app.Provisioning.{Provider, ends, observing}
use radius_todolist_app.Provisioning.Effects.{World}
use radius_todolist_app.Provisioner.{Service}

abbrev pub shared_pair : Pair
shared_pair = record {
  pair_id = "shared";
  isolation = "shared";
  stage = "allocated";
  reporting_role = "cp_shared";
}

abbrev pub isolated_pair : Pair
isolated_pair = record {
  pair_id = "pair-1";
  isolation = "isolated";
  stage = "available";
  reporting_role = "cp_pair_1";
}

abbrev pub acme : Tenant
acme = record {
  tenant_id = "acme";
  onboarding_id = "b-1";
  isolation = "shared";
  pair_id = "shared";
  initial_message = "hello";
  desired_revision = 1;
}

abbrev pub operation_with : Status → Operation
operation_with status = record {
  operation_id = "a-1";
  tenant_id = "acme";
  status = status;
  stage = "accepted";
  error_code = none;
  created_at = 7;
}

-- The tables with the tenant's operation in a status.
abbrev pub tables : Status → Db
tables status = record {
  pairs = shared_pair ∷ isolated_pair ∷ [];
  tenants = acme ∷ [];
  operations = operation_with status ∷ [];
  events = [];
  next_event_id = 1;
}

pub pending-IsConsistent : IsConsistent (tables pending)
pending-IsConsistent = record {
  keyed = (tt, tt);
  owned = (refl, tt);
  placed = (refl, tt);
  one_active = omega arith;
  exclusive = (tt, tt);
  ready = (λ h. cc, tt);
}

pub running-IsConsistent : IsConsistent (tables running)
running-IsConsistent = record {
  keyed = (tt, tt);
  owned = (refl, tt);
  placed = (refl, tt);
  one_active = omega arith;
  exclusive = (tt, tt);
  ready = (λ h. cc, tt);
}

abbrev pub session : Status → List Fate → Session Db
session status fates = record { db = tables status; fates = fates }

abbrev pub acme_request : PendingOperation
acme_request = record {
  operation_id = "a-1";
  tenant_id = "acme";
  onboarding_id = "b-1";
  pair_id = "shared";
  isolation = "shared";
  initial_message = "hello";
}

-- A request for the pair that is available.
abbrev pub isolated_request : PendingOperation
isolated_request = record {
  operation_id = "a-3";
  tenant_id = "gamma";
  onboarding_id = "b-3";
  pair_id = "pair-1";
  isolation = "isolated";
  initial_message = "hello";
}

abbrev pub tenant_request : TenantRequest
tenant_request = record { tenant_id = "beta"; isolation = "isolated"; initial_message = "hi" }

abbrev pub generated : Generated
generated = record { onboarding_id = "b-2"; operation_id = "a-2"; created_at = 9 }

-- The state counts the calls that reach a cluster.
abbrev pub calm : Provider ℕ
calm = record {
  prepared_environments = false;
  pair_slots = record { pair_id = "shared"; reporting_role = "cp_shared" } ∷ [];
  expected_cluster_id = λ name n. (ok name, n);
  validate_endpoint = λ name url n. (ok url, n);
  ensure_child_cluster = λ name n.
      (ok (record { slot = name; cluster_id = name; context = name; kubeconfig = name }), n);
  bootstrap_child = λ c n. (ok tt, n);
  deploy_plane =
      λ name n. observing "control-deploy" n (ends (ok "https://a.cloudapp.azure.com") n);
  inspect_pair = λ id n. (
    ok (record {
      control_cluster_id = "pair-1-control";
      data_cluster_id = "pair-1-data";
      control_url = "https://a.cloudapp.azure.com";
      data_url = "https://b.cloudapp.azure.com";
    }),
    n,
  );
}

abbrev pub service : Service ℕ
service = record {
  provider = calm;
  authenticate = λ n. (ok tt, n);
  connect_management = λ n. (ok tt, n);
  verify_recipes = λ n. (ok tt, n);
}

abbrev pub world : Status → List Fate → World ℕ (Session Db)
world status fates = record { provider = 0; caller = session status fates }
