-- ===== src/Tests/Kube.antt =====
-- A cluster with one config map, and requests in chunks.
use radius_todolist_app.Prelude.{
  List, true, false, Option, none, some, [], ◌∷◌, ◌≡◌, refl, ◌⊎◌, if◌then◌else◌, leb, length,
}
use radius_todolist_app.Error.{ok, err, api}
use radius_todolist_app.ConfigMaps.{
  AppliedConfiguration, ConfigMap, Api, Place, body, read_map, apply,
}
use radius_todolist_app.ConfigMaps.Forward.{IsForward, MayWrite, apply-IsForward}
use radius_todolist_app.ConfigMaps.Seen.{logging}
use radius_todolist_app.Session.{delivered, lost}
use radius_todolist_app.ControlTables.{ControlDb}
use radius_todolist_app.DataReconciler.{DataPlane, reconcile_once}
use radius_todolist_app.DataReconciler.Applied.{IsBacked, reconcile_once-IsBacked}
use radius_todolist_app.Auth.{request, too_large, calls, receive_body}
use radius_todolist_app.Auth.BodyLimit.{sent, joined, receive_body_bounded}

-- The cluster's state is the one config map that it may have.
abbrev cluster : Api (Option ConfigMap)
cluster = record {
  read_config_map = λ name c. (elim c [ none ↦ err (api (some 404)) | some cm ↦ ok cm ], c);
  patch_config_map = λ name cm c. (ok cm, some cm);
  create_config_map = λ cm c. (ok cm, some cm);
}

abbrev place : Place
place = record { project_id = "demo"; pair_id = "shared" }

abbrev desired : AppliedConfiguration
desired = record { tenant_id = "acme"; onboarding_id = "b-1"; message = "hello"; version = 12 }

abbrev stored : Option ConfigMap
stored = some (body some place (record desired { version = 9 }) none)

-- The older version is replaced.
applied : (apply some place cluster desired stored).0 ≡ ok desired
unfolding apply
applied = refl

apply-IsForward_example :
    ((a : AppliedConfiguration)
      → (apply some place cluster desired stored).0 ≡ ok a
      → IsForward desired a)
    × (let (existing, c') = read_map some place cluster desired.tenant_id stored in
        ((apply some place cluster desired stored).1 ≡ c')
        ⊎ MayWrite some place cluster desired existing)
apply-IsForward_example = apply-IsForward some place cluster desired stored

receive_body_bounded_example : receive_body 4 [] (sent ((1 ∷ 2 ∷ []) ∷ []) (3 ∷ []) []) ≡ (
    if leb (length (joined ((1 ∷ 2 ∷ []) ∷ []) (3 ∷ []))) 4
    then calls (request (joined ((1 ∷ 2 ∷ []) ∷ []) (3 ∷ [])) false ∷ [])
    else too_large)
receive_body_bounded_example = receive_body_bounded 4 ((1 ∷ 2 ∷ []) ∷ []) (3 ∷ []) []

abbrev control_plane : ControlDb
control_plane = record {
  configs =
      record {
        tenant_id = "acme";
        onboarding_id = "b-1";
        pair_id = "shared";
        message = "hello";
        version = 2;
      }
      ∷ [];
  events = [];
  next_event_id = 1;
}

abbrev data_plane : DataPlane (Option ConfigMap × List ConfigMap)
data_plane = record {
  cluster = (none, []);
  control = record { db = control_plane; fates = delivered ∷ delivered ∷ delivered ∷ lost ∷ [] };
}

reconcile_once-IsBacked_example :
    IsBacked some
      (λ a b. true)
      (some "shared")
      place
      cluster
      (reconcile_once some (λ a b. true) (some "shared") place (logging cluster) data_plane).1
reconcile_once-IsBacked_example =
    reconcile_once-IsBacked some (λ a b. true) (some "shared") place cluster data_plane tt
