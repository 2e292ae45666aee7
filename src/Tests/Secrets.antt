-- ===== src/Tests/Secrets.antt =====
-- A cluster with a list of secrets and a vault with one secret, for the credential stores.

use radius_todolist_app.Prelude.{
  String, ◌≡◌, ◌≢◌, refl, sym, inl, inr, false, Option, none, some, List, [], ◌∷◌, str_eq, eq_iff,
  eq_refl, Bool-cases,
}
use radius_todolist_app.Error.{Result, ok, err, api}
use radius_todolist_app.Dict.{Dict, get}
use radius_todolist_app.CredentialStore.{
  Backend, is_reference, is_credential, is_provided, get_or_create,
}
use radius_todolist_app.CredentialStore.Scope.{
  CredentialScope, owner_labels, verify_labels, has_labels, has_value, validate_reference,
  secret_name, scope_of,
}
use radius_todolist_app.CredentialStore.Unambiguous.{identity_text-injective}
use radius_todolist_app.CredentialStore.KeyVault.{
  KeyVaultClient, answered, failed, request, key_vault_store,
}
use radius_todolist_app.CredentialStore.KeyVault.Singleton.{get_or_create-Singleton}
use radius_todolist_app.CredentialStore.Kubernetes.{
  Namespace, V1Secret, KubernetesClient, check_namespace, read_result, kubernetes_store, read_value,
  verify_namespace,
}
use radius_todolist_app.CredentialStore.Kubernetes.Cluster.{answer_of, Others, IsCluster, store}
use radius_todolist_app.CredentialStore.Kubernetes.Refines.{
  put_if_absent, key_of, kept_store, get_or_create-Refines,
}

abbrev Secrets : Type 0
Secrets = Dict V1Secret

abbrev content : Secrets → String → Option V1Secret
unfolding get
content c name = get name c

abbrev scope : CredentialScope
scope = record { project = "todo"; deployment = "demo"; environment = "local" }

abbrev owned : Namespace
unfolding owner_labels
owned = record { name = some "credentials"; labels_of = some (owner_labels scope) }

abbrev create_secret : V1Secret → Option String → Secrets → Result (Unit {0}) × Secrets
unfolding get
create_secret secret none c = (err (api (some 422)), c)
create_secret secret (some name) c = elim (get name c) [
  | none ↦ (ok tt, (name, secret) ∷ c)
  | some _ ↦ (err (api (some 409)), c)
]

client : KubernetesClient Secrets
unfolding content create_secret
client = record {
  read_namespace = λ name c. (ok owned, c);
  read_secret = λ name namespace c. (answer_of (content c name), c);
  create_secret = λ namespace secret c. create_secret secret secret.name c;
}

get-other :
    (name other : String) (secret : V1Secret) (c : Secrets)
    → other ≢ name
    → get other ((name, secret) ∷ c) ≡ get other c
unfolding get
get-other name other secret c differs = elim (Bool-cases (str_eq name other)) [
  | inl e ↦ absurd (differs (sym ((eq_iff name other).0 e)))
  | inr e ↦ rw e refl
]

create_secret-free :
    (secret : V1Secret) (given : Option String) (name : String) (c : Secrets)
    → given ≡ some name
    → get name c ≡ none
    → create_secret secret given c ≡ (ok tt, (name, secret) ∷ c)
unfolding create_secret
create_secret-free secret given name c named free = rw (named, create_secret, free) refl

client-IsCluster : IsCluster "credentials" client content owned
unfolding client content create_secret get
client-IsCluster = record {
  shows_namespace = λ c. refl;
  shows_secret = λ name c. refl;
  creates = λ name secret c named free. (
    (name, secret) ∷ c,
    create_secret-free secret secret.name name c named free,
    rw (eq_refl name) refl,
    (λ other differs. get-other name other secret c differs),
  );
}

abbrev value : String
value = "0123456789abcdef0123456789abcdef"

owned-IsOwned : check_namespace scope "credentials" (λ t. t) (λ t. t) some (ok owned) ≡ ok tt
unfolding check_namespace owned verify_labels has_labels has_value owner_labels get
owned-IsOwned = refl

guard : Option (Secrets → Result (Unit {0}) × Secrets)
guard = some (λ c. (ok tt, c))

abbrev cluster_store : Backend Secrets
unfolding kept_store
cluster_store =
    kept_store scope "credentials" (λ t. t) (λ t. t) some client content owned client-IsCluster
      owned-IsOwned guard

cluster_store-empty : cluster_store.read_value "management" "mgmt_api" [] ≡ (ok none, [])
unfolding cluster_store kept_store store kubernetes_store read_value verify_namespace secret_name
    validate_reference read_result client content check_namespace owned verify_labels has_labels
    has_value owner_labels get is_reference
cluster_store-empty = refl

get_or_create-Refines_example :
    let (answer, after) = put_if_absent false (ok tt) none none value in
    (c' : Secrets) × (get_or_create cluster_store value "management" "mgmt_api" none false []
      ≡ (answer, c'))
    × (cluster_store.read_value "management" "mgmt_api" c' ≡ (ok after, c'))
    × Others "credentials" client content
        (key_of scope "credentials"
          (λ t. t)
          (λ t. t)
          some
          client
          content
          owned
          client-IsCluster
          owned-IsOwned
          guard
          "management"
          "mgmt_api")
        []
        c'
unfolding cluster_store kept_store guard is_provided is_credential is_reference
get_or_create-Refines_example =
    get_or_create-Refines scope "credentials" (λ t. t) (λ t. t) some client content owned
      client-IsCluster owned-IsOwned guard "management" "mgmt_api" value none none false (ok tt) []
      (λ text. refl) refl refl refl refl cluster_store-empty

identity_text-injective_example :
    (scope.project ≡ scope.project)
    × (scope.deployment ≡ scope.deployment)
    × (scope.environment ≡ scope.environment)
    × (◌≡◌ {A = String} "eu-1-control" "eu-1-control")
    × (◌≡◌ {A = String} "cp_api" "cp_api")
unfolding scope_of is_reference
identity_text-injective_example =
    identity_text-injective scope scope "eu-1-control" "cp_api" "eu-1-control" "cp_api" refl refl
      refl refl refl

abbrev vault : KeyVaultClient (List String)
vault = record {
  get_secret = λ name v. (failed (request (some 404) (some "SecretNotFound")), v);
  set_secret = λ name text tags v. (answered tt, text ∷ v);
}

get_or_create-Singleton_example :
    (get_or_create
      (key_vault_store scope (λ t. t) vault false none)
      value
      "management"
      "mgmt_api"
      none
      false
      []).1
    ≡ []
get_or_create-Singleton_example =
    get_or_create-Singleton scope (λ t. t) vault none (λ v. v ≡ []) value "management" "mgmt_api"
      none false [] (λ name v same. same) refl
