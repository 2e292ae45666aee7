-- ===== src/CredentialStore/Kubernetes/Refines.antt =====
-- `get_or_create` of the Kubernetes credential store against a map with one value for a reference.
use radius_todolist_app.Prelude.{
  String, ◌≡◌, refl, sym, ap, ◌∙◌, Bool, true, false, Option, none, some, str_eq, eq_refl,
  if◌then◌else◌,
}
use radius_todolist_app.Error.{Error, Result, ok, err, store as store_error, >>=-eq-ok}
use radius_todolist_app.CredentialStore.{
  Backend, is_reference, is_credential, match, get_or_create, use_existing, is_provided,
  candidate_of, create, observe_created, settle,
}
use radius_todolist_app.CredentialStore.Scope.{CredentialScope, all_labels}
use radius_todolist_app.CredentialStore.Kubernetes.{
  Namespace, V1Secret, KubernetesClient, check_namespace, read_result, check_secret, secret_of,
}
use radius_todolist_app.CredentialStore.Kubernetes.Cluster.{
  answer_of, asked, create_value-refused, Others, IsCluster, name, store, read_value-content,
  create_value-free, check_secret-secret_of,
}

-- A map's entry for a reference, with the guard's answer: what `get_or_create` returns, and the entry
-- after it.
abbrev pub put_if_absent :
    (require_existing : Bool) (guarded : Result (Unit {0})) (stored provided : Option String)
    → String
    → Result String × Option String
put_if_absent require_existing guarded (some v) none generated = (ok v, some v)
put_if_absent require_existing guarded (some v) (some w) generated =
    (if str_eq v w then ok v else err (store_error "credential_conflict"), some v)
put_if_absent true guarded none provided generated = (err (store_error "credential_missing"), none)
put_if_absent false (err e) none provided generated = (err e, none)
put_if_absent false (ok _) none (some w) generated = (ok w, some w)
put_if_absent false (ok _) none none generated = (ok generated, some generated)

module _ {B : Type 0} (backend : Backend B) (generated : String) (slot role : String) where
  -- The steps of `get_or_create` where nothing is stored.
  get_or_create-absent :
      (provided : Option String) (b b' : B)
      → let candidate = candidate_of backend generated slot role provided in
        is_reference slot role ≡ true
        → is_provided backend generated slot role provided ≡ true
        → is_credential candidate role ≡ true
        → backend.read_value slot role b ≡ (ok none, b)
        → backend.allow_create b ≡ (ok tt, b)
        → backend.create_value slot role candidate b ≡ (ok true, b')
        → backend.read_value slot role b' ≡ (ok (some candidate), b')
        → get_or_create backend generated slot role provided false b ≡ (ok candidate, b')
  unfolding get_or_create use_existing create observe_created settle match
  get_or_create-absent provided b b' valid given is absent allowed created back =
      rw
        (
          get_or_create,
          valid,
          given,
          absent,
          allowed,
          is,
          created,
          back,
          eq_refl (candidate_of backend generated slot role provided),
        )
        refl

  -- Where a value is stored.
  get_or_create-found :
      (provided : Option String) (require_existing : Bool) (existing : String) (b : B)
      → is_reference slot role ≡ true
      → is_provided backend generated slot role provided ≡ true
      → backend.read_value slot role b ≡ (ok (some existing), b)
      → get_or_create backend generated slot role provided require_existing b
        ≡ (match existing provided, b)
  unfolding get_or_create use_existing
  get_or_create-found provided require_existing existing b valid given shown =
      rw (get_or_create, valid, given, shown) refl

  -- Where nothing is stored, but a value is required.
  get_or_create-missing :
      (provided : Option String) (b : B)
      → is_reference slot role ≡ true
      → is_provided backend generated slot role provided ≡ true
      → backend.read_value slot role b ≡ (ok none, b)
      → get_or_create backend generated slot role provided true b
        ≡ (err (store_error "credential_missing"), b)
  unfolding get_or_create use_existing
  get_or_create-missing provided b valid given absent =
      rw (get_or_create, valid, given, absent) refl

  -- The same where `_create` raises.
  get_or_create-refused :
      (provided : Option String) (e : Error) (b : B)
      → let candidate = candidate_of backend generated slot role provided in
        is_reference slot role ≡ true
        → is_provided backend generated slot role provided ≡ true
        → is_credential candidate role ≡ true
        → backend.read_value slot role b ≡ (ok none, b)
        → backend.allow_create b ≡ (ok tt, b)
        → backend.create_value slot role candidate b ≡ (err e, b)
        → get_or_create backend generated slot role provided false b ≡ (err e, b)
  unfolding get_or_create use_existing create observe_created
  get_or_create-refused provided e b valid given is absent allowed refused =
      rw (get_or_create, valid, given, absent, allowed, is, refused) refl

module _ (scope : CredentialScope) (namespace : String) (digest : String → String)
    (encode : String → String) (decode : String → Option String) {C : Type 0}
    (client : KubernetesClient C) (content : C → String → Option V1Secret) (owned : Namespace)
    (cluster : IsCluster namespace client content owned)
    (is_owned : check_namespace scope namespace digest encode decode (ok owned) ≡ ok tt)
    (guard : Option (C → Result (Unit {0}) × C)) where
  answer_of-none :
      (slot role key : String) (o : Option V1Secret)
      → read_result scope namespace digest encode decode slot role key (answer_of o) ≡ ok none
      → o ≡ none
  unfolding read_result
  answer_of-none slot role key none h = refl
  answer_of-none slot role key (some secret) h =
      let (value, _, e) =
        >>=-eq-ok (check_secret scope namespace digest encode decode slot role key secret)
          (λ v. ok (some v)) h in
      cc

  unfoldable pub key_of : String → String → String
  unfolding name
  key_of = name scope namespace digest encode decode client content owned cluster is_owned guard

  unfoldable pub kept_store : Backend C
  unfolding store
  kept_store =
      store scope namespace digest encode decode client content owned cluster is_owned guard

  -- The result of `_read` on the secret that `_create` has sent.
  read_own :
      (slot role value : String) (o : Option V1Secret)
      → o
        ≡ some (
            secret_of scope namespace digest encode decode
              (key_of slot role)
              value
              (all_labels scope slot role))
      → decode (encode value) ≡ some value
      → is_reference slot role ≡ true
      → is_credential value role ≡ true
      → read_result scope namespace digest encode decode slot role (key_of slot role) (answer_of o)
        ≡ ok (some value)
  unfolding read_result key_of name
  read_own slot role value o held back valid is =
      rw
        (
          held,
          read_result,
          check_secret-secret_of scope namespace digest encode decode slot role value back valid is,
        )
        refl

  get_or_create-free :
      (slot role generated : String) (provided : Option String) (c : C)
      → let candidate = candidate_of kept_store generated slot role provided in
        is_reference slot role ≡ true
        → is_provided kept_store generated slot role provided ≡ true
        → is_credential candidate role ≡ true
        → decode (encode candidate) ≡ some candidate
        → asked guard c ≡ (ok tt, c)
        → kept_store.read_value slot role c ≡ (ok none, c)
        → (c' : C) × (get_or_create kept_store generated slot role provided false c
            ≡ (ok candidate, c'))
          × (kept_store.read_value slot role c' ≡ (ok (some candidate), c'))
          × Others namespace client content (key_of slot role) c c'
  unfolding store kept_store key_of name
  get_or_create-free slot role generated provided c valid given is back allowed absent =
      let candidate = candidate_of kept_store generated slot role provided in
      let free : content c (key_of slot role) ≡ none =
        answer_of-none slot role (key_of slot role) (content c (key_of slot role)) (
          ap (λ (answer : Result (Option String) × C). answer.0)
            (sym (
                read_value-content scope namespace digest encode decode client content owned cluster
                  is_owned guard slot role c valid)
              ∙ absent)) in
      let (c', created, held, others) =
        create_value-free scope namespace digest encode decode client content owned cluster is_owned
          guard slot role candidate c valid allowed free in
      let found : kept_store.read_value slot role c' ≡ (ok (some candidate), c') =
        read_value-content scope namespace digest encode decode client content owned cluster
          is_owned guard slot role c' valid
        ∙ ap (λ r. (r, c'))
            (read_own slot role candidate (content c' (key_of slot role)) held back valid is) in
      (
        c',
        get_or_create-absent kept_store generated slot role provided c c' valid given is absent refl
            created found,
        found,
        others,
      )

  -- On a cluster that keeps its secrets and whose namespace is the deployment's, if base64 decodes
  -- what it encodes, `get_or_create` for a valid reference, with a valid generated value and provided
  -- value, and without a `singleton_guard` or with one that changes nothing, is the operation `put_if_absent` on the entry that `_read` shows: where a value
  -- is stored it is returned, or it is a conflict with the provided one; else it is the error that a
  -- stored value is required, or the guard's error, or the provided or the generated value is stored
  -- and returned. `_read` then shows the entry after it, and every other secret is what it was.
  pub get_or_create-Refines :
      (slot role generated : String) (provided stored : Option String) (require_existing : Bool)
      (guarded : Result (Unit {0})) (c : C)
      → ((text : String) → decode (encode text) ≡ some text)
      → is_reference slot role ≡ true
      → is_provided kept_store generated slot role provided ≡ true
      → is_credential generated role ≡ true
      → asked guard c ≡ (guarded, c)
      → kept_store.read_value slot role c ≡ (ok stored, c)
      → let (answer, after) = put_if_absent require_existing guarded stored provided generated in
        (c' : C) × (get_or_create kept_store generated slot role provided require_existing c
          ≡ (answer, c'))
        × (kept_store.read_value slot role c' ≡ (ok after, c'))
        × Others namespace client content (key_of slot role) c c'
  unfolding match is_provided candidate_of store kept_store
  get_or_create-Refines slot role generated none (some v) required guarded c back valid given is
        answers shown =
      (
        c,
        get_or_create-found kept_store generated slot role none required v c valid given shown,
        shown,
        (λ other _. refl),
      )
  get_or_create-Refines slot role generated (some w) (some v) required guarded c back valid given is
        answers shown =
      (
        c,
        get_or_create-found kept_store generated slot role (some w) required v c valid given shown,
        shown,
        (λ other _. refl),
      )
  get_or_create-Refines slot role generated provided none true guarded c back valid given is answers
        shown =
      (
        c,
        get_or_create-missing kept_store generated slot role provided c valid given shown,
        shown,
        (λ other _. refl),
      )
  get_or_create-Refines slot role generated none none false (ok _) c back valid given is answers
        shown =
      get_or_create-free slot role generated none c valid given is (back generated) answers shown
  get_or_create-Refines slot role generated (some w) none false (ok _) c back valid given is answers
        shown =
      get_or_create-free slot role generated (some w) c valid given given (back w) answers shown
  get_or_create-Refines slot role generated none none false (err e) c back valid given is answers
        shown =
      (
        c,
        get_or_create-refused kept_store generated slot role none e c valid given is shown refl (
            create_value-refused scope namespace digest encode decode client content owned cluster
              is_owned guard slot role generated e c valid answers),
        shown,
        (λ other _. refl),
      )
  get_or_create-Refines slot role generated (some w) none false (err e) c back valid given is
        answers shown =
      (
        c,
        get_or_create-refused kept_store generated slot role (some w) e c valid given given shown
            refl
            (create_value-refused scope namespace digest encode decode client content owned cluster
              is_owned guard slot role w e c valid answers),
        shown,
        (λ other _. refl),
      )
