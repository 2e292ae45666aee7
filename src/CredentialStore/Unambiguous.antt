-- ===== src/CredentialStore/Unambiguous.antt =====
-- The text that a secret's name hashes.

use text.Mathlib.TextLemmas.{append_cancel_left}
use radius_todolist_app.Prelude.{
  String, ◌≡◌, refl, inl, inr, true, not, ◌&&◌, ◌||◌, [], ◌∷◌, str_eq, arith, Bool-cases,
  Option-cases,
}
use radius_todolist_app.Text.{all_chars, is_framed, is_lower, rpartition, concat, is_one_of}
use radius_todolist_app.CredentialStore.{is_reference, is_name, is_reporting_role, is_plane_role}
use radius_todolist_app.CredentialStore.Scope.{
  CredentialScope, identity_text, scope_of, is_identifier,
}
use radius_todolist_app.Error.{ok, store, raise_if, raise_if-eq-ok, >>-eq-ok}
use radius_todolist_app.CredentialStore.Quoted.{
  is_plain, IsPlain, quoted-eq, is_framed-IsPlain, rpartition-IsPlain, literal-IsPlain,
}

is_plane_role-plane : (plane role : String) → is_plane_role plane role ≡ true → IsPlain plane
unfolding is_plane_role IsPlain all_chars is_plain
is_plane_role-plane plane role h =
    ground (arith, literal-IsPlain "data" plane refl, literal-IsPlain "control" plane refl)

is_plane_role-role : (plane role : String) → is_plane_role plane role ≡ true → IsPlain role
unfolding is_plane_role IsPlain all_chars is_plain
is_plane_role-role plane role h = ground (
  arith,
  literal-IsPlain "demoKey" role refl,
  literal-IsPlain "cp_api" role refl,
  literal-IsPlain "cp_reconciler" role refl,
  literal-IsPlain "dp_reconciler" role refl,
)

is_reporting_role-IsPlain : (role : String) → is_reporting_role role ≡ true → IsPlain role
unfolding is_reporting_role IsPlain all_chars is_plain is_name
is_reporting_role-IsPlain (String.◌∷◌ c (String.◌∷◌ p (String.◌∷◌ u s))) h =
    ground (arith, is_framed-IsPlain b'_' 30 s refl)
is_reporting_role-IsPlain String.[] h = cc
is_reporting_role-IsPlain (String.◌∷◌ c String.[]) h = cc
is_reporting_role-IsPlain (String.◌∷◌ c (String.◌∷◌ p String.[])) h = cc

is_reference-IsPlain :
    (slot role : String) → is_reference slot role ≡ true → IsPlain slot × IsPlain role
unfolding is_reference IsPlain all_chars is_plain is_name
is_reference-IsPlain slot role h = elim (Bool-cases (str_eq slot "management")) [
  | inl t ↦ (
    literal-IsPlain "management" slot refl t,
    ground (
      arith,
      literal-IsPlain "demoKey" role refl,
      literal-IsPlain "mgmt_api" role refl,
      literal-IsPlain "mgmt_provisioner" role refl,
      literal-IsPlain "management_admin" role refl,
      is_reporting_role-IsPlain role,
      rw (is_reference, t) at h,
    ),
  )
  | inr f ↦ elim (Option-cases (rpartition slot)) [
    | inl e ↦ cc (rw (is_reference, f, e) at h)
    | inr ((pair, plane), e) ↦
        let both : (is_framed is_lower b'-' 30 pair && is_plane_role plane role) ≡ true =
          rw (is_reference, f, e) at h in
        let planned : is_plane_role plane role ≡ true = ground (arith, both) in
        (
          rpartition-IsPlain slot pair plane e
              (is_framed-IsPlain b'-' 30 pair refl (ground (arith, both)))
              (is_plane_role-plane plane role planned),
          is_plane_role-role plane role planned,
        )
  ]
]

scope_of-IsPlain :
    (s : CredentialScope)
    → scope_of s ≡ ok s
    → IsPlain s.project × IsPlain s.deployment × IsPlain s.environment
unfolding scope_of is_identifier is_one_of IsPlain all_chars is_plain
scope_of-IsPlain s h =
    let (checked, _) =
      >>-eq-ok
        (raise_if
          (not (is_one_of s.environment ("azure" ∷ "local" ∷ []))
            || not (is_framed is_lower b'-' 46 s.project)
            || not (is_framed is_lower b'-' 46 s.deployment))
          (store "invalid_credential_scope"))
        (ok s) h in
    let fine = raise_if-eq-ok _ _ checked in
    (
      is_framed-IsPlain b'-' 46 s.project refl (ground (arith, fine)),
      is_framed-IsPlain b'-' 46 s.deployment refl (ground (arith, fine)),
      ground (
        arith,
        fine,
        literal-IsPlain "azure" s.environment refl,
        literal-IsPlain "local" s.environment refl,
      ),
    )

bracket : (x y : String) → concat "[" x ≡ concat "[" y → x ≡ y
unfolding concat
bracket x y h = append_cancel_left "[" x y h

comma : (x y : String) → concat "," x ≡ concat "," y → x ≡ y
unfolding concat
comma x y h = append_cancel_left "," x y h

-- The text that the name of a credential's secret hashes is not ambiguous: for valid scopes and
-- references, two credentials with one text have the same project, deployment and environment, slot
-- and role.
pub identity_text-injective :
    (s s' : CredentialScope) (slot role slot' role' : String)
    → scope_of s ≡ ok s
    → scope_of s' ≡ ok s'
    → is_reference slot role ≡ true
    → is_reference slot' role' ≡ true
    → identity_text s slot role ≡ identity_text s' slot' role'
    → (s.project ≡ s'.project)
      × (s.deployment ≡ s'.deployment)
      × (s.environment ≡ s'.environment)
      × (slot ≡ slot')
      × (role ≡ role')
unfolding identity_text
identity_text-injective s s' slot role slot' role' hs hs' r r' h =
    let (ps, ds, es) = scope_of-IsPlain s hs in
    let (ps', ds', es') = scope_of-IsPlain s' hs' in
    let (ls, rs) = is_reference-IsPlain slot role r in
    let (ls', rs') = is_reference-IsPlain slot' role' r' in
    let (project, h1) = quoted-eq s.project s'.project _ _ ps ps' (bracket _ _ h) in
    let (deployment, h2) = quoted-eq s.deployment s'.deployment _ _ ds ds' (comma _ _ h1) in
    let (environment, h3) = quoted-eq s.environment s'.environment _ _ es es' (comma _ _ h2) in
    let (same_slot, h4) = quoted-eq slot slot' _ _ ls ls' (comma _ _ h3) in
    let (same_role, _) = quoted-eq role role' "]" "]" rs rs' (comma _ _ h4) in
    (project, deployment, environment, same_slot, same_role)
