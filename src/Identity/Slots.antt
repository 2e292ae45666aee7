-- ===== src/Identity/Slots.antt =====
-- What the names of isolated environments and the slots of the planes satisfy.

use radius_todolist_app.Prelude.{
  String, ◌≡◌, refl, sym, inl, inr, true, false, some, [], ◌∷◌, eq_refl, arith, Bool-cases,
}
use radius_todolist_app.Error.{ok, ok-injective}
use radius_todolist_app.Text.{concat, rpartition, remove_prefix, is_one_of}
use radius_todolist_app.Text.Lemmas.{remove_prefix-concat, rpartition-concat, strip_prefix-concat}
use radius_todolist_app.Identity.{
  isolated_pair, is_isolated_name, is_pair, azure_slot, starts_isolated,
}

isolated_pair_short :
    (name pair : String)
    → isolated_pair name ≡ ok pair
    → (short : String) × (pair ≡ concat "isolated-" short)
      × (is_isolated_name short ≡ true)
      × (is_one_of short ("shared" ∷ "management" ∷ []) ≡ false)
unfolding isolated_pair
isolated_pair_short name pair h =
    let short = remove_prefix "isolated-" name in
    elim (Bool-cases (is_isolated_name short)) [
      | inr f ↦ ground arith
      | inl t ↦ elim (Bool-cases (is_one_of short ("shared" ∷ "management" ∷ []))) [
        | inl u ↦ ground arith
        | inr u ↦ (short, sym (ok-injective (concat "isolated-" short) pair (rw (t, u) at h)), t, u)
      ]
    ]

isolated_pair-concat :
    (short : String)
    → is_isolated_name short ≡ true
    → is_one_of short ("shared" ∷ "management" ∷ []) ≡ false
    → isolated_pair (concat "isolated-" short) ≡ ok (concat "isolated-" short)
unfolding isolated_pair
isolated_pair-concat short t u =
    rw (isolated_pair, remove_prefix-concat "isolated-" short, t, u) refl

is_pair-concat :
    (short : String)
    → is_isolated_name short ≡ true
    → is_one_of short ("shared" ∷ "management" ∷ []) ≡ false
    → is_pair (concat "isolated-" short) ≡ true
unfolding is_pair
is_pair-concat short t u =
    rw (is_pair, isolated_pair-concat short t u) (eq_refl (concat "isolated-" short))

azure_slot-concat :
    (short slot role : String)
    → is_isolated_name short ≡ true
    → is_one_of short ("shared" ∷ "management" ∷ []) ≡ false
    → rpartition slot ≡ some (concat "isolated-" short, role)
    → is_one_of role ("control" ∷ "data" ∷ []) ≡ true
    → azure_slot slot ≡ true
unfolding azure_slot starts_isolated
azure_slot-concat short slot role t u e r =
    rw
      (
        azure_slot,
        starts_isolated,
        e,
        r,
        strip_prefix-concat "isolated-" short,
        is_pair-concat short t u,
      )
      (ground arith)

-- Every name that `isolated_pair` returns is a fixed point of it, and gives the two slots of a
-- pair: with "-control" and with "-data" it is a slot that `azure_slot` accepts.
pub isolated_pair-Slots :
    (name pair : String)
    → isolated_pair name ≡ ok pair
    → (isolated_pair pair ≡ ok pair)
      × (azure_slot (concat pair "-control") ≡ true)
      × (azure_slot (concat pair "-data") ≡ true)
unfolding is_one_of rpartition
isolated_pair-Slots name pair h =
    let (short, e, t, u) = isolated_pair_short name pair h in
    rw e (
      isolated_pair-concat short t u,
      azure_slot-concat short (concat (concat "isolated-" short) "-control") "control" t u
          (rpartition-concat (concat "isolated-" short) "control" refl) refl,
      azure_slot-concat short (concat (concat "isolated-" short) "-data") "data" t u
          (rpartition-concat (concat "isolated-" short) "data" refl) refl,
    )
