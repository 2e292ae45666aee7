-- ===== src/CredentialStore/Quoted.antt =====
-- Texts without a quote, and what they are joined and quoted to.
use Prim.Native.Char.{Char, char, code}
use Prim.Native.String
use text.Mathlib.TextLemmas.{
  nil-append, cons-append, append_cancel_left, head-eq_of_cons-eq, tail-eq_of_cons-eq,
}
use radius_todolist_app.Prelude.{
  ℕ, String, ◌≡◌, refl, sym, ap, ◌∙◌, inl, inr, Bool, true, false, not, some, str_eq, eq_iff, ◌==◌,
  arith, Bool-cases, Option-cases,
}
use mathlib.Core.Bool.{true≢false}
use mathlib.Core.Option.{some-injective}
use radius_todolist_app.Text.{all_chars, ends_alnum, is_framed, is_lower, rpartition, concat}
use radius_todolist_app.CredentialStore.Scope.{quoted}

unfoldable pub is_plain : Char → Bool
is_plain c = not (code c == b'"')

plain-head :
    (c : Char) (s : String)
    → all_chars is_plain (String.◌∷◌ c s) ≡ true
    → ◌≡◌ {A = Char} (char 34 tt) c
    → ⊥
unfolding all_chars is_plain
plain-head c s h e = true≢false (sym h ∙ ap (λ d. all_chars is_plain (String.◌∷◌ d s)) (sym e))

-- A text in quotes ends at the first quote.
quoted-injective :
    (a b x y : String)
    → all_chars is_plain a ≡ true
    → all_chars is_plain b ≡ true
    → String.◌++◌ a (String.◌∷◌ (char 34 tt) x) ≡ String.◌++◌ b (String.◌∷◌ (char 34 tt) y)
    → (a ≡ b) × (x ≡ y)
unfolding all_chars is_plain
quoted-injective String.[] String.[] x y ha hb h =
    (refl, tail-eq_of_cons-eq (sym (nil-append _) ∙ h ∙ nil-append _))
quoted-injective String.[] (String.◌∷◌ d b) x y ha hb h =
    let e : ◌≡◌ {A = Char} (char 34 tt) d =
      head-eq_of_cons-eq (sym (nil-append _) ∙ h ∙ cons-append d b _) in
    absurd (plain-head d b hb e)
quoted-injective (String.◌∷◌ c a) String.[] x y ha hb h =
    let e : ◌≡◌ {A = Char} c (char 34 tt) =
      head-eq_of_cons-eq (sym (cons-append c a _) ∙ h ∙ nil-append _) in
    absurd (plain-head c a ha (sym e))
quoted-injective (String.◌∷◌ c a) (String.◌∷◌ d b) x y ha hb h =
    let e : String.◌∷◌ c (String.◌++◌ a (String.◌∷◌ (char 34 tt) x))
        ≡ String.◌∷◌ d (String.◌++◌ b (String.◌∷◌ (char 34 tt) y)) =
      sym (cons-append c a _) ∙ h ∙ cons-append d b _ in
    let (same, rest) =
      quoted-injective a b x y (ground (arith, ha)) (ground (arith, hb)) (tail-eq_of_cons-eq e) in
    (rw (head-eq_of_cons-eq e, same) refl, rest)

unfoldable pub IsPlain : String → Type 0
IsPlain s = all_chars is_plain s ≡ true

quote-cons : (x : String) → concat "\"" x ≡ String.◌∷◌ (char 34 tt) x
unfolding concat
quote-cons x = cons-append (char 34 tt) "" x ∙ ap (String.◌∷◌ (char 34 tt)) (nil-append x)

pub quoted-eq :
    (a b x y : String) → IsPlain a → IsPlain b → quoted a x ≡ quoted b y → (a ≡ b) × (x ≡ y)
unfolding quoted IsPlain
quoted-eq a b x y ha hb h =
    let inner : concat a (concat "\"" x) ≡ concat b (concat "\"" y) =
      unfold concat in append_cancel_left "\"" _ _ h in
    quoted-injective a b x y ha hb (unfold concat in rw (← quote-cons x, ← quote-cons y) inner)

ends_alnum-IsPlain : (x : ℕ) (s : String) → (x == b'"') ≡ false → ends_alnum x s ≡ true → IsPlain s
unfolding ends_alnum all_chars is_plain IsPlain
ends_alnum-IsPlain x String.[] n h = refl
ends_alnum-IsPlain x (String.◌∷◌ c String.[]) n h = ground arith
ends_alnum-IsPlain x (String.◌∷◌ c (String.◌∷◌ d s)) n h =
    ground (arith, ends_alnum-IsPlain x (String.◌∷◌ d s) n)

pub is_framed-IsPlain :
    (x most : ℕ) (s : String) → (x == b'"') ≡ false → is_framed is_lower x most s ≡ true → IsPlain s
unfolding is_framed all_chars is_plain IsPlain
is_framed-IsPlain x most String.[] n h = refl
is_framed-IsPlain x most (String.◌∷◌ c String.[]) n h = ground arith
is_framed-IsPlain x most (String.◌∷◌ c (String.◌∷◌ d s)) n h =
    ground (arith, ends_alnum-IsPlain x (String.◌∷◌ d s) n)

pub rpartition-IsPlain :
    (s a b : String) → rpartition s ≡ some (a, b) → IsPlain a → IsPlain b → IsPlain s
unfolding rpartition all_chars is_plain IsPlain
rpartition-IsPlain String.[] a b h ha hb = refl
rpartition-IsPlain (String.◌∷◌ c s) a b h ha hb = elim (Option-cases (rpartition s)) [
  | inl e ↦ elim (Bool-cases (code c == b'-')) [
    | inr f ↦ cc (rw (rpartition, e, f) at h)
    | inl t ↦
        let same : ◌≡◌ {A = String × String} ("", s) (a, b) =
          some-injective ("", s) (a, b) (rw (rpartition, e, t) at h) in
        let tail : all_chars is_plain s ≡ true =
          rw (← ap (λ (q : String × String). q.1) same) at hb in
        ground (arith, t, tail)
  ]
  | inr ((a', b'), e) ↦
      let same : ◌≡◌ {A = String × String} (String.◌∷◌ c a', b') (a, b) =
        some-injective (String.◌∷◌ c a', b') (a, b) (rw (rpartition, e) at h) in
      let head : all_chars is_plain (String.◌∷◌ c a') ≡ true =
        rw (← ap (λ (q : String × String). q.0) same) at ha in
      let tail : all_chars is_plain b' ≡ true =
        rw (← ap (λ (q : String × String). q.1) same) at hb in
      ground (arith, head, rpartition-IsPlain s a' b' e (ground (arith, head)) tail)
]

pub literal-IsPlain :
    (literal s : String) → IsPlain literal → str_eq s literal ≡ true → all_chars is_plain s ≡ true
unfolding IsPlain
literal-IsPlain literal s h e = rw ((eq_iff s literal).0 e) h
