-- ===== src/Provisioning/Effects.antt =====
-- A call that uses a provider and reports to its caller: each has a state, and either may raise.
use radius_todolist_app.Error.{Error, Result, ok, err}

pub record World (P S : Type 0) : Type 0 where
  pub provider : P
  pub caller : S

abbrev pub Program : Type 0 → Type 0 → Type 0 → Type 0
Program P S A = World P S → Result A × World P S

module _ {P S A : Type 0} where
  abbrev pub pure : A → Program P S A
  pure a w = (ok a, w)

  abbrev pub raise : Error → Program P S A
  raise e w = (err e, w)

  -- A call of the provider's.
  unfoldable pub ask : (P → Result A × P) → Program P S A
  ask f w = let (r, p) = f w.provider in (r, record w { provider = p })

  -- A call of the caller's.
  unfoldable pub tell : (S → Result A × S) → Program P S A
  tell f w = let (r, s) = f w.caller in (r, record w { caller = s })

module _ {P S A B : Type 0} where
  abbrev pub continue : Result A → (A → Program P S B) → Program P S B
  continue (ok a) f w = f a w
  continue (err e) f w = (err e, w)

  infixl 10 ◌>>=◌ ◌>>◌
  unfoldable pub ◌>>=◌ : Program P S A → (A → Program P S B) → Program P S B
  ◌>>=◌ m f w = let (r, w') = m w in continue r f w'

  abbrev pub ◌>>◌ : Program P S A → Program P S B → Program P S B
  m >> n = m >>= λ _. n
