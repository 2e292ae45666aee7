-- ===== src/Provisioning/Keeps.antt =====
-- What every report to the caller keeps, a program keeps.
use radius_todolist_app.Prelude.{Bool, true, false, if◌then◌else◌}
use radius_todolist_app.Error.{Error, Result, ok, err}
use radius_todolist_app.Provisioning.Effects.{
  Program, World, pure, raise, ask, tell, continue, ◌>>=◌,
}

pub record Keeps {P S A : Type 0} (K : S → Type 0) (m : Program P S A) : Type 0 where
  pub at : (w : World P S) → K w.caller → K (m w).1.caller

module _ {P S A : Type 0} (K : S → Type 0) where
  pub Keeps-pure : (a : A) → Keeps {P = P} K (pure a)
  Keeps-pure a = record { at = λ w h. h }

  pub Keeps-raise : (e : Error) → Keeps {P = P} K (raise {A = A} e)
  Keeps-raise e = record { at = λ w h. h }

  pub Keeps-ask : (f : P → Result A × P) → Keeps K (ask f)
  unfolding ask
  Keeps-ask f = record { at = λ w h. h }

  pub Keeps-tell : (f : S → Result A × S) → ((s : S) → K s → K (f s).1) → Keeps {P = P} K (tell f)
  unfolding tell
  Keeps-tell f h = record { at = λ w k. h w.caller k }

  pub Keeps-if :
      (b : Bool) (m n : Program P S A) → Keeps K m → Keeps K n → Keeps K (if b then m else n)
  Keeps-if true m n hm hn = hm
  Keeps-if false m n hm hn = hn

module _ {P S A B : Type 0} (K : S → Type 0) where
  Keeps-continue :
      (r : Result A) (f : A → Program P S B) (w : World P S)
      → ((a : A) → Keeps K (f a))
      → K w.caller
      → K (continue r f w).1.caller
  Keeps-continue (ok a) f w hf h = (hf a).at w h
  Keeps-continue (err e) f w hf h = h

  pub Keeps-bind :
      (m : Program P S A) (f : A → Program P S B)
      → Keeps K m
      → ((a : A) → Keeps K (f a))
      → Keeps K (m >>= f)
  unfolding ◌>>=◌
  Keeps-bind m f hm hf = record { at = λ w h. Keeps-continue (m w).0 f (m w).1 hf (hm.at w h) }

pub ruleset keeps_rules = (Keeps-pure, Keeps-raise, Keeps-ask, Keeps-tell, Keeps-if, Keeps-bind)
