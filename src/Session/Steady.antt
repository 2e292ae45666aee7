-- ===== src/Session/Steady.antt =====
-- What a failing connection can do to a block of statements.
use radius_todolist_app.Prelude.{
  ◌≡◌, refl, sym, ◌⊎◌, inl, inr, Bool, true, false, [], arith, if◌then◌else◌,
}
use radius_todolist_app.Error.{Error, Result, ok, err}
use radius_todolist_app.Session.{
  Session, quiet, connection_failed, Exec, pure, raise, execute, ◌>>=◌, continue, finish,
  transaction,
}

quiet_eta : {D : Type 0} (s : Session D) (d : D) → s.fates ≡ [] → s.db ≡ d → s ≡ quiet d
quiet_eta s d h e = λ i. record { db = e i; fates = h i }

module _ {D : Type 0} {A : Type 0} where
  abbrev pub run : Exec D A → D → Result A × D
  run m d = let (r, s) = m (quiet d) in (r, s.db)

  -- On any session `m` reports a failed connection, or does what it does on a quiet one.
  pub record Steady (m : Exec D A) : Type 0 where
    pub stays_quiet : (d : D) → (m (quiet d)).1.fates ≡ []
    pub at :
        (s : Session D)
        → ((m s).0 ≡ connection_failed)
          ⊎ (((m s).0 ≡ (m (quiet s.db)).0) × ((m s).1.db ≡ (m (quiet s.db)).1.db))

  -- Besides, a failed connection leaves the tables as they were or as a quiet run leaves them.
  pub record Atomic (m : Exec D A) : Type 0 where
    pub steady : Steady m
    pub all_or_nothing : (s : Session D) → ((m s).1.db ≡ s.db) ⊎ ((m s).1.db ≡ (run m s.db).1)

  pub Steady-pure : (a : A) → Steady (pure a)
  Steady-pure a = record { stays_quiet = λ d. refl; at = λ s. inr (refl, refl) }

  pub Steady-raise : (e : Error) → Steady (raise e)
  Steady-raise e = record { stays_quiet = λ d. refl; at = λ s. inr (refl, refl) }

  pub Steady-execute : (f : D → Result A × D) → Steady (execute f)
  unfolding execute
  Steady-execute f = record { stays_quiet = λ d. refl; at = λ s. ground arith }

  -- A statement that reads leaves the tables alone, whatever becomes of it.
  pub execute_reads :
      (f : D → Result A × D) (s : Session D) → ((d : D) → (f d).1 ≡ d) → (execute f s).1.db ≡ s.db
  unfolding execute
  execute_reads f s h = ground (arith, h s.db)

  pub Steady-if : (b : Bool) (m n : Exec D A) → Steady m → Steady n → Steady (if b then m else n)
  Steady-if true m n hm hn = hm
  Steady-if false m n hm hn = hn

module _ {D : Type 0} {A B : Type 0} (f : A → Exec D B) (hf : (a : A) → Steady (f a)) where
  continue_quiet : (r : Result A) (s : Session D) → s.fates ≡ [] → (continue r f s).1.fates ≡ []
  continue_quiet (ok a) s e = rw (quiet_eta s s.db e refl) ((hf a).stays_quiet s.db)
  continue_quiet (err x) s e = e

  continue_at :
      (r q : Result A) (s t : Session D)
      → t.fates ≡ []
      → (r ≡ connection_failed) ⊎ ((r ≡ q) × (s.db ≡ t.db))
      → ((continue r f s).0 ≡ connection_failed)
        ⊎ (((continue r f s).0 ≡ (continue q f t).0)
            × ((continue r f s).1.db ≡ (continue q f t).1.db))
  continue_at r q s t e (inl h) = inl (rw h)
  continue_at (ok a) q s t e (inr (p, d)) = rw (← p, quiet_eta t s.db e (sym d)) ((hf a).at s)
  continue_at (err x) q s t e (inr (p, d)) = rw (← p) (inr (refl, d))

module _ {D : Type 0} {A B : Type 0} where
  pub Steady-bind :
      (m : Exec D A) (f : A → Exec D B) → Steady m → ((a : A) → Steady (f a)) → Steady (m >>= f)
  unfolding ◌>>=◌
  Steady-bind m f hm hf = record {
    stays_quiet = λ d. continue_quiet f hf (m (quiet d)).0 (m (quiet d)).1 (hm.stays_quiet d);
    at = λ s.
        continue_at f hf (m s).0 (m (quiet s.db)).0 (m s).1 (m (quiet s.db)).1 (hm.stays_quiet s.db)
          (hm.at s);
  }

module _ {D : Type 0} {A : Type 0} where
  finish_quiet : (r : Result A) (d : D) (s : Session D) → s.fates ≡ [] → (finish r d s).1.fates ≡ []
  unfolding finish execute
  finish_quiet (ok a) d s e = rw (quiet_eta s s.db e refl)
  finish_quiet (err x) d s e = e

  finish_at :
      (r q : Result A) (d : D) (s t : Session D)
      → t.fates ≡ []
      → (r ≡ connection_failed) ⊎ ((r ≡ q) × (s.db ≡ t.db))
      → ((finish r d s).0 ≡ connection_failed)
        ⊎ (((finish r d s).0 ≡ (finish q d t).0) × ((finish r d s).1.db ≡ (finish q d t).1.db))
  unfolding finish execute
  finish_at r q d s t e (inl h) = inl (rw h)
  finish_at (ok a) q d s t e (inr (p, h)) = rw (← p, quiet_eta t s.db e (sym h)) (ground arith)
  finish_at (err x) q d s t e (inr (p, h)) = rw (← p) (inr (refl, refl))

  finish_all :
      (r q : Result A) (d : D) (s t : Session D)
      → t.fates ≡ []
      → (r ≡ connection_failed) ⊎ ((r ≡ q) × (s.db ≡ t.db))
      → ((finish r d s).1.db ≡ d) ⊎ ((finish r d s).1.db ≡ (finish q d t).1.db)
  unfolding finish execute
  finish_all r q d s t e (inl h) = inl (rw h)
  finish_all (ok a) q d s t e (inr (p, h)) = rw (← p, quiet_eta t s.db e (sym h)) (ground arith)
  finish_all (err x) q d s t e (inr (p, h)) = inl refl

  finish_either :
      (r : Result A) (d d' : D)
      → ((finish r d (quiet d')).1.db ≡ d) ⊎ ((finish r d (quiet d')).1.db ≡ d')
  unfolding finish execute
  finish_either (ok a) d d' = inr refl
  finish_either (err e) d d' = inl refl

  -- A transaction of one statement on a quiet session.
  pub transaction-execute :
      (f : D → Result A × D) (d : D)
      → ((transaction (execute f) (quiet d)).1.db ≡ d)
        ⊎ ((transaction (execute f) (quiet d)).1.db ≡ (f d).1)
  unfolding transaction execute
  transaction-execute f d = finish_either (f d).0 d (f d).1

  -- A transaction whose block is steady is atomic.
  pub Atomic-transaction : (m : Exec D A) → Steady m → Atomic (transaction m)
  unfolding transaction
  Atomic-transaction m hm = record {
    steady = record {
      stays_quiet = λ d. finish_quiet (m (quiet d)).0 d (m (quiet d)).1 (hm.stays_quiet d);
      at = λ s.
          finish_at (m s).0 (m (quiet s.db)).0 s.db (m s).1 (m (quiet s.db)).1 (hm.stays_quiet s.db)
            (hm.at s);
    };
    all_or_nothing = λ s.
        finish_all (m s).0 (m (quiet s.db)).0 s.db (m s).1 (m (quiet s.db)).1 (hm.stays_quiet s.db)
          (hm.at s);
  }

module _ {D : Type 0} {A : Type 0} where
  pub Atomic-raise : (e : Error) → Atomic {D = D} {A = A} (raise e)
  Atomic-raise e = record { steady = Steady-raise e; all_or_nothing = λ s. inl refl }

  pub Atomic-if : (b : Bool) (m n : Exec D A) → Atomic m → Atomic n → Atomic (if b then m else n)
  Atomic-if true m n hm hn = hm
  Atomic-if false m n hm hn = hn

pub ruleset steady_rules = (
  Steady-pure, Steady-raise, Steady-execute, Steady-if, Steady-bind, Atomic-raise, Atomic-if,
  Atomic-transaction,
)
