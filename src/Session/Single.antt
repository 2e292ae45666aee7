-- ===== src/Session/Single.antt =====
-- A transaction of one statement, on any session.
use radius_todolist_app.Prelude.{◌≡◌, ◌⊎◌, inl, inr, sym, ◌∙◌, arith}
use radius_todolist_app.Error.{Result, ok}
use radius_todolist_app.Session.{Session, execute, transaction}
use radius_todolist_app.Session.Steady.{
  run, Steady-execute, Atomic-transaction, transaction-execute,
}

module _ {D A : Type 0} (f : D → Result A × D) where
  -- The tables stay, or the statement has run on them.
  pub single_tables :
      (s : Session D)
      → ((transaction (execute f) s).1.db ≡ s.db) ⊎ ((transaction (execute f) s).1.db ≡ (f s.db).1)
  single_tables s = elim ((Atomic-transaction (execute f) (Steady-execute f)).all_or_nothing s) [
    | inl same ↦ inl same
    | inr same ↦ elim (transaction-execute f s.db) [
      | inl rolled_back ↦ inl (same ∙ rolled_back)
      | inr done ↦ inr (same ∙ done)
    ]
  ]

  quiet_ok :
      (d : D) (a : A)
      → (run (transaction (execute f)) d).0 ≡ ok a
      → ((f d).0 ≡ ok a) × ((run (transaction (execute f)) d).1 ≡ (f d).1)
  unfolding transaction execute
  quiet_ok d a h = ground arith

  -- A result means that the statement has run and given it, and that its tables are committed.
  pub single_ok :
      (s : Session D) (a : A)
      → (transaction (execute f) s).0 ≡ ok a
      → ((f s.db).0 ≡ ok a) × ((transaction (execute f) s).1.db ≡ (f s.db).1)
  single_ok s a h = elim ((Atomic-transaction (execute f) (Steady-execute f)).steady.at s) [
    | inl lost ↦ ground arith
    | inr (same_result, same_tables) ↦
        let (done, tables) = quiet_ok s.db a (sym same_result ∙ h) in (done, same_tables ∙ tables)
  ]
