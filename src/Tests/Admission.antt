-- ===== src/Tests/Admission.antt =====
-- A tenant that asks for an isolated pair, and the provisioner that claims the waiting operation.
use radius_todolist_app.Prelude.{refl, true, [], ◌∷◌, Bool, String, eq_iff, arith}
use radius_todolist_app.Session.{delivered}
use radius_todolist_app.Tables.{Db, pending}
use radius_todolist_app.Operations.Lifecycle.{claim_next, perform}
use radius_todolist_app.Admission.{accept_prepared, create_tenant}
use radius_todolist_app.Admission.Consistency.{IsConsistent}
use radius_todolist_app.Admission.Reachable.{
  Reach, here, next, calls, creates_prepared, Reach-IsConsistent,
}
use radius_todolist_app.Admission.Replies.{Replies}
use radius_todolist_app.Tests.Examples.{
  tables, session, tenant_request, generated, pending-IsConsistent,
}

abbrev collate : String → String → Bool
collate a b = true

abbrev admitted : Db
admitted =
    (create_tenant (accept_prepared collate tenant_request generated) tenant_request
      (session pending [])).1.db

abbrev claimed : Db
claimed = (perform claim_next (record { db = admitted; fates = delivered ∷ [] })).db

Reach-claimed : Reach (tables pending) claimed
Reach-claimed =
    next (delivered ∷ [])
      (next [] here (
        creates_prepared collate tenant_request generated
          ((λ e. ground (arith, eq_iff "a-1" "a-2")), tt) refl))
      (calls claim_next refl)

Reach-IsConsistent_example : IsConsistent claimed
Reach-IsConsistent_example = Reach-IsConsistent pending-IsConsistent Reach-claimed
