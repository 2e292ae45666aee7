-- ===== src/Paging.antt =====
-- `page` of src/plane_demo/shared/db.py, and the queries for one page of events in
-- src/plane_demo/management/api.py and src/plane_demo/control/api.py. The two tables of events have
-- columns of their own; a page reads `event_id` alone.
pub mod Walk
use radius_todolist_app.Prelude.{
  ℕ, ◌+◌, Bool, true, false, Option, none, some, List, [], ◌∷◌, ltb, leb, if◌then◌else◌, length,
  take, select,
}
use radius_todolist_app.Error.{Error, Result, ok, err, other}

module _ {E : Type 0} (event_id : E → ℕ) where
  -- selected[-1]["event_id"]; of an empty list it is an IndexError
  last_id : List E → Result ℕ
  last_id [] = err other
  last_id (e ∷ []) = ok (event_id e)
  last_id (e ∷ f ∷ es) = last_id (f ∷ es)

  with_next : List E → Result ℕ → Result (List E × Option ℕ)
  with_next selected (ok id) = ok (selected, some id)
  with_next selected (err e) = err e

  -- `page`
  unfoldable pub page : List E → ℕ → Result (List E × Option ℕ)
  unfolding last_id with_next
  page rows limit =
      if ltb limit (length rows)
      then with_next (take limit rows) (last_id (take limit rows))
      else ok (take limit rows, none)

  insert_by_id : E → List E → List E
  insert_by_id e [] = e ∷ []
  insert_by_id e (f ∷ fs) =
      let rest = insert_by_id e fs in if leb (event_id e) (event_id f) then e ∷ f ∷ fs else f ∷ rest

  -- `ORDER BY event_id`
  unfoldable pub order_by_id : List E → List E
  unfolding insert_by_id
  order_by_id [] = []
  order_by_id (e ∷ es) = insert_by_id e (order_by_id es)

  -- `WHERE event_id > after ORDER BY event_id LIMIT limit + 1`, cut to a page
  unfoldable pub timeline : List E → ℕ → ℕ → Result (List E × Option ℕ)
  unfolding page order_by_id
  timeline es after limit =
      page (take (limit + 1) (order_by_id (select (λ e. ltb after (event_id e)) es))) limit
