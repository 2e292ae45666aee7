-- ===== src/Session.antt =====
-- A psycopg connection: the tables behind it, and what becomes of each round trip to the server.
-- The server and the network are no code of the repository, so a session carries the fate of its
-- next round trips as a list; a theorem for every list holds for every failure of the connection.
-- `transaction` is `connection.transaction()` of src/plane_demo/shared/db.py: an exception in the
-- block rolls the tables back, and the answer to COMMIT can be lost like any other.
pub mod Steady
pub mod Single
use radius_todolist_app.Prelude.{Option, none, List, [], ◌∷◌}
use radius_todolist_app.Error.{Error, Result, ok, err, database}

-- `refused`: the server did not get the statement; `lost`: it ran, and the answer did not arrive.
pub data Fate : Type 0 where
  delivered refused lost : Fate

pub record Session (D : Type 0) : Type 0 where
  pub db : D
  pub fates : List Fate

-- A session on which every round trip is delivered.
abbrev pub quiet : {D : Type 0} → D → Session D
quiet d = record { db = d; fates = [] }

abbrev pub connection_failed : {A : Type 0} → Result A
connection_failed = err (database none)

abbrev pub Exec : Type 0 → Type 0 → Type 0
Exec D A = Session D → Result A × Session D

module _ {D : Type 0} {A : Type 0} where
  abbrev pub pure : A → Exec D A
  pure a s = (ok a, s)

  abbrev pub raise : Error → Exec D A
  raise e s = (err e, s)

  round_trip : List Fate → (D → Result A × D) → D → Result A × Session D
  round_trip [] f d = let (r, d') = f d in (r, quiet d')
  round_trip (delivered ∷ fates) f d = let (r, d') = f d in (r, record { db = d'; fates = fates })
  round_trip (refused ∷ fates) f d = (connection_failed, record { db = d; fates = fates })
  round_trip (lost ∷ fates) f d =
      let (r, d') = f d in (connection_failed, record { db = d'; fates = fates })

  -- `connection.execute(...)`, with the statement's meaning as a function on the tables.
  unfoldable pub execute : (D → Result A × D) → Exec D A
  unfolding round_trip
  execute f s = round_trip s.fates f s.db

module _ {D : Type 0} {A B : Type 0} where
  abbrev pub continue : Result A → (A → Exec D B) → Exec D B
  continue (ok a) f s = f a s
  continue (err e) f s = (err e, s)

  infixl 10 ◌>>=◌ ◌>>◌
  unfoldable pub ◌>>=◌ : Exec D A → (A → Exec D B) → Exec D B
  ◌>>=◌ m f s = let (r, s') = m s in continue r f s'

  abbrev pub ◌>>◌ : Exec D A → Exec D B → Exec D B
  m >> n = m >>= λ _. n

module _ {D : Type 0} {A : Type 0} where
  -- COMMIT as a round trip: if the server did not get it, the tables stay as they were.
  commit : A → D → Exec D A
  unfolding execute
  commit a before s = execute (λ _. (ok a, s.db)) (record s { db = before })

  finish : Result A → D → Exec D A
  unfolding commit
  finish (ok a) before s = commit a before s
  finish (err e) before s = (err e, record s { db = before })

  unfoldable pub transaction : Exec D A → Exec D A
  unfolding finish
  transaction m s = let (r, s') = m s in finish r s.db s'
