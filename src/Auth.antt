-- ===== src/Auth.antt =====
-- src/plane_demo/shared/auth.py: the key check and `BodyLimitMiddleware`. The messages that
-- `receive()` gives are a list; a body is its bytes. `hmac.compare_digest` is equality.
pub mod BodyLimit
use radius_todolist_app.Text.{text_length}
use radius_todolist_app.Prelude.{
  ℕ, String, Bool, true, false, not, ◌||◌, Option, none, some, List, [], ◌∷◌, ◌++◌, str_eq, ltb,
  if◌then◌else◌, length,
}
use radius_todolist_app.Error.{Error, Result, ok, err, http, value_error}

-- The inner function `check`, for the header X-Demo-Key.
unfoldable pub check : String → Option String → Result (Unit {0})
check expected none = err (http 401 "invalid_demo_key")
check expected (some key) =
    if str_eq key "" || not (str_eq key expected) then err (http 401 "invalid_demo_key") else ok tt

-- `authenticate`: the check, or an error for a key that is too short
unfoldable pub authenticate : String → Result (Option String → Result (Unit {0}))
unfolding check text_length
authenticate expected =
    if ltb (text_length expected) 32
    then err (value_error "DEMO_KEY must contain at least 32 characters")
    else ok (check expected)

-- A message of `receive()`: http.request with `body` and `more_body`, or http.disconnect.
pub data Message : Type 0 where
  disconnect : Message
  request : List ℕ → Bool → Message

-- What the middleware does with a request: it returns, answers 413, or calls the application, for
-- which `bounded_receive` gives these messages. It waits when the client sends nothing more.
pub data Outcome : Type 0 where
  returns waits : Outcome
  too_large : Outcome
  calls : List Message → Outcome

module _ (max_bytes : ℕ) where
  -- `__call__` for a scope of type "http", with the bytes read so far.
  unfoldable pub receive_body : List ℕ → List Message → Outcome
  receive_body body [] = waits
  receive_body body (disconnect ∷ messages) = returns
  receive_body body (request chunk more ∷ messages) =
      let rest = receive_body (body ++ chunk) messages in
      if ltb max_bytes (length (body ++ chunk))
      then too_large
      else if not more
      then calls (request (body ++ chunk) false ∷ messages)
      else rest
