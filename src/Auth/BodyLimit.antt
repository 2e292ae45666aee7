-- ===== src/Auth/BodyLimit.antt =====
-- What reaches the application behind `BodyLimitMiddleware`.
use radius_todolist_app.Prelude.{
  ℕ, ◌+◌, ◌≡◌, sym, ap, ◌∙◌, true, false, List, [], ◌∷◌, ◌++◌, arith, ltb, leb, inl, inr,
  Bool-cases, if◌then◌else◌, length, length-append,
}
use mathlib.Core.List.{append_assoc}
use radius_todolist_app.Auth.{Message, request, too_large, calls, receive_body}

-- A body that is sent in chunks, of which the last says that there are no more.
abbrev pub sent : List (List ℕ) → List ℕ → List Message → List Message
sent [] final after = request final false ∷ after
sent (chunk ∷ chunks) final after = request chunk true ∷ sent chunks final after

abbrev pub joined : List (List ℕ) → List ℕ → List ℕ
joined [] final = final
joined (chunk ∷ chunks) final = chunk ++ joined chunks final

receive_sent :
    (max_bytes : ℕ) (body : List ℕ) (chunks : List (List ℕ)) (final : List ℕ) (after : List Message)
    → receive_body max_bytes body (sent chunks final after) ≡ (
        if leb (length (body ++ joined chunks final)) max_bytes
        then calls (request (body ++ joined chunks final) false ∷ after)
        else too_large)
unfolding receive_body
receive_sent max_bytes body [] final after = ground arith
receive_sent max_bytes body (chunk ∷ chunks) final after =
    let ih = receive_sent max_bytes (body ++ chunk) chunks final after in
    let assoc : (body ++ chunk) ++ joined chunks final ≡ body ++ (chunk ++ joined chunks final) =
      append_assoc body chunk (joined chunks final) in
    elim (Bool-cases (ltb max_bytes (length (body ++ chunk)))) [
      | inr fits ↦ rw (receive_body, fits) (rw (← assoc) ih)
      | inl over ↦
          let longer : length (body ++ (chunk ++ joined chunks final))
              ≡ length (body ++ chunk) + length (joined chunks final) =
            ap length (sym assoc) ∙ length-append (body ++ chunk) (joined chunks final) in
          ground arith
    ]

-- However a body is cut into chunks: if it has at most `max_bytes` bytes, the application gets the
-- whole body in one message and then whatever the client sends after it; otherwise the application
-- is not called and the answer is 413.
pub receive_body_bounded :
    (max_bytes : ℕ) (chunks : List (List ℕ)) (final : List ℕ) (after : List Message)
    → receive_body max_bytes [] (sent chunks final after) ≡ (
        if leb (length (joined chunks final)) max_bytes
        then calls (request (joined chunks final) false ∷ after)
        else too_large)
receive_body_bounded max_bytes chunks final after = receive_sent max_bytes [] chunks final after
