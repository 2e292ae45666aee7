-- ===== src/Paging/Walk.antt =====
-- A client that follows `next_after_event_id` from page to page.
use radius_todolist_app.Prelude.{
  ℕ, zero, suc, ◌+◌, ◌≤◌, ◌<◌, ◌≡◌, refl, sym, ap, ◌∙◌, inl, inr, Bool, none, some, List, [], ◌∷◌,
  ◌++◌, ltb, leb, arith, Bool-cases, length, take, drop, select, All,
}
use radius_todolist_app.Error.{Result, ok, err, other}
use radius_todolist_app.Paging.{page, last_id, with_next, insert_by_id, order_by_id, timeline}

module _ {E : Type 0} (event_id : E → ℕ) where
  -- The rows stand in the order of their identities.
  abbrev pub Ascending : List E → Type 0
  Ascending [] = Unit
  Ascending (e ∷ es) = All (λ f. event_id e < event_id f) es × Ascending es

  abbrev pub after_id : ℕ → List E → List E
  after_id after es = select (λ e. ltb after (event_id e)) es

  prepend : List E → Result (List E) → Result (List E)
  prepend es (ok fs) = ok (es ++ fs)
  prepend es (err e) = err e

  -- All pages from `after` on, at most `fuel` of them.
  unfoldable pub walk : List E → ℕ → ℕ → ℕ → Result (List E)
  unfolding prepend
  walk es limit zero after = err other
  walk es limit (suc fuel) after = elim (timeline event_id es after limit) [
    | err e ↦ err e
    | ok (selected, none) ↦ ok selected
    | ok (selected, some next) ↦ prepend selected (walk es limit fuel next)
  ]

  order-Ascending : (es : List E) → Ascending es → order_by_id event_id es ≡ es
  unfolding order_by_id insert_by_id
  order-Ascending [] h = refl
  order-Ascending (e ∷ []) h = refl
  order-Ascending (e ∷ f ∷ es) h = rw (order-Ascending (f ∷ es) h.1) (ground (arith, h.0.0))

  All-select : (test : E → Bool) (P : E → Type 0) (es : List E) → All P es → All P (select test es)
  All-select test P [] h = tt
  All-select test P (e ∷ es) h = elim (Bool-cases (test e)) [
    | inl t ↦ rw t (h.0, All-select test P es h.1)
    | inr t ↦ rw t (All-select test P es h.1)
  ]

  Ascending-select : (test : E → Bool) (es : List E) → Ascending es → Ascending (select test es)
  Ascending-select test [] h = tt
  Ascending-select test (e ∷ es) h = elim (Bool-cases (test e)) [
    | inl t ↦ rw t (All-select test _ es h.0, Ascending-select test es h.1)
    | inr t ↦ rw t (Ascending-select test es h.1)
  ]

  after_id-later : (a b : ℕ) (es : List E) → a ≤ b → after_id b (after_id a es) ≡ after_id b es
  after_id-later a b [] h = refl
  after_id-later a b (e ∷ es) h = ground (arith, after_id-later a b es h)

  after_id_whole : (a : ℕ) (es : List E) → All (λ e. a < event_id e) es → after_id a es ≡ es
  after_id_whole a [] h = refl
  after_id_whole a (e ∷ es) h = ground (arith, h.0, after_id_whole a es h.1)

  after_id-All : (a : ℕ) (es : List E) → All (λ e. a < event_id e) (after_id a es)
  after_id-All a [] = tt
  after_id-All a (e ∷ es) = elim (Bool-cases (ltb a (event_id e))) [
    | inl t ↦ rw t (ground arith, after_id-All a es)
    | inr t ↦ rw t (after_id-All a es)
  ]

  skip : (a : ℕ) (e : E) (es : List E) → event_id e ≤ a → after_id a (e ∷ es) ≡ after_id a es
  skip a e es h = ground (arith, h)

  -- The last row of a first page, and the rows that follow it.
  record Cut (n : ℕ) (es : List E) : Type 0 where
    id : ℕ
    is_last : last_id event_id (take (suc n) es) ≡ ok id
    follow : after_id id es ≡ drop (suc n) es
    bounded : (a : ℕ) → All (λ e. a < event_id e) es → a < id

  cut : (n : ℕ) (es : List E) → Ascending es → suc n ≤ length es → Cut n es
  unfolding last_id
  cut n [] h le = absurd (omega (arith, le))
  cut zero (e ∷ es) h le = record {
    id = event_id e;
    is_last = refl;
    follow = skip (event_id e) e es (omega arith) ∙ after_id_whole (event_id e) es h.0;
    bounded = λ a all. all.0;
  }
  cut (suc n) (e ∷ []) h le = absurd (omega (arith, le))
  cut (suc n) (e ∷ f ∷ es) h le =
      let c = cut n (f ∷ es) h.1 (omega (arith, le)) in
      record {
        id = c.id;
        is_last = c.is_last;
        follow = skip c.id e (f ∷ es) (omega (arith, c.bounded (event_id e) h.0)) ∙ c.follow;
        bounded = λ a all. c.bounded a all.1;
      }

  plus_one : (n : ℕ) → n + 1 ≡ suc n
  plus_one n = omega arith

  take-take : (n : ℕ) (es : List E) → take n (take (suc n) es) ≡ take n es
  take-take zero es = refl
  take-take (suc n) [] = refl
  take-take (suc n) (e ∷ es) = ap (λ (r : List E). e ∷ r) (take-take n es)

  take-drop : (n : ℕ) (es : List E) → take n es ++ drop n es ≡ es
  take-drop zero es = refl
  take-drop (suc n) [] = refl
  take-drop (suc n) (e ∷ es) = ap (λ (r : List E). e ∷ r) (take-drop n es)

  take_whole : (n : ℕ) (es : List E) → length es ≤ n → take n es ≡ es
  take_whole zero [] h = refl
  take_whole zero (e ∷ es) h = absurd (omega (arith, h))
  take_whole (suc n) [] h = refl
  take_whole (suc n) (e ∷ es) h = ap (λ (r : List E). e ∷ r) (take_whole n es (omega (arith, h)))

  length-take : (n : ℕ) (es : List E) → n ≤ length es → length (take n es) ≡ n
  length-take zero es h = refl
  length-take (suc n) [] h = absurd (omega (arith, h))
  length-take (suc n) (e ∷ es) h = ap suc (length-take n es (omega (arith, h)))

  length-drop : (n : ℕ) (es : List E) → n ≤ length es → length (drop n es) + n ≡ length es
  length-drop zero es h = omega arith
  length-drop (suc n) [] h = absurd (omega (arith, h))
  length-drop (suc n) (e ∷ es) h = omega (arith, length-drop n es (omega (arith, h)))

  length-select : (test : E → Bool) (es : List E) → length (select test es) ≤ length es
  length-select test [] = omega arith
  length-select test (e ∷ es) = ground (arith, length-select test es)

  -- A page that is the last one, and a page that is not.
  last_page :
      (es : List E) (after limit : ℕ)
      → Ascending es
      → length (after_id after es) ≤ limit
      → timeline event_id es after limit ≡ ok (after_id after es, none)
  unfolding timeline page
  last_page es after limit h le =
      let xs = after_id after es in
      let whole : take (limit + 1) xs ≡ xs = take_whole (limit + 1) xs (omega (arith, le)) in
      rw (order-Ascending xs (Ascending-select _ es h), whole)
        (rw (take_whole limit xs le) (ground (arith, le)))

  next_page :
      (es : List E) (after n : ℕ)
      → Ascending es
      → suc n < length (after_id after es)
      → (c : Cut n (after_id after es))
      → timeline event_id es after (suc n) ≡ ok (take (suc n) (after_id after es), some c.id)
  unfolding timeline page with_next
  next_page es after n h lt c =
      let xs = after_id after es in
      let full : length (take (suc (suc n)) xs) ≡ suc (suc n) =
        length-take (suc (suc n)) xs (omega (arith, lt)) in
      rw
        (
          order-Ascending xs (Ascending-select _ es h),
          plus_one (suc n),
          full,
          take-take (suc n) xs,
          c.is_last,
        )
        (ground arith)

  walk-from :
      (es : List E) (n fuel after : ℕ)
      → Ascending es
      → length (after_id after es) < fuel
      → walk es (suc n) fuel after ≡ ok (after_id after es)
  unfolding walk
  walk-from es n zero after h lt = absurd (omega (arith, lt))
  walk-from es n (suc fuel) after h lt =
      elim (Bool-cases (leb (length (after_id after es)) (suc n))) [
        | inl t ↦ rw (walk, last_page es after (suc n) h (ground arith)) refl
        | inr t ↦
            let xs = after_id after es in
            let more : suc n < length xs = ground arith in
            let c = cut n xs (Ascending-select _ es h) (omega (arith, more)) in
            let later : after_id c.id es ≡ drop (suc n) xs =
              sym (
                after_id-later after c.id es
                  (omega (arith, c.bounded after (after_id-All after es))))
              ∙ c.follow in
            rw (walk, next_page es after n h more c)
              (rw
                (walk-from es n fuel c.id h
                  (rw later (omega (arith, length-drop (suc n) xs (omega (arith, more))))))
                (ap ok (ap (λ (r : List E). take (suc n) xs ++ r) later ∙ take-drop (suc n) xs)))
      ]

  -- For events stored in the order of their identities and a limit of at least 1, a client that
  -- follows `next_after_event_id` gets every later event exactly once, in order, and comes to the
  -- last page: after at most one page more than there are events.
  pub walk_complete :
      (es : List E) (limit after : ℕ)
      → Ascending es
      → 1 ≤ limit
      → walk es limit (suc (length es)) after ≡ ok (after_id after es)
  walk_complete es zero after h le = absurd (omega (arith, le))
  walk_complete es (suc n) after h le =
      walk-from es n (suc (length es)) after h
        (omega (arith, length-select (λ e. ltb after (event_id e)) es))
