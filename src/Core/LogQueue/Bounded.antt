-- ===== src/Core/LogQueue/Bounded.antt =====
-- The bound of the queue, and what becomes of its sentinels.
use dockfleet.Prelude.{
  ℕ, suc, ◌≤◌, true, false, List, [], ◌∷◌, ◌++◌, ◌≡◌, refl, arith, if◌then◌else◌, length,
  length-append, ◌⊎◌, Bool-cases, inl, inr,
}
use dockfleet.Core.LogQueue.{
  Item, is_sentinel, full, put_nowait, make_room, without_head, push_sentinel, push_line, push,
  Event, pushes, takes, after,
}

unfoldable pub sentinels : List Item → ℕ
unfolding is_sentinel
sentinels [] = 0
sentinels (item ∷ q) = let rest = sentinels q in if is_sentinel item then suc rest else rest

sentinels-append :
    (q : List Item) (item : Item)
    → sentinels (q ++ item ∷ []) ≡ (if is_sentinel item then suc (sentinels q) else sentinels q)
unfolding sentinels
sentinels-append [] item = refl
sentinels-append (head ∷ q) item = ground (arith, sentinels-append q item)

module _ (capacity : ℕ) (positive : 1 ≤ capacity) where
  put_nowait-bound :
      (item : Item) (q : List Item)
      → length q ≤ capacity
      → length (put_nowait capacity item q) ≤ capacity
  unfolding put_nowait full
  put_nowait-bound item q h = ground (arith, length-append q (item ∷ []))

  make_room-bound : (q : List Item) → length q ≤ capacity → length (make_room capacity q) ≤ capacity
  unfolding make_room full
  make_room-bound [] h = h
  make_room-bound (head ∷ q) h = ground (arith, put_nowait-bound head q)

  without_head-bound :
      (q : List Item) → length q ≤ capacity → length (without_head capacity q) ≤ capacity
  without_head-bound [] h = h
  without_head-bound (head ∷ q) h = ground arith

  push_line-bound :
      (item : Item) (q : List Item)
      → length q ≤ capacity
      → length (push_line capacity item q) ≤ capacity
  unfolding push_line full
  push_line-bound item [] h = put_nowait-bound item [] h
  push_line-bound item (head ∷ q) h =
      ground
        (arith, put_nowait-bound head q, put_nowait-bound item q, put_nowait-bound item (head ∷ q))

  push_sentinel-bound :
      (item : Item) (q : List Item)
      → length q ≤ capacity
      → length (push_sentinel capacity item q) ≤ capacity
  unfolding push_sentinel full
  push_sentinel-bound item q h = ground (
    arith,
    put_nowait-bound item (without_head capacity (make_room capacity q)),
    without_head-bound (make_room capacity q),
    make_room-bound q h,
    length-append (make_room capacity q) (item ∷ []),
  )

  push-bound :
      (item : Item) (q : List Item) → length q ≤ capacity → length (push capacity item q) ≤ capacity
  unfolding push
  push-bound item q h = ground (arith, push_line-bound item q h, push_sentinel-bound item q h)

  -- Whatever is pushed and taken, a queue within its capacity, which is not zero, stays within it.
  pub queue_bounded :
      (events : List Event) (q : List Item)
      → length q ≤ capacity
      → length (after capacity events q) ≤ capacity
  unfolding after
  queue_bounded [] q h = h
  queue_bounded (pushes item ∷ events) q h = queue_bounded events _ (push-bound item q h)
  queue_bounded (takes ∷ events) q h = queue_bounded events _ (without_head-bound q h)

  put_nowait-sentinels :
      (item : Item) (q : List Item)
      → is_sentinel item ≡ false
      → sentinels (put_nowait capacity item q) ≡ sentinels q
  unfolding put_nowait
  put_nowait-sentinels item q plain = ground (arith, sentinels-append q item, plain)

  -- There is room for the sentinel at the head of a full queue once it is taken.
  put_back :
      (head : Item) (q : List Item)
      → length (head ∷ q) ≤ capacity
      → put_nowait capacity head q ≡ q ++ head ∷ []
  unfolding put_nowait full
  put_back head q h = ground (arith, h)

  line_keeps :
      (item : Item) (q : List Item)
      → is_sentinel item ≡ false
      → length q ≤ capacity
      → sentinels (push_line capacity item q) ≡ sentinels q
  unfolding push_line sentinels
  line_keeps item [] plain h = put_nowait-sentinels item [] plain
  line_keeps item (head ∷ q) plain h = ground (
    arith,
    put_back head q h,
    sentinels-append q head,
    put_nowait-sentinels item q plain,
    put_nowait-sentinels item (head ∷ q) plain,
  )

  fits : (q : List Item) → length q ≤ capacity → full capacity (without_head capacity q) ≡ false
  unfolding full
  fits [] h = ground (arith, positive)
  fits (head ∷ q) h = ground (arith, h)

  sentinel_enters :
      (item : Item) (q : List Item)
      → length q ≤ capacity
      → (rest : List Item) × (push_sentinel capacity item q ≡ rest ++ item ∷ [])
  unfolding push_sentinel put_nowait
  sentinel_enters item q h = elim (Bool-cases (full capacity (make_room capacity q))) [
    | inl no_room ↦ (
      without_head capacity (make_room capacity q),
      rw (no_room, push_sentinel)
          (rw (fits (make_room capacity q) (make_room-bound q h), put_nowait) refl),
    )
    | inr some_room ↦ (make_room capacity q, rw (some_room, push_sentinel) refl)
  ]

  -- For a queue within its capacity, which is not zero: a line that is pushed leaves as many sentinels
  -- there as before, and a sentinel that is pushed stands at the end.
  pub push_keeps_sentinels :
      (item : Item) (q : List Item)
      → length q ≤ capacity
      → ((is_sentinel item ≡ false) × (sentinels (push capacity item q) ≡ sentinels q))
        ⊎ ((is_sentinel item ≡ true)
            × ((rest : List Item) × (push capacity item q ≡ rest ++ item ∷ [])))
  unfolding push
  push_keeps_sentinels item q h = elim (Bool-cases (is_sentinel item)) [
    | inl mark ↦ inr (mark, rw (mark, push) (sentinel_enters item q h))
    | inr plain ↦ inl (plain, rw (plain, push) (line_keeps item q plain h))
  ]
