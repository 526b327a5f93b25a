-- ===== src/Examples/Queues.antt =====
-- The theorems on the queue of log lines, at a queue of three items.
use dockfleet.Prelude.{◌≡◌, ◌⊎◌, refl, true, false, List, [], ◌∷◌, ◌++◌, arith}
use dockfleet.Core.LogQueue.{
  Item, line, failure, end, stdout, stderr, is_sentinel, push, push_sentinel, push_line, make_room,
  put_nowait, full, Event, pushes, takes,
}
use dockfleet.Core.LogQueue.Bounded.{sentinels, push_keeps_sentinels}

abbrev busy : List Item
busy = end stdout ∷ line stderr "a" ∷ line stderr "b" ∷ []

abbrev arrivals : List Event
arrivals = pushes (line stderr "c") ∷ takes ∷ pushes (line stderr "d") ∷ pushes (end stderr) ∷ []

push_keeps_sentinels_example :
    ((is_sentinel (line stderr "c") ≡ false)
      × (sentinels (push 3 (line stderr "c") busy) ≡ sentinels busy))
    ⊎ ((is_sentinel (line stderr "c") ≡ true)
        × ((rest : List Item) × (push 3 (line stderr "c") busy ≡ rest ++ line stderr "c" ∷ [])))
push_keeps_sentinels_example =
    push_keeps_sentinels 3 (omega arith) (line stderr "c") busy (omega arith)

-- With a sentinel at its head, a full queue drops the newest line, and the sentinel moves to the end.
newest_dropped : push 3 (line stderr "c") busy ≡ line stderr "a" ∷ line stderr "b" ∷ end stdout ∷ []
unfolding push push_line put_nowait full is_sentinel
newest_dropped = refl

-- With two sentinels at its head, a full queue drops one of them for a third.
sentinel_dropped :
    push 3 (end stderr) (failure stdout "e" ∷ end stdout ∷ line stderr "a" ∷ [])
    ≡ line stderr "a" ∷ failure stdout "e" ∷ end stderr ∷ []
unfolding push push_sentinel make_room put_nowait full is_sentinel
sentinel_dropped = refl
