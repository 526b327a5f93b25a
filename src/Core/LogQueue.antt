-- ===== src/Core/LogQueue.antt =====
-- The queue between the readers of a container's log and its stream in dockfleet/core/logs.py:
-- enqueue_item of stream_container_logs, as the event loop runs it. Its readers have not been stopped.
pub mod Bounded
use dockfleet.Prelude.{
  ℕ, suc, String, Bool, true, false, List, [], ◌∷◌, ◌++◌, Option, none, some, leb, if◌then◌else◌,
  length,
}

-- The two streams.
pub data Stream : Type 0 where
  stdout stderr : Stream

-- A line, the error of a reader, or its end.
pub data Item : Type 0 where
  line : Stream → String → Item
  failure : Stream → String → Item
  end : Stream → Item

unfoldable pub is_sentinel : Item → Bool
is_sentinel (line s text) = false
is_sentinel (failure s e) = true
is_sentinel (end s) = true

abbrev pub max_size : ℕ
max_size = 1000

module _ (capacity : ℕ) where
  -- `queue.full()`
  unfoldable pub full : List Item → Bool
  full q = leb capacity (length q)

  -- `queue.put_nowait(item)`, where a QueueFull is passed over
  unfoldable pub put_nowait : Item → List Item → List Item
  unfolding full
  put_nowait item q = if full q then q else q ++ item ∷ []

  abbrev pub without_head : List Item → List Item
  without_head [] = []
  without_head (head ∷ q) = q

  -- The room for a sentinel: the oldest item goes, or to the end if it is a sentinel itself.
  unfoldable pub make_room : List Item → List Item
  unfolding full put_nowait is_sentinel
  make_room [] = []
  make_room (head ∷ q) =
      if full (head ∷ q) then if is_sentinel head then put_nowait head q else q else head ∷ q

  unfoldable pub push_sentinel : Item → List Item → List Item
  unfolding make_room put_nowait full
  push_sentinel item q =
      let room = make_room q in
      if full room then put_nowait item (without_head room) else room ++ item ∷ []

  unfoldable pub push_line : Item → List Item → List Item
  unfolding full put_nowait is_sentinel
  push_line item [] = put_nowait item []
  push_line item (head ∷ q) =
      if full (head ∷ q)
      then if is_sentinel head then put_nowait head q else put_nowait item q
      else put_nowait item (head ∷ q)

  unfoldable pub push : Item → List Item → List Item
  unfolding is_sentinel push_sentinel push_line
  push item q = if is_sentinel item then push_sentinel item q else push_line item q

-- What happens to the queue: the loop pushes an item for a reader, or the stream takes one.
pub data Event : Type 0 where
  pushes : Item → Event
  takes : Event

unfoldable pub after : ℕ → List Event → List Item → List Item
unfolding push
after capacity [] q = q
after capacity (pushes item ∷ events) q = after capacity events (push capacity item q)
after capacity (takes ∷ events) q = after capacity events (without_head capacity q)
