-- ===== src/Health/Lifecycle.antt =====
-- start and stop of HealthScheduler in dockfleet/health/scheduler.py, for the processes that contend for
-- one scheduler lock. Each process has one scheduler, which was given the directory of the lock. `exits`
-- is whether the thread ends before the timeout of `join`.
pub mod Exclusive
pub mod Handover
use dockfleet.Prelude.{ℕ, Bool, true, false, not, ◌&&◌, List, [], ◌∷◌, if◌then◌else◌}
use dockfleet.Core.Exec.{Outcome, ok, raised}
use dockfleet.Health.Lock.{System, Done, set, acquire, release, crash}
use dockfleet.Health.Lock.Spec.{acts}

-- `self._thread`: None, a thread that runs, or one that has ended.
pub data Thread : Type 0 where
  no_thread polling ended : Thread

pub record Machine : Type 0 where
  pub lock : System
  pub thread : ℕ → Thread
  pub stop_asked : ℕ → Bool

abbrev pub is_polling : Thread → Bool
is_polling polling = true
is_polling _ = false

-- The lines behind `self._lock.acquire()`.
abbrev pub after_acquire : ℕ → Machine → Done → Outcome (Unit {0}) × Machine
after_acquire p m (ok done, lock) = (
  ok tt,
  record { lock = lock; thread = set p polling m.thread; stop_asked = set p false m.stop_asked },
)
after_acquire p m (raised e, lock) = (raised e, record m { lock = lock })

-- HealthScheduler.start
unfoldable pub start : ℕ → Machine → Outcome (Unit {0}) × Machine
unfolding acquire set
start p m = if is_polling (m.thread p) then (ok tt, m) else after_acquire p m (acquire p m.lock)

-- HealthScheduler.stop
unfoldable pub stop : ℕ → Bool → Machine → Machine
unfolding release set
stop p exits m =
    let asked = record m { stop_asked = set p true m.stop_asked } in
    if is_polling (m.thread p) && not exits then asked else record asked {
      thread = set p no_thread m.thread;
      lock = if m.lock.acquired p then release p m.lock else m.lock;
    }

-- What happens to the process of a number: its scheduler is started or stopped, its thread ends by
-- itself, or it is killed.
pub data Event : Type 0 where
  starts : ℕ → Event
  stops : ℕ → Bool → Event
  thread_ends : ℕ → Event
  killed : ℕ → Event

unfoldable pub end_thread : ℕ → Machine → Machine
unfolding set
end_thread p m = if is_polling (m.thread p) then record m { thread = set p ended m.thread } else m

unfoldable pub kill : ℕ → Machine → Machine
unfolding crash set
kill p m = record m { lock = crash p m.lock; thread = set p no_thread m.thread }

-- Only a process that lives does anything.
unfoldable pub happens : Event → Machine → Machine
unfolding start stop end_thread kill
happens (starts p) m = if acts p m.lock.alive then (start p m).1 else m
happens (stops p exits) m = if acts p m.lock.alive then stop p exits m else m
happens (thread_ends p) m = if acts p m.lock.alive then end_thread p m else m
happens (killed p) m = if acts p m.lock.alive then kill p m else m

unfoldable pub behind : List Event → Machine → Machine
unfolding happens
behind [] m = m
behind (e ∷ events) m = behind events (happens e m)
