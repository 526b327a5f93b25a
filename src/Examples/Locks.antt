-- ===== src/Examples/Locks.antt =====
-- The theorems on the scheduler lock at concrete processes, and what happens when operations overlap.
use dockfleet.Prelude.{true, false, ◌≡◌, refl, List, [], ◌∷◌, none, some, ltb}
use dockfleet.Health.Lock.{
  System, acquire, unlock, cleanup_stale, open_lock, take_lock, close_lock, try_lock, on_flock,
  on_holder, raise_conflict, recover, pid_is_running, closed, is_owner, set, release, crash,
}
use dockfleet.Health.Lock.Spec.{Op, acquires, releases, crashes, returned, run, op, spec_run}
use dockfleet.Health.Lock.Safe.{Unopened, free, lock_refines}

-- The files of a process 9 that has ended; the processes below 5 live.
abbrev leftover : System
leftover = record {
  lock_file = some 0;
  pid_file = some 9;
  next_inode = 1;
  owner = λ j. none;
  alive = λ q. ltb q 5;
  fd = λ q. none;
  acquired = λ q. false;
}

leftover-Unopened : Unopened leftover
leftover-Unopened = record { unlocked = λ j. refl; unheld = λ q. refl; no_file = λ q. refl }

abbrev turns : List Op
turns = acquires 1 ∷ acquires 2 ∷ crashes 1 ∷ acquires 2 ∷ releases 3 ∷ acquires 3 ∷ []

lock_refines_example : run turns leftover ≡ spec_run turns (free leftover)
lock_refines_example = lock_refines leftover leftover-Unopened turns

turned : run turns leftover ≡ true ∷ false ∷ true ∷ true ∷ true ∷ false ∷ []
unfolding run op acquire release unlock crash cleanup_stale open_lock take_lock close_lock try_lock
    on_flock on_holder raise_conflict recover pid_is_running closed is_owner set
turned = refl

-- Process 1 has unlocked and not yet unlinked when process 2 acquires; once 1 has unlinked the files,
-- process 3 acquires another inode.
abbrev overlapped : System
unfolding acquire unlock cleanup_stale open_lock take_lock close_lock try_lock on_flock on_holder
    raise_conflict recover pid_is_running closed is_owner set
overlapped = (acquire 3 (cleanup_stale (acquire 2 (unlock 1 (acquire 1 leftover).1)).1)).1

two_holders : (overlapped.acquired 2 ≡ true) × (overlapped.acquired 3 ≡ true)
unfolding overlapped acquire unlock cleanup_stale open_lock take_lock close_lock try_lock on_flock
    on_holder raise_conflict recover pid_is_running closed is_owner set
two_holders = (refl, refl)

-- Process 2 opens the lock of process 1 before that has written the process file, and takes it for a
-- stale one.
abbrev unwritten : System
unfolding open_lock take_lock set closed is_owner
unwritten = record (take_lock 1 0 (open_lock 1 leftover)) { pid_file = some 9 }

stolen :
    (returned (acquire 2 unwritten).0 ≡ true)
    × ((acquire 2 unwritten).1.acquired 1 ≡ true)
    × ((acquire 2 unwritten).1.acquired 2 ≡ true)
unfolding unwritten acquire unlock cleanup_stale open_lock take_lock close_lock try_lock on_flock
    on_holder raise_conflict recover pid_is_running closed is_owner set
stolen = (refl, refl, refl)
