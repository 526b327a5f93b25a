-- ===== src/Health/Lock.antt =====
-- dockfleet/health/scheduler_lock.py: SchedulerLock, on the lock file and the process file of one
-- project. A process has one lock object, and its number is that of the process. A file is its inode:
-- `flock` is held on an inode, by the process that opened it, until it is unlocked or closed. Opening,
-- writing and unlinking do not fail.
pub mod Spec
pub mod Refine
pub mod Freed
pub mod Safe
use dockfleet.Prelude.{ℕ, suc, Bool, true, false, ◌&&◌, Option, none, some, eqb, leb, if◌then◌else◌}
use dockfleet.Core.Exec.{Outcome, ok, raised}

-- The files, who holds which inode, which processes live, and the fields `_fd` and `_acquired` of each
-- process's lock. `next_inode` is one that no file has had.
pub record System : Type 0 where
  pub lock_file : Option ℕ
  pub pid_file : Option ℕ
  pub next_inode : ℕ
  pub owner : ℕ → Option ℕ
  pub alive : ℕ → Bool
  pub fd : ℕ → Option ℕ
  pub acquired : ℕ → Bool

unfoldable pub set {ℓ} : {A : Type ℓ} → ℕ → A → (ℕ → A) → ℕ → A
set k v f j = if eqb j k then v else f j

unfoldable pub is_owner : ℕ → Option ℕ → Bool
is_owner p none = false
is_owner p (some q) = eqb q p

-- The end of a file object frees the lock of its process on that inode.
unfoldable pub closed : Option ℕ → ℕ → (ℕ → Option ℕ) → ℕ → Option ℕ
unfolding is_owner
closed none p owner j = owner j
closed (some i) p owner j = if eqb j i && is_owner p (owner j) then none else owner j

abbrev pub inode_of : Option ℕ → ℕ → ℕ
inode_of none next = next
inode_of (some i) next = i

abbrev pub next_after : Option ℕ → ℕ → ℕ
next_after none next = suc next
next_after (some i) next = next

-- `self._fd = open(self._lock_path, "a+")`, which ends the object that was there.
unfoldable pub open_lock : ℕ → System → System
unfolding set closed
open_lock p s = record s {
  lock_file = some (inode_of s.lock_file s.next_inode);
  next_inode = next_after s.lock_file s.next_inode;
  owner = closed (s.fd p) p s.owner;
  fd = set p (some (inode_of s.lock_file s.next_inode)) s.fd;
}

-- `self._fd.close()` and `self._fd = None`
unfoldable pub close_lock : ℕ → System → System
unfolding set closed
close_lock p s = record s { owner = closed (s.fd p) p s.owner; fd = set p none s.fd }

-- _write_pid_file behind a lock that worked
unfoldable pub take_lock : ℕ → ℕ → System → System
unfolding set
take_lock p inode s = record s {
  owner = set inode (some p) s.owner;
  acquired = set p true s.acquired;
  pid_file = some p;
}

-- _cleanup_stale
unfoldable pub cleanup_stale : System → System
cleanup_stale s = record s { pid_file = none; lock_file = none }

-- On a POSIX system.
unfoldable pub pid_is_running : (ℕ → Bool) → ℕ → Bool
pid_is_running alive pid = if leb pid 0 then false else alive pid

abbrev pub Done : Type 0
Done = Outcome (Unit {0}) × System

-- `flock` on the inode that was opened, whose owner is given.
unfoldable pub on_flock : ℕ → (System → Done) → System → Option ℕ → Done
unfolding take_lock close_lock
on_flock p conflict s none = (ok tt, take_lock p (inode_of s.lock_file s.next_inode) s)
on_flock p conflict s (some q) = conflict (close_lock p s)

unfoldable pub try_lock : ℕ → (System → Done) → System → Done
unfolding on_flock
try_lock p conflict s = on_flock p conflict s (s.owner (inode_of s.lock_file s.next_inode))

-- The second attempt of _raise_conflict.
unfoldable pub recover : ℕ → System → Done
unfolding open_lock try_lock cleanup_stale
recover p s =
    try_lock p (λ s'. (raised "could not acquire even after recovery", s'))
      (open_lock p (cleanup_stale s))

unfoldable pub on_holder : ℕ → System → Option ℕ → Done
unfolding pid_is_running recover
on_holder p s none = (raised "held by another process", s)
on_holder p s (some pid) =
    let recovered = recover p s in
    if pid_is_running s.alive pid then (raised "already running", s) else recovered

unfoldable pub raise_conflict : ℕ → System → Done
unfolding on_holder
raise_conflict p s = on_holder p s s.pid_file

unfoldable pub acquire : ℕ → System → Done
unfolding open_lock try_lock raise_conflict
acquire p s = try_lock p (raise_conflict p) (open_lock p s)

-- The first part of a release: unlock, close, and `self._acquired = False`.
unfoldable pub unlock : ℕ → System → System
unfolding close_lock set
unlock p s = let s' = close_lock p s in record s' { acquired = set p false s'.acquired }

-- Both loops over the two paths unlink the files.
unfoldable pub release : ℕ → System → System
unfolding unlock cleanup_stale
release p s = let s' = cleanup_stale (unlock p s) in if s.acquired p then s' else s

-- The end of a process without a release: the system closes its file.
unfoldable pub crash : ℕ → System → System
unfolding close_lock set
crash p s = record (close_lock p s) { alive = set p false s.alive }
