-- ===== src/Examples/Lifecycles.antt =====
-- The theorems on the life of schedulers, for two processes.
use dockfleet.Prelude.{ℕ, true, false, ◌≡◌, refl, List, [], ◌∷◌, none, ltb, arith}
use dockfleet.Health.Lock.{
  acquire, unlock, cleanup_stale, open_lock, take_lock, close_lock, try_lock, on_flock, on_holder,
  raise_conflict, recover, pid_is_running, closed, is_owner, set, release, crash,
}
use dockfleet.Health.Lifecycle.{
  Machine, no_thread, Event, starts, stops, killed, happens, behind, start, stop,
}
use dockfleet.Cli.Background.{up_detached}
use dockfleet.Cli.Background.Named.{up_spares_scheduler}
use dockfleet.Examples.Data.{two_services, node}
use dockfleet.Examples.Fleet.{host}
use dockfleet.Health.Lifecycle.Exclusive.{Fresh, one_scheduler_polls}
use dockfleet.Health.Lifecycle.Handover.{Started, stop_hands_over}

-- The processes below 5 live.
abbrev new_machine : Machine
new_machine = record {
  lock = record {
    lock_file = none;
    pid_file = none;
    next_inode = 0;
    owner = λ j. none;
    alive = λ q. ltb q 5;
    fd = λ q. none;
    acquired = λ q. false;
  };
  thread = λ q. no_thread;
  stop_asked = λ q. true;
}

new-Fresh : Fresh new_machine
new-Fresh = record {
  unopened = record { unlocked = λ j. refl; unheld = λ q. refl; no_file = λ q. refl };
  no_threads = λ q. refl;
}

-- The stop of process 1 times out, and process 2 is refused until 1 is killed.
abbrev lives : List Event
lives = starts 1 ∷ stops 1 false ∷ starts 2 ∷ killed 1 ∷ starts 2 ∷ []

one_scheduler_polls_example : ◌≡◌ {A = ℕ} 2 2
unfolding behind happens start stop acquire release unlock crash cleanup_stale open_lock take_lock
    close_lock try_lock on_flock on_holder raise_conflict recover pid_is_running closed is_owner set
one_scheduler_polls_example =
    one_scheduler_polls new_machine new-Fresh lives 2 2 refl refl refl refl

stop_hands_over_example : Started 3 false (start 3 (stop 2 false (behind lives new_machine)))
unfolding behind happens start stop acquire release unlock crash cleanup_stale open_lock take_lock
    close_lock try_lock on_flock on_holder raise_conflict recover pid_is_running closed is_owner set
stop_hands_over_example =
    stop_hands_over new_machine new-Fresh lives 2 3 refl refl refl (omega arith) false

-- Process 2 starts polling while the services come up.
up_spares_scheduler_example :
    (up_detached host two_services
      (killed 1 ∷ starts 2 ∷ [])
      3
      (behind (starts 1 ∷ []) new_machine)
      node).1
    ≡ behind (killed 1 ∷ starts 2 ∷ []) (behind (starts 1 ∷ []) new_machine)
unfolding behind happens start stop acquire release unlock crash cleanup_stale open_lock take_lock
    close_lock try_lock on_flock on_holder raise_conflict recover pid_is_running closed is_owner set
up_spares_scheduler_example =
    up_spares_scheduler new_machine new-Fresh (starts 1 ∷ []) (killed 1 ∷ starts 2 ∷ []) 2 refl refl
      host two_services 3 node
