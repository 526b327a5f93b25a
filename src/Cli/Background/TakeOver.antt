-- ===== src/Cli/Background/TakeOver.antt =====
-- Who polls behind a restart from the command line.
use dockfleet.Prelude.{ℕ, Bool, true, false, none, ◌≡◌, ◌≢◌}
use dockfleet.Health.Lock.{cleanup_stale}
use dockfleet.Health.Lock.Spec.{acts}
use dockfleet.Health.Lifecycle.{Machine, is_polling}
use dockfleet.Health.Lifecycle.Exclusive.{Guarded}
use dockfleet.Cli.Background.{Signal, ends_it, after_signal}

-- Whether the process goes on behind the signal.
abbrev pub survives : Signal → Bool
survives ends_it = false
survives _ = true

module _ (p q : ℕ) (m : Machine) (g : Guarded m) (here : acts p m.lock.alive ≡ true)
    (polls : is_polling (m.thread p) ≡ true) (there : acts q m.lock.alive ≡ true) (other : p ≢ q)
    (idle : is_polling (m.thread q) ≡ false) (unused : m.lock.owner m.lock.next_inode ≡ none) where
  -- The state behind stop_background_scheduler.
  abbrev signalled : Signal → Machine
  signalled signal =
      let m' = (after_signal signal p m).1 in record m' { lock = cleanup_stale m'.lock }
