-- ===== src/Cli/Background.antt =====
-- The commands of dockfleet/cli/main.py that stop and start the scheduler in the background, on a POSIX
-- system: stop_background_scheduler, restart, and up with --detach, both once the configuration has
-- been loaded, with their work on the services. A process that is started has the number `child` and
-- runs self-heal.
pub mod Named
pub mod Meanwhile
pub mod TakeOver
use dockfleet.Prelude.{ℕ, List, Dict, Bool, true, false, Option, none, some, if◌then◌else◌}
use dockfleet.Cli.Config.{ServiceConfig}
use dockfleet.Core.Exec.{Outcome, ok, raised, Node, Exec, ◌>>=◌, ◌>>◌}
use dockfleet.Core.Fleet.{Host, bootstrap_from_config, restart, up}
use dockfleet.Health.Lock.{System, cleanup_stale, pid_is_running}
use dockfleet.Health.Lifecycle.{Machine, start, kill, Event, behind}

-- What SIGTERM comes to: the process ends at once, it runs on while it handles the signal, or the
-- signal is not permitted.
pub data Signal : Type 0 where
  ends_it handled not_permitted : Signal

abbrev pub after_signal : Signal → ℕ → Machine → Bool × Machine
after_signal ends_it pid m = (true, kill pid m)
after_signal handled pid m = (true, m)
after_signal not_permitted pid m = (false, m)

-- The part under `if pid_file.exists():`
unfoldable pub signal_holder : Signal → Option ℕ → Machine → Bool × Machine
unfolding pid_is_running kill
signal_holder signal none m = (false, m)
signal_holder signal (some pid) m =
    if pid_is_running m.lock.alive pid then after_signal signal pid m else (false, m)

-- stop_background_scheduler, of the default directory: what it returns, and the state without files.
unfoldable pub stop_background_scheduler : Signal → Machine → Bool × Machine
unfolding signal_holder cleanup_stale
stop_background_scheduler signal m =
    let (stopped, m') = signal_holder signal m.lock.pid_file m in
    (stopped, record m' { lock = cleanup_stale m'.lock })

abbrev pub spawned : ℕ → Outcome (Unit {0}) → Machine → Machine
unfolding start
spawned child (ok done) m = (start child m).1
spawned child (raised e) m = m

abbrev pub exit_of : Outcome (Unit {0}) → Outcome (Unit {0})
exit_of (ok done) = ok tt
exit_of (raised e) = raised "Exit(1)"

module _ (host : Host) (services : Dict ServiceConfig) where
  -- bootstrap_from_path and the orchestrator's restart, on a configuration that has been loaded.
  unfoldable pub restart_work : ℕ → Exec (Unit {0})
  restart_work timeout = do bootstrap_from_config host services; restart host services timeout

  -- restart: what the command comes to, the services behind it, and the schedulers. `between` is what
  -- other processes do during the work on the services. The child runs self-heal, which starts a
  -- scheduler; what comes of that is not waited for.
  unfoldable pub respawn :
      Signal → List Event → ℕ → ℕ → Machine → Node → (Outcome (Unit {0}) × Node) × Machine
  unfolding stop_background_scheduler behind
  respawn signal between timeout child m s =
      let worked = restart_work timeout s in
      (
        (exit_of worked.0, worked.1),
        spawned child worked.0 (behind between (stop_background_scheduler signal m).1),
      )

abbrev pub names_running : Option ℕ → (ℕ → Bool) → Bool
unfolding pid_is_running
names_running none alive = false
names_running (some pid) alive = pid_is_running alive pid

-- The branch of --detach behind the work on the services.
abbrev pub unless_running : ℕ → Machine → Machine
unfolding names_running start
unless_running child m = if names_running m.lock.pid_file m.lock.alive then m else (start child m).1

abbrev pub after_up : ℕ → Outcome (Unit {0}) → Machine → Machine
unfolding unless_running
after_up child (ok done) m = unless_running child m
after_up child (raised e) m = m

module _ (host : Host) (services : Dict ServiceConfig) where
  -- up with --detach, on a configuration that has been loaded; see `respawn`.
  unfoldable pub up_detached :
      List Event → ℕ → Machine → Node → (Outcome (Unit {0}) × Node) × Machine
  unfolding after_up behind
  up_detached between child m s =
      let worked = (bootstrap_from_config host services >> up host services) s in
      ((exit_of worked.0, worked.1), after_up child worked.0 (behind between m))
