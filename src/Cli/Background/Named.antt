-- ===== src/Cli/Background/Named.antt =====
-- The process file while a scheduler polls, and a detached up then.
use dockfleet.Prelude.{ℕ, true, List, Dict, some, ◌≡◌, refl, arith}
use mathlib.Core.Path.{subst}
use dockfleet.Cli.Config.{ServiceConfig}
use dockfleet.Core.Exec.{Node, Outcome, ok, raised}
use dockfleet.Core.Fleet.{Host}
use dockfleet.Health.Lock.{pid_is_running}
use dockfleet.Health.Lock.Spec.{acts}
use dockfleet.Health.Lock.Refine.{HeldBy, acts-alive}
use dockfleet.Health.Lifecycle.{Machine, is_polling, Event, behind}
use dockfleet.Health.Lifecycle.Exclusive.{Guarded, Fresh, Fresh-Guarded, behind-Guarded}
use dockfleet.Health.Lifecycle.Handover.{owned}
use dockfleet.Cli.Background.{names_running, unless_running, after_up, up_detached}

module _ (p : ℕ) (m : Machine) (g : Guarded m) (here : acts p m.lock.alive ≡ true)
    (polls : is_polling (m.thread p) ≡ true) where
  pub holder_is : g.spec.holder ≡ some p
  holder_is = owned p g.spec.holder (g.holds p (acts-alive p m.lock.alive here) polls)

  pub pid_named : m.lock.pid_file ≡ some p
  pid_named =
      let (i, file, named, opened, acting, owner) =
        subst (λ o. HeldBy o m.lock) holder_is g.sim.held in
      named

  pub runs : pid_is_running m.lock.alive p ≡ true
  unfolding pid_is_running
  runs = ground arith

  nothing_spawned : (child : ℕ) (worked : Outcome (Unit {0})) → after_up child worked m ≡ m
  unfolding after_up unless_running names_running
  nothing_spawned child (ok done) = rw (pid_named, names_running) (rw runs refl)
  nothing_spawned child (raised e) = refl

-- From a state in which no process has opened the lock or started a scheduler, after any starts, stops,
-- ends of threads and kills, and any more of them while a detached up works on the services: if the
-- scheduler of a living process polls then, the command starts no other one and changes nothing about
-- the schedulers and their lock, whatever its work on the services comes to.
pub up_spares_scheduler :
    (m : Machine)
    → Fresh m
    → (events between : List Event) (p : ℕ)
    → acts p (behind between (behind events m)).lock.alive ≡ true
    → is_polling ((behind between (behind events m)).thread p) ≡ true
    → (host : Host) (services : Dict ServiceConfig) (child : ℕ) (s : Node)
    → (up_detached host services between child (behind events m) s).1
      ≡ behind between (behind events m)
unfolding up_detached
up_spares_scheduler m fresh events between p here polls host services child s =
    nothing_spawned p (behind between (behind events m))
      (behind-Guarded between (behind events m) (behind-Guarded events m (Fresh-Guarded m fresh)))
      here polls child _
