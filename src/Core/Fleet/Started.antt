-- ===== src/Core/Fleet/Started.antt =====
-- One turn of the loop of `up`.
use dockfleet.Prelude.{
  Option, none, some, ℕ, String, ◌≡◌, refl, Bool, true, false, Dict, lookup, inl, inr,
}
use dockfleet.Cli.Config.{ServiceConfig}
use dockfleet.Health.Models.{Service, Db, running}
use dockfleet.Health.Status.{mark_service_running, set_status}
use dockfleet.Core.Exec.{Node, raise}
use dockfleet.Core.Exec.Ensures.{Ensures, Ensures-raise, Rows}
use dockfleet.Core.Orchestrator.Restarted.{running_at, running_at-KeepsName}
use dockfleet.Core.Orchestrator.Rows.{Started, start_service-Ensures}
use dockfleet.Core.Orchestrator.{start_service}
use dockfleet.Core.Fleet.{Host, start_one}
use dockfleet.Core.Fleet.Loops.{
  HasRow, Ensures-weaken, Grows-refl, on_row-Grows, on_row-Is, Turned, Is,
}

abbrev pub Runs : Service → Type 0
Runs svc = svc.status ≡ running

abbrev pub IsRunning : Db → String → Type 0
IsRunning = Is Runs

running_at-Runs : (now : ℕ) (svc : Service) → Runs (running_at now svc)
unfolding set_status
running_at-Runs now svc = refl

module _ (host : Host) (services : Dict ServiceConfig)
    (works : (n : ℕ) → host.world.db_works n ≡ true) where
  Started-Turned :
      (started : Bool) (name : String) (db : Db) (s : Node)
      → HasRow db name
      → Started host.world name works db started s
      → Turned Runs name db started s
  unfolding Started mark_service_running
  Started-Turned true name db s there (now, h) = rw h (
    on_row-Grows Runs (running_at now) (running_at-KeepsName now) (running_at-Runs now) name db,
    inr (
        on_row-Is Runs (running_at now) (running_at-KeepsName now) (running_at-Runs now) name db
          there),
  )
  Started-Turned false name db s there h = rw h (Grows-refl Runs db, inl refl)

  -- The turn of a service, once it has been looked up.
  looked_up :
      (name : String) (db : Db) (o : Option ServiceConfig)
      → HasRow db name
      → Ensures
          (Rows db)
          (elim o [ none ↦ raise name | some svc ↦ start_service host.world name svc ])
          (Turned Runs name db)
          (λ e s. Unit)
  looked_up name db none there = Ensures-raise name (λ s h. tt)
  looked_up name db (some svc) there =
      Ensures-weaken _ (λ started s. Started-Turned started name db s there) (λ e s h. tt)
        (start_service-Ensures host.world name works svc db)

  pub start_one-Ensures :
      (name : String) (db : Db)
      → HasRow db name
      → Ensures (Rows db) (start_one host services name) (Turned Runs name db) (λ e s. Unit)
  unfolding start_one
  start_one-Ensures name db there = looked_up name db (lookup name services) there
