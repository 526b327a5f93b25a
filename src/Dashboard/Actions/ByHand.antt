-- ===== src/Dashboard/Actions/ByHand.antt =====
-- What a restart from the dashboard leaves in the database.
use dockfleet.Prelude.{
  ℕ, ◌+◌, String, ◌≡◌, ◌∙◌, refl, ap, Bool, true, false, List, [], ◌∷◌, ◌++◌, some, lookup, member,
  eq_refl,
}
use dockfleet.Cli.Config.{ServiceConfig, DockFleetConfig}
use dockfleet.Health.Models.{Service, RestartEvent, Db, running, healthy, container_value}
use dockfleet.Health.Models.Rows.{on_row, row, KeepsName, find-update}
use dockfleet.Health.Status.{record_manual_restart_event, restarted_by_hand, event_for}
use dockfleet.Core.Exec.{World, Node, Outcome, ok, raised, pure, gets, session, ◌>>=◌, then_do}
use dockfleet.Core.Orchestrator.{is_never, to_restart, guarded_restart, restart_service}
use dockfleet.Core.Orchestrator.Restarted.{AfterRestart}
use dockfleet.Core.Orchestrator.Rows.{restart_outcome}
use dockfleet.Dashboard.Actions.{ActionResponse, after_restart_call, restart_by_hand}

-- What the route leaves, by what it tells: the row, and the events beside those before.
abbrev pub Told : Service → List RestartEvent → Bool → Service → Db → Type 0
Told before events true after db =
    (after.status ≡ running)
    × (after.health_status ≡ healthy)
    × (after.restart_count ≡ before.restart_count + 1)
    × (after.consecutive_failures ≡ 0)
    × (ev : RestartEvent) × (db.events ≡ events ++ ev ∷ [])
    × (ev.reason ≡ "manual_dashboard_restart")
    × (ev.previous_status ≡ some "running")
Told before events false after db = AfterRestart before (ok false) after × (db.events ≡ events)

abbrev pub AfterByHand :
    Service → List RestartEvent → Outcome ActionResponse → Service → Db → Type 0
AfterByHand before events (ok told) after db = Told before events told.succeeded after db
AfterByHand before events (raised e) after db =
    AfterRestart before (raised e) after × (db.events ≡ events)

by_hand-KeepsName : KeepsName restarted_by_hand
unfolding restarted_by_hand
by_hand-KeepsName = record { at = λ svc. refl }

recorded :
    (name : String) (now : ℕ) (db : Db) (svc : Service)
    → row name db ≡ some svc
    → (row name (record_manual_restart_event name now db) ≡ some (restarted_by_hand svc))
      × ((record_manual_restart_event name now db).events
          ≡ db.events ++ event_for svc "manual_dashboard_restart" now ∷ [])
unfolding record_manual_restart_event on_row
recorded name now db svc known = (
  rw (known, record_manual_restart_event)
      (find-update restarted_by_hand by_hand-KeepsName name name db.services
        ∙ rw (eq_refl name, known) refl),
  rw (known, record_manual_restart_event) refl,
)

module _ (world : World) (name : String) (works : (n : ℕ) → world.db_works n ≡ true)
    (before : Service) (events : List RestartEvent) where
  -- The answer to the orchestrator's.
  finished :
      (r : Outcome Bool) (s : Node) (mid : Service)
      → row name s.db ≡ some mid
      → s.db.events ≡ events
      → AfterRestart before r mid
      → let (r1, s1) = then_do r (λ started. pure (to_restart started)) s in
        let (r', s') = then_do r1 (after_restart_call world name) s1 in
        (after : Service) × (row name s'.db ≡ some after) × AfterByHand before events r' after s'.db
  unfolding pure ◌>>=◌ session restarted_by_hand event_for container_value
  finished (ok true) s mid known same h =
      let (row_after, events_after) = recorded name s.now s.db mid known in
      rw (works s.steps, session)
        (
          restarted_by_hand mid,
          row_after,
          (
            refl,
            refl,
            h.2,
            refl,
            event_for mid "manual_dashboard_restart" s.now,
            events_after ∙ ap (λ l. l ++ event_for mid "manual_dashboard_restart" s.now ∷ []) same,
            refl,
            ap (λ status. some (container_value status)) h.0,
          ),
        )
  finished (ok false) s mid known same h = (mid, known, (h, same))
  finished (raised e) s mid known same h = (mid, known, (h, same))

-- When the database works, the service has a row and the configuration allows its restart, and no
-- restart of it is under way, a restart from the dashboard, whatever Docker and the ports do, ends so: if
-- it tells success, the row is running and healthy, with one restart more and no failures counted, and
-- there is one event more, a manual restart, whose previous status is running whatever the row's was. If
-- it tells failure or raises, the row is as behind a failed or a raising restart, and no event is added.
pub restart_by_hand_outcome :
    (world : World) (config : DockFleetConfig) (name : String) (svc : ServiceConfig) (s : Node)
    (before : Service)
    → ((n : ℕ) → world.db_works n ≡ true)
    → row name s.db ≡ some before
    → lookup name config.services ≡ some svc
    → is_never svc.restart ≡ false
    → member name s.active ≡ false
    → let (r, s') = restart_by_hand world true config name s in
      (after : Service) × (row name s'.db ≡ some after)
      × AfterByHand before s.db.events r after s'.db
unfolding restart_by_hand restart_service ◌>>=◌ gets pure
restart_by_hand_outcome world config name svc s before works known found allowed idle =
    let (mid, there, same, h) = restart_outcome world name svc s before works known in
    let (r, s') = guarded_restart world name svc s in
    rw (found, restart_service)
      (rw (allowed, idle) (finished world name works before s.db.events r s' mid there same h))
