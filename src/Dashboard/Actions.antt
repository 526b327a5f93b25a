-- ===== src/Dashboard/Actions.antt =====
-- The routes of dockfleet/dashboard/routes.py that act: restart_service and stop_service. An error that
-- they raise is the server's answer 500. `config` and `self_healing` are those of the orchestrator that
-- the process shares.
pub mod ByHand
use dockfleet.Prelude.{String, Bool, true, false, cat}
use dockfleet.Cli.Config.{DockFleetConfig}
use dockfleet.Health.Status.{record_manual_restart_event, record_manual_stop}
use dockfleet.Core.Exec.{World, Exec, pure, session, ◌>>=◌, ◌>>◌}
use dockfleet.Core.Orchestrator as Orchestrator
use dockfleet.Core.Orchestrator.{Restart, done, refused, in_progress}

-- class ActionResponse
pub record ActionResponse : Type 0 where
  pub succeeded : Bool
  pub message : String

abbrev pub answer : Bool → String → ActionResponse
answer succeeded message = record { succeeded = succeeded; message = message }

module _ (world : World) where
  -- The lines behind the call of the orchestrator, whose `None` counts as `False`.
  abbrev pub after_restart_call : String → Restart → Exec ActionResponse
  after_restart_call name done = do
    session world (record_manual_restart_event name)
    pure (answer true (cat name " restarted"))
  after_restart_call name refused = pure (answer false (cat "Failed to restart " name))
  after_restart_call name in_progress = pure (answer false (cat "Failed to restart " name))

  -- routes.py restart_service
  unfoldable pub restart_by_hand : Bool → DockFleetConfig → String → Exec ActionResponse
  restart_by_hand self_healing config name =
      Orchestrator.restart_service world self_healing name config false >>= after_restart_call name

  abbrev pub after_stop_call : String → Bool → Exec ActionResponse
  after_stop_call name true = do
    session world (λ now. record_manual_stop name)
    pure (answer true (cat name " stopped"))
  after_stop_call name false = pure (answer false (cat "Failed to stop " name))

  -- routes.py stop_service
  unfoldable pub stop_by_hand : String → Exec ActionResponse
  stop_by_hand name = Orchestrator.stop_service world name >>= after_stop_call name
