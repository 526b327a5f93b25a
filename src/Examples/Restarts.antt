-- ===== src/Examples/Restarts.antt =====
-- Restarts of the web server.
use dockfleet.Prelude.{
  ◌≡◌, refl, true, [], ◌∷◌, some, codes, arith, contains, length, ◌≤◌, ◌+◌, ◌*◌,
}
use dockfleet.Health.Models.Rows.{find, row}
use dockfleet.Health.Models.{Service}
use dockfleet.Core.Ports.{Binding, extract_host_ports, wait_for_ports_released, poll}
use dockfleet.Core.Ports.Wait.{wait_ends}
use dockfleet.Core.Orchestrator.{restart_service, guarded_restart}
use dockfleet.Core.Orchestrator.Guard.{restart_service-active}
use dockfleet.Core.Orchestrator.Restarted.{AfterRestart}
use dockfleet.Core.Orchestrator.Rows.{restart_outcome}
use dockfleet.Core.Exec.{ok, try_except, pure, ◌>>=◌}
use dockfleet.Core.Monitor.{monitor_services, monitor_lines, monitor_line}
use dockfleet.Examples.Data.{calm, node, config, web_config, web_row}

web_ports : extract_host_ports web_config ≡ (codes "127.0.0.1", 8080) ∷ []
unfolding extract_host_ports
web_ports = refl

restart_service-active_example :
    (restart_service calm true "web" config true node).1.active ≡ node.active
restart_service-active_example = restart_service-active calm true "web" config true node

restart_outcome_example :
    let (r, s') = guarded_restart calm "web" web_config node in
    (after : Service) × (row "web" s'.db ≡ some after)
    × (s'.db.events ≡ node.db.events)
    × AfterRestart web_row r after
unfolding find
restart_outcome_example = restart_outcome calm "web" web_config node web_row (λ n. refl) refl

abbrev one_port : Binding
one_port = (codes "127.0.0.1", 8080)

wait_ends_example :
    ((wait_for_ports_released calm (one_port ∷ []) 5000 node).1.now
      ≤ node.now + 5000 + 50 + 1 + 2 * (length (one_port ∷ []) * 1))
    × (wait_for_ports_released calm (one_port ∷ []) 5000 node
        ≡ poll calm 200 1000 5000 (one_port ∷ []) node)
wait_ends_example = wait_ends calm 1 (λ n. omega arith) one_port [] 5000 200 node (omega arith)

-- The old monitor does nothing about a container that runs.
running_left :
    monitor_services calm true config (some (("dockfleet_web" ∷ "Up 2 hours" ∷ []) ∷ [])) node
    ≡ (ok tt, node)
unfolding monitor_services monitor_lines monitor_line try_except ◌>>=◌ pure contains
running_left = refl
