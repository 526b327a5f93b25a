-- ===== src/Core/Fleet.antt =====
-- The methods of the class Orchestrator that work on all services, in
-- dockfleet/core/orchestrator.py: up, down, wait_for_release, restart, and handle_unhealthy_service.
-- The way Python prints a list and the order in which it lists a set are parameters.
pub mod Loops
pub mod Started
pub mod Stopped
pub mod Up
pub mod Down
use dockfleet.Prelude.{
  ℕ, ◌+◌, String, cat, Bool, true, false, not, List, [], ◌∷◌, ◌++◌, reverse, Option, none, some,
  Dict, lookup, if◌then◌else◌,
}
use dockfleet.Cli.Config.{ServiceConfig, DockFleetConfig}
use dockfleet.Health.Models.{Service}
use dockfleet.Health.Models.Rows.{row}
use dockfleet.Health.Services.{Json, seed_services}
use dockfleet.Health.Status.{mark_restart_successful, record_restart_event}
use dockfleet.Core.Exec.{
  World, Node, Exec, Outcome, ok, raised, pure, raise, ◌>>=◌, ◌>>◌, try_except, session, tick,
}
use dockfleet.Core.Docker.{create_network}
use dockfleet.Core.Ports.{Binding, extract_host_ports, wait_for_ports_released}
use dockfleet.Core.Order
use dockfleet.Core.Order.{resolve_service_order}
use dockfleet.Core.Orchestrator.{
  network, start_service, stop_service, Restart, done, restart_service, mark_restart_failed,
}

-- What the orchestrator uses of other code.
pub record Host : Type 0 where
  pub world : World
  pub json : Json
  pub next_id : List Service → ℕ
  pub show : List String → String
  pub distinct : List Binding → List Binding

-- The exceptions of _resolve_service_order.
abbrev pub order_or_raise : Order.Result (List String) → Exec (List String)
order_or_raise (Order.ok order) = pure order
order_or_raise (Order.err (Order.circular name)) = raise (cat "Circular dependency detected: " name)
order_or_raise (Order.err (Order.missing name)) = raise name
order_or_raise (Order.err Order.too_deep) = raise "RecursionError"

abbrev pub unless_failed : String → List String → (List String → String) → Exec (Unit {0})
unless_failed what [] show = pure tt
unless_failed what (name ∷ names) show = raise (cat what (show (name ∷ names)))

abbrev pub add_failed : Bool → String → List String → List String
add_failed true name failed = failed
add_failed false name failed = name ∷ failed

-- The loops of up and down; the result is `failed`.
unfoldable pub run_each : (String → Exec Bool) → List String → Exec (List String)
run_each each [] = pure []
run_each each (name ∷ names) = do
  success ← each name
  failed ← run_each each names
  pure (add_failed success name failed)

module _ (host : Host) (services : Dict ServiceConfig) where
  unfoldable pub start_one : String → Exec Bool
  start_one name = elim (lookup name services) [
    | none ↦ raise name
    | some svc ↦ start_service host.world name svc
  ]

  unfoldable pub start_all : List String → Exec (List String)
  start_all = run_each start_one

  unfoldable pub stop_all : List String → Exec (List String)
  stop_all = run_each (stop_service host.world)

  -- bootstrap_from_config
  unfoldable pub bootstrap_from_config : Exec (Unit {0})
  bootstrap_from_config = session host.world (λ now. seed_services host.next_id host.json services)

  unfoldable pub up : Exec (Unit {0})
  up = do
    bootstrap_from_config
    create_network host.world network
    order ← order_or_raise (resolve_service_order services)
    failed ← start_all order
    unless_failed "Failed to start services: " failed host.show

  unfoldable pub down : Exec (Unit {0})
  down = do
    order ← order_or_raise (resolve_service_order services)
    failed ← stop_all (reverse order)
    unless_failed "Failed to stop services: " failed host.show

  unfoldable pub all_host_ports : Dict ServiceConfig → List Binding
  unfolding extract_host_ports
  all_host_ports [] = []
  all_host_ports ((name, svc) ∷ rest) = extract_host_ports svc ++ all_host_ports rest

  unfoldable pub wait_for_release : ℕ → Exec Bool
  unfolding all_host_ports
  wait_for_release timeout =
      wait_for_ports_released host.world (host.distinct (all_host_ports services)) timeout

  unfoldable pub restart : ℕ → Exec (Unit {0})
  restart timeout = do down; released ← wait_for_release timeout; up

module _ (world : World) (self_healing : Bool) (config : DockFleetConfig) where
  -- The session of handle_unhealthy_service that reads the row.
  unfoldable pub load_service : String → Exec (Option Service)
  load_service name s =
      if world.db_works s.steps
      then (ok (row name s.db), tick world s)
      else (raised "database error", tick world s)

  abbrev pub book_event : Option Service → String → Exec (Unit {0})
  book_event none reason = pure tt
  book_event (some svc) reason = session world (record_restart_event svc reason)

  abbrev pub after_heal : String → String → Option Restart → Exec (Unit {0})
  after_heal name reason (some done) = do
    session world (λ now. mark_restart_successful name)
    svc ← load_service name
    book_event svc reason
  after_heal name reason _ = pure tt

  unfoldable pub handle_unhealthy_service : String → String → Exec (Unit {0})
  handle_unhealthy_service name reason =
      if not self_healing
      then pure tt
      else try_except (restart_service world self_healing name config false >>= λ r. pure (some r))
          (λ e. mark_restart_failed world name e >> pure none)
        >>= after_heal name reason
