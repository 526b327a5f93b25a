-- ===== src/Core/Orchestrator.antt =====
-- The class Orchestrator of dockfleet/core/orchestrator.py: starting, stopping and restarting one
-- service. What is logged or printed is not modelled.
pub mod Quiet
pub mod Guard
pub mod Refusals
pub mod Restarted
pub mod Rows
use dockfleet.Prelude.{
  ℕ, ◌+◌, String, cat, ◌==◌, Bool, true, false, not, ◌&&◌, ◌||◌, List, [], ◌∷◌, ◌++◌, reverse,
  Option, none, some, Dict, lookup, keys, member, discard, if◌then◌else◌,
}
use dockfleet.Cli.Config.{ServiceConfig, DockFleetConfig, RestartPolicy, always, on_failure, never}
use dockfleet.Health.Models.{Service, Db, unknown, crashed, restarting, HealthStatus}
use dockfleet.Health.Models.Rows.{on_row}
use dockfleet.Health.Status.{mark_service_running, mark_service_stopped}
use dockfleet.Core.Exec.{
  World, Node, Exec, Outcome, ok, raised, pure, raise, gets, modify, ◌>>=◌, ◌>>◌, try_except,
  try_finally, run, session,
}
use dockfleet.Core.Docker.{
  within, within_lower, build_port_flags, build_env_flags, build_resource_flags, remove_container,
  stop_container, run_container, create_network,
}
use dockfleet.Core.Ports.{Binding, extract_host_ports, wait_for_ports_released}

-- Orchestrator.container_name, and get_container_name
abbrev pub container_name : String → String
container_name service = cat "dockfleet_" service

abbrev pub network : String
network = "dockfleet_net"

-- five seconds
abbrev pub release_timeout : ℕ
release_timeout = 5000

-- _mark_restart_failed, on the row
unfoldable pub restart_failed : String → Service → Service
restart_failed reason svc = record svc {
  status = unknown;
  health_status = crashed;
  last_failure_reason = some (cat "auto-restart failed: " reason);
}

unfoldable pub mark_restarting : Service → Service
mark_restarting svc = record svc { health_status = restarting }

abbrev is_restarting : HealthStatus → Bool
is_restarting restarting = true
is_restarting _ = false

-- what the outermost handler of restart_service writes
unfoldable pub clear_restarting : Service → Service
clear_restarting svc =
    if is_restarting svc.health_status then record svc { health_status = crashed } else svc

unfoldable pub count_restart : Service → Service
count_restart svc = record svc { restart_count = svc.restart_count + 1 }

-- "No such" or "not found" in the message of an error
unfoldable pub is_absent : String → Bool
unfolding within within_lower
is_absent e = within "No such" e || within_lower "not found" e

module _ (world : World) where
  -- `except Exception: pass`
  abbrev pub ignore_errors : Exec (Unit {0}) → Exec (Unit {0})
  ignore_errors m = try_except m (λ e. pure tt)

  abbrev pub wait_for_ports : ServiceConfig → Exec (Unit {0})
  wait_for_ports svc =
      wait_for_ports_released world (extract_host_ports svc) release_timeout >>= λ released. pure tt

  abbrev pub docker_flags : ServiceConfig → List String
  docker_flags svc = build_port_flags svc ++ (build_env_flags svc ++ build_resource_flags svc)

  -- The body of the `try` of start_service.
  abbrev pub launch : String → ServiceConfig → Exec Bool
  launch name svc = do
    ignore_errors (remove_container world (container_name name))
    if svc.image == "" then raise (cat "Service '" (cat name "' missing 'image'")) else pure tt
    wait_for_ports svc
    run_container world svc.image (container_name name) (docker_flags svc) network
    session world (λ now. mark_service_running name now)
    pure true

  unfoldable pub start_service : String → ServiceConfig → Exec Bool
  start_service name svc = try_except (launch name svc) (λ e. pure false)

  -- `except Exception as e: if "No such" not in str(e) and ...: raise e`
  abbrev pub unless_absent : Exec (Unit {0}) → Exec (Unit {0})
  unless_absent m = try_except m (λ e. if is_absent e then pure tt else raise e)

  unfoldable pub stop_service : String → Exec Bool
  stop_service name =
      try_except
        (do
          unless_absent (stop_container world (container_name name))
          unless_absent (remove_container world (container_name name))
          session world (λ now. mark_service_stopped name)
          pure true)
        (λ e. pure false)

  -- _mark_restart_failed
  unfoldable pub mark_restart_failed : String → String → Exec (Unit {0})
  mark_restart_failed name reason =
      ignore_errors (session world (λ now. on_row name (restart_failed reason)))

  unfoldable pub increment_restart_count : String → Exec (Unit {0})
  increment_restart_count name = ignore_errors (session world (λ now. on_row name count_restart))

  abbrev pub finish_start : String → Bool → Exec Bool
  finish_start name true = do increment_restart_count name; pure true
  finish_start name false = do mark_restart_failed name "start_service returned False"; pure false

  -- `except Exception as e` around the start
  abbrev pub failed_start : String → String → Exec Bool
  failed_start name e = do mark_restart_failed name e; pure false

  -- The body of the outer `try` of restart_service.
  unfoldable pub replace_container : String → ServiceConfig → Exec Bool
  replace_container name svc = do
    session world (λ now. on_row name mark_restarting)
    run world ("docker" ∷ "stop" ∷ container_name name ∷ [])
    ignore_errors (remove_container world (container_name name))
    wait_for_ports svc
    try_except (start_service name svc >>= finish_start name) (failed_start name)

  -- `except Exception as e` of the outer `try`
  abbrev pub give_up : String → String → Exec Bool
  give_up name e = do ignore_errors (session world (λ now. on_row name clear_restarting)); raise e

  abbrev pub add_active : String → Node → Node
  add_active name s = record s { active = name ∷ s.active }

  abbrev pub drop_active : String → Node → Node
  drop_active name s = record s { active = discard name s.active }

  -- The part of restart_service from `self._active_restarts.add` on.
  unfoldable pub guarded_restart : String → ServiceConfig → Exec Bool
  guarded_restart name svc = do
    modify (add_active name)
    try_finally (try_except (replace_container name svc) (give_up name)) (drop_active name)

-- `True`, `False` and `None` of restart_service
pub data Restart : Type 0 where
  done refused in_progress : Restart

abbrev pub is_never : RestartPolicy → Bool
is_never never = true
is_never _ = false

abbrev pub to_restart : Bool → Restart
to_restart true = done
to_restart false = refused

module _ (world : World) (self_healing : Bool) where
  abbrev pub restart_known : String → ServiceConfig → Bool → List String → Exec Restart
  restart_known name svc detailed active =
      if is_never svc.restart
      then pure refused
      else if member name active
      then pure (if detailed then in_progress else refused)
      else guarded_restart world name svc >>= λ started. pure (to_restart started)

  unfoldable pub restart_service : String → DockFleetConfig → Bool → Exec Restart
  restart_service name config detailed =
      if not self_healing then pure refused else elim (lookup name config.services) [
        | none ↦ pure refused
        | some svc ↦ gets (λ s. s.active) >>= restart_known name svc detailed
      ]
