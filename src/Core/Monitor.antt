-- ===== src/Core/Monitor.antt =====
-- monitor_services of dockfleet/core/orchestrator.py. The output of docker is
-- given as its lines, each split at the tabs; `none` where the call raises.
use dockfleet.Prelude.{
  String, List, [], ◌∷◌, Option, none, some, if◌then◌else◌, codes, contains, Bool,
}
use dockfleet.Cli.Config.{DockFleetConfig}
use dockfleet.Core.Exec.{World, Exec, pure, raise, try_except, ◌>>◌}
use dockfleet.Core.Fleet.{handle_unhealthy_service}
use dockfleet.Core.Listing.{after_prefix}

module _ (world : World) (self_healing : Bool) (config : DockFleetConfig) where
  abbrev pub handle_named : Option String → Exec (Unit {0})
  handle_named none = pure tt
  handle_named (some name) =
      handle_unhealthy_service world self_healing config name "health failure"

  -- A line: a container of the program whose status says that it has exited is handled.
  unfoldable pub monitor_line : List String → Exec (Unit {0})
  unfolding after_prefix contains
  monitor_line [] = pure tt
  monitor_line (name ∷ []) = pure tt
  monitor_line (name ∷ status ∷ rest) =
      if contains (codes "Exited") (codes status)
      then handle_named (after_prefix "dockfleet_" name)
      else pure tt

  unfoldable pub monitor_lines : List (List String) → Exec (Unit {0})
  monitor_lines [] = pure tt
  monitor_lines (parts ∷ lines) = do monitor_line parts; monitor_lines lines

  abbrev pub lines_or_error : Option (List (List String)) → Exec (Unit {0})
  lines_or_error none = raise "docker"
  lines_or_error (some lines) = monitor_lines lines

  unfoldable pub monitor_services : Option (List (List String)) → Exec (Unit {0})
  monitor_services lines = try_except (lines_or_error lines) (λ e. pure tt)
