-- ===== src/Core/Instance.antt =====
-- The instance of the orchestrator that the process shares, in dockfleet/core/orchestrator.py:
-- get_orchestrator, _warn_on_mismatch and reset_orchestrator, each of which runs under one lock.
-- `same_config` is the equality of pydantic models.
pub mod Fixed
use dockfleet.Prelude.{
  String, Bool, true, false, not, List, [], ◌∷◌, ◌++◌, Option, none, some, if◌then◌else◌,
}
use dockfleet.Cli.Config.{DockFleetConfig}

pub record Instance : Type 0 where
  pub config : DockFleetConfig
  pub self_healing : Bool

-- DockFleetConfig(services={})
abbrev pub empty_config : DockFleetConfig
empty_config = record { self_healing = true; services = [] }

unfoldable pub config_or_empty : Option DockFleetConfig → DockFleetConfig
config_or_empty none = empty_config
config_or_empty (some config) = config

-- `none` is `_UNSET`.
unfoldable pub resolved : Option Bool → Bool
resolved none = true
resolved (some self_healing) = self_healing

unfoldable pub same_flag : Bool → Bool → Bool
same_flag true b = b
same_flag false b = not b

module _ (same_config : DockFleetConfig → DockFleetConfig → Bool) where
  abbrev pub config_change : Option DockFleetConfig → Instance → List String
  config_change none orch = []
  config_change (some config) orch = if same_config config orch.config then [] else "config" ∷ []

  abbrev pub healing_change : Option Bool → Instance → List String
  unfolding same_flag
  healing_change none orch = []
  healing_change (some healing) orch =
      if same_flag healing orch.self_healing then [] else "self_healing" ∷ []

  -- The changes that _warn_on_mismatch names.
  unfoldable pub mismatches : Instance → Option DockFleetConfig → Option Bool → List String
  unfolding healing_change
  mismatches orch config self_healing =
      config_change config orch ++ healing_change self_healing orch

  -- A call: the instance that it returns, and the changes that it warns of.
  unfoldable pub get_orchestrator :
      Option DockFleetConfig → Option Bool → Option Instance → Instance × List String
  unfolding mismatches config_or_empty resolved
  get_orchestrator config self_healing none =
      (record { config = config_or_empty config; self_healing = resolved self_healing }, [])
  get_orchestrator config self_healing (some orch) = (orch, mismatches orch config self_healing)

  -- The calls of a process, one after the other: the instances that they return.
  unfoldable pub calls :
      List (Option DockFleetConfig × Option Bool) → Option Instance → List Instance
  unfolding get_orchestrator
  calls [] shared = []
  calls ((config, self_healing) ∷ rest) shared =
      let orch = (get_orchestrator config self_healing shared).0 in orch ∷ calls rest (some orch)

unfoldable pub reset_orchestrator : Option Instance → Option Instance
reset_orchestrator shared = none
