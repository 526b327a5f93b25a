-- ===== src/Core/Instance/Fixed.antt =====
-- The calls between two resets get one instance.
use dockfleet.Prelude.{◌≡◌, refl, Bool, List, [], ◌∷◌, Option, some, none, All}
use dockfleet.Cli.Config.{DockFleetConfig}
use dockfleet.Core.Instance.{Instance, get_orchestrator, calls}

module _ (same_config : DockFleetConfig → DockFleetConfig → Bool) where
  calls_share :
      (orch : Instance) (rest : List (Option DockFleetConfig × Option Bool))
      → All (λ other. other ≡ orch) (calls same_config rest (some orch))
  unfolding calls get_orchestrator
  calls_share orch [] = tt
  calls_share orch (call ∷ rest) = (refl, calls_share orch rest)

  -- Whatever the later calls pass, they get the instance of the first.
  pub calls_fixed :
      (config : Option DockFleetConfig) (self_healing : Option Bool)
      (rest : List (Option DockFleetConfig × Option Bool))
      → All
          (λ other. other ≡ (get_orchestrator same_config config self_healing none).0)
          (calls same_config ((config, self_healing) ∷ rest) none)
  unfolding calls
  calls_fixed config self_healing rest =
      (refl, calls_share (get_orchestrator same_config config self_healing none).0 rest)
