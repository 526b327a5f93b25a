-- ===== src/Core/Orchestrator/Refusals.antt =====
-- The restarts that are refused.
use dockfleet.Prelude.{
  String, ◌≡◌, refl, Bool, true, false, ◌⊎◌, inl, inr, none, some, lookup, member, if◌then◌else◌,
}
use dockfleet.Cli.Config.{ServiceConfig, DockFleetConfig}
use dockfleet.Core.Exec.{World, Node, ok, pure, gets, ◌>>=◌}
use dockfleet.Core.Orchestrator.{refused, in_progress, is_never, restart_service}

-- What keeps a restart from being tried, before the set of active restarts is looked at.
abbrev pub Forbids : Bool → String → DockFleetConfig → Type 0
Forbids self_healing name config =
    (self_healing ≡ false)
    ⊎ ((lookup name config.services ≡ none)
        ⊎ ((svc : ServiceConfig) × (lookup name config.services ≡ some svc)
            × (is_never svc.restart ≡ true)))

-- A restart is refused, and then nothing at all changes and no command is run, if self-healing is
-- off, if the configuration lacks the service, or if its restart policy is never.
pub restart_forbidden :
    (world : World) (self_healing : Bool) (name : String) (config : DockFleetConfig)
    (detailed : Bool) (s : Node)
    → Forbids self_healing name config
    → restart_service world self_healing name config detailed s ≡ (ok refused, s)
unfolding restart_service gets ◌>>=◌ pure
restart_forbidden world false name config detailed s f = refl
restart_forbidden world true name config detailed s (inl f) = cc
restart_forbidden world true name config detailed s (inr (inl gone)) =
    rw (gone, restart_service) refl
restart_forbidden world true name config detailed s (inr (inr (svc, found, denied))) =
    rw (found, restart_service) (rw denied refl)

-- While a restart of the service is under way, with self-healing on and a policy other than never, a
-- second restart changes nothing and runs no command, and its result is told apart from a refusal
-- exactly when the caller asked for that.
pub restart_in_progress :
    (world : World) (name : String) (config : DockFleetConfig) (detailed : Bool) (s : Node)
    (svc : ServiceConfig)
    → lookup name config.services ≡ some svc
    → is_never svc.restart ≡ false
    → member name s.active ≡ true
    → restart_service world true name config detailed s
      ≡ (ok (if detailed then in_progress else refused), s)
unfolding restart_service gets ◌>>=◌ pure
restart_in_progress world name config detailed s svc found allowed active =
    rw (found, restart_service) (rw (allowed, active) refl)
