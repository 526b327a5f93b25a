-- ===== src/Health/Poll/Limits.antt =====
-- The limit of automatic restarts over the whole loop.
use dockfleet.Prelude.{
  ℕ, zero, suc, ◌≤◌, String, ◌≡◌, Bool, true, List, [], ◌∷◌, some, none, Dict, lookup,
}
use dockfleet.Cli.Config.{ServiceConfig, DockFleetConfig}
use dockfleet.Core.Exec.{World, Outcome, ok, raised}
use dockfleet.Health.Schedule.{due_services}
use dockfleet.Health.Scheduler.{Scheduler, attempts_of}
use dockfleet.Health.Scheduler.Limit.{pass_within_limit}
use dockfleet.Health.Poll.{Finish, run_due, turn_pass, sleep_after, go_on, poll}

module _ (world : World) (db_up : (n : ℕ) → world.db_works n ≡ true) (orchestrator_heals : Bool)
    (config : DockFleetConfig) (interval_seconds : ℕ) (name : String) (cfg : ServiceConfig)
    (limit : ℕ) (named : lookup name config.services ≡ some cfg)
    (max : cfg.max_restarts ≡ some limit) where
  Within : Scheduler → Type 0
  Within s = attempts_of name s ≤ limit

  turn_pass-Within :
      (finish : Finish) (next : Dict ℕ) (s : Scheduler)
      → Within s
      → Within (turn_pass world orchestrator_heals config interval_seconds finish next s).1
  unfolding Within
  turn_pass-Within finish [] s h =
      pass_within_limit world db_up orchestrator_heals config name cfg limit named max
        interval_seconds finish none s h
  turn_pass-Within finish (entry ∷ next) s h =
      go (due_services config.services (entry ∷ next) s.node.now)
    where
      go :
          (due : List String)
          → attempts_of name
              (run_due world orchestrator_heals config interval_seconds finish due s).1
            ≤ limit
      go [] = h
      go (k ∷ due) =
          pass_within_limit world db_up orchestrator_heals config name cfg limit named max
            interval_seconds finish (some (k ∷ due)) s h

  sleep_after-Within :
      (start : ℕ) (r : Outcome (List String)) (s : Scheduler)
      → Within s
      → Within (sleep_after world orchestrator_heals config interval_seconds start (r, s)).1
  unfolding Within
  sleep_after-Within start (raised e) s h = h
  sleep_after-Within start (ok names) s h = h

  go_on-Within :
      (rest : Scheduler → Scheduler)
      → ((s : Scheduler) → Within s → Within (rest s))
      → (r : Outcome (List String)) (s : Scheduler) → Within s
      → Within (go_on world orchestrator_heals config interval_seconds rest (r, s))
  go_on-Within rest keeps (raised e) s h = h
  go_on-Within rest keeps (ok names) s h = keeps s h

  poll-Within :
      (finish : ℕ → Finish) (k turns : ℕ) (s : Scheduler)
      → Within s
      → Within (poll world orchestrator_heals config interval_seconds finish k turns s)
  unfolding poll
  poll-Within finish k zero s h = h
  poll-Within finish k (suc turns) s h =
      go_on-Within (poll world orchestrator_heals config interval_seconds finish (suc k) turns)
        (poll-Within finish (suc k) turns) _ _
        (sleep_after-Within s.node.now _ _ (turn_pass-Within (finish k) s.next_check_at s h))

  -- While every database session works, the restarts that are counted for a service stay within its
  -- limit for as many turns of the loop as it makes, whatever the checks of each turn come to and in
  -- whatever order, if they were within it at the start.
  pub poll_within_limit :
      (finish : ℕ → Finish) (k turns : ℕ) (s : Scheduler)
      → attempts_of name s ≤ limit
      → attempts_of name (poll world orchestrator_heals config interval_seconds finish k turns s)
        ≤ limit
  unfolding Within
  poll_within_limit finish k turns s h = poll-Within finish k turns s h
