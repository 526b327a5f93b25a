-- ===== src/Health/Poll.antt =====
-- The loop of HealthScheduler._poll in dockfleet/health/scheduler.py. A turn takes the time that its
-- pass takes, and then sleeps.
pub mod Limits
use dockfleet.Prelude.{ℕ, zero, suc, ◌+◌, ◌-◌, String, Bool, List, [], ◌∷◌, none, some, Dict}
use dockfleet.Cli.Config.{HealthCheckConfig, DockFleetConfig}
use dockfleet.Core.Exec.{World, Outcome, ok, raised}
use dockfleet.Health.Schedule.{due_services, next_sleep}
use dockfleet.Health.Scheduler.{Scheduler, run_single_pass}

-- What the checks of a pass that were submitted come to, in the order in which they end.
abbrev pub Finish : Type 0
Finish = List (String × HealthCheckConfig) → List (String × Outcome Bool)

module _ (world : World) (orchestrator_heals : Bool) (config : DockFleetConfig)
    (interval_seconds : ℕ) where
  abbrev pub run_due : Finish → List String → Scheduler → Outcome (List String) × Scheduler
  run_due finish [] s = (ok [], s)
  run_due finish (name ∷ due) s =
      run_single_pass world orchestrator_heals config interval_seconds finish (some (name ∷ due)) s

  -- The pass of a turn: without deadlines it checks all services, else those that are due.
  abbrev pub turn_pass : Finish → Dict ℕ → Scheduler → Outcome (List String) × Scheduler
  turn_pass finish [] s =
      run_single_pass world orchestrator_heals config interval_seconds finish none s
  turn_pass finish (entry ∷ deadlines) s =
      run_due finish (due_services config.services (entry ∷ deadlines) s.node.now) s

  abbrev pub sleep_after : ℕ → Outcome (List String) × Scheduler → Outcome (List String) × Scheduler
  sleep_after start (raised e, s) = (raised e, s)
  sleep_after start (ok names, s) =
      let asleep =
        next_sleep config.services interval_seconds s.next_check_at (s.node.now - start)
          s.node.now in
      (ok names, record s { node = record s.node { now = s.node.now + asleep } })

  unfoldable pub poll_turn : Finish → Scheduler → Outcome (List String) × Scheduler
  unfolding next_sleep due_services
  poll_turn finish s = sleep_after s.node.now (turn_pass finish s.next_check_at s)

  -- The state after `turns` turns, the first of which has the number `k`, if the loop is stopped then; an
  -- exception ends it before. The checks of each turn come to results of their own.
  abbrev pub go_on : (Scheduler → Scheduler) → Outcome (List String) × Scheduler → Scheduler
  go_on rest (raised e, s) = s
  go_on rest (ok names, s) = rest s

  unfoldable pub poll : (ℕ → Finish) → ℕ → ℕ → Scheduler → Scheduler
  unfolding poll_turn
  poll finish k zero s = s
  poll finish k (suc turns) s = go_on (poll finish (suc k) turns) (poll_turn (finish k) s)
