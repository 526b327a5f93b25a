-- ===== src/Health/Scheduler.antt =====
-- HealthScheduler of dockfleet/health/scheduler.py: one pass of checks, and the
-- automatic restarts behind it. Times are thousandths of a second on the clock of the process.
-- An exception that the pass catches and logs leaves the state as it was when it was raised.
pub mod Limit
use dockfleet.Prelude.{
  ℕ, zero, suc, ◌+◌, ◌*◌, ◌-◌, ◌/◌, ◌^◌, String, Bool, true, false, not, ◌&&◌, ◌||◌, List, [], ◌∷◌,
  ◌++◌, Option, none, some, Dict, lookup, put, pop, keys, member, leb, ltb, min, max, if◌then◌else◌,
}
use dockfleet.Cli.Config.{ServiceConfig, HealthCheckConfig, DockFleetConfig}
use dockfleet.Health.Models.{Service, Db}
use dockfleet.Health.Models.Rows.{find, row}
use dockfleet.Health.Status.{
  is_stopped, needs_restart, update_service_health, mark_restart_successful, record_restart_event,
}
use dockfleet.Health.Schedule.{set_deadlines, is_selected}
use dockfleet.Core.Exec.{World, Node, Exec, Outcome, ok, raised, session, tick, ◌>>=◌, ◌>>◌}
use dockfleet.Core.Orchestrator.{
  Restart, done, refused, in_progress, restart_service, mark_restart_failed,
}

-- The attributes of the scheduler that change, beside the state of the process.
pub record Scheduler : Type 0 where
  pub node : Node
  pub restart_attempts : Dict ℕ
  pub next_restart_at : Dict ℕ
  pub next_check_at : Dict ℕ

abbrev pub or_zero : Option ℕ → ℕ
or_zero none = 0
or_zero (some n) = n

-- self._restart_attempts.get(name, 0)
abbrev pub attempts_of : String → Scheduler → ℕ
attempts_of name s = or_zero (lookup name s.restart_attempts)

-- `db_statuses.get(name)` is STOPPED
abbrev pub has_stopped : Option Service → Bool
has_stopped none = false
has_stopped (some svc) = is_stopped svc.status

-- The checks that the loop submits to the thread pool.
unfoldable pub submitted :
    Dict ServiceConfig → Option (List String) → List Service → List (String × HealthCheckConfig)
unfolding find member
submitted [] selected rows = []
submitted ((name, svc) ∷ rest) selected rows =
    let others = submitted rest selected rows in
    elim svc.healthcheck [
      | none ↦ others
      | some hc ↦
          if is_selected selected name && not (has_stopped (find name rows))
          then (name, hc) ∷ others
          else others
    ]

-- Self-healing of a service, else of the configuration.
abbrev pub heals : DockFleetConfig → ServiceConfig → Bool
heals config svc = elim svc.self_healing [ none ↦ config.self_healing | some own ↦ own ]

abbrev pub is_exhausted : Option ℕ → ℕ → Bool
is_exhausted none attempts = false
is_exhausted (some limit) attempts = leb limit attempts

-- `backoff_seconds * (multiplier ** restart_attempts)`, for a multiplier in thousandths
abbrev pub multiplier_of : Option ℕ → ℕ
multiplier_of none = 1000
multiplier_of (some m) = m

unfoldable pub backoff_delay : ℕ → Option ℕ → ℕ → ℕ
backoff_delay seconds multiplier attempts =
    seconds * multiplier_of multiplier ^ attempts / 1000 ^ attempts

-- Whether the restart has to wait, and the state with the time that was set.
unfoldable pub backoff : String → ServiceConfig → ℕ → Scheduler → Bool × Scheduler
unfolding backoff_delay lookup put
backoff name svc attempts s = elim svc.backoff_seconds [
  | none ↦ (false, s)
  | some seconds ↦
      let delay = backoff_delay seconds svc.backoff_multiplier attempts in
      elim (lookup name s.next_restart_at) [
        | none ↦ (
          ltb 0 delay,
          record s { next_restart_at = put name (s.node.now + delay) s.next_restart_at },
        )
        | some time ↦ (ltb s.node.now time, s)
      ]
]

abbrev pub set_attempts : String → ℕ → Scheduler → Scheduler
set_attempts name attempts s = record s {
  restart_attempts = put name attempts s.restart_attempts;
  next_restart_at = pop name s.next_restart_at;
}

abbrev pub on_node : {A : Type 0} → Exec A → Scheduler → Outcome A × Scheduler
on_node m s = let (r, node) = m s.node in (r, record s { node = node })

module _ (world : World) where
  -- The two sessions behind a successful restart.
  abbrev pub book_restart : Service → Exec (Unit {0})
  book_restart svc = do
    session world (λ now. mark_restart_successful svc.name)
    session world (record_restart_event svc "3_failed_health_checks")

  -- `except Exception` of _handle_post_health, with the attempts counted so far
  abbrev pub after_error : String → Service → ℕ → String → Scheduler → Scheduler
  after_error name svc attempts e s =
      (on_node (mark_restart_failed world svc.name e) (set_attempts name (attempts + 1) s)).1

  abbrev pub after_booking : String → Service → ℕ → Outcome (Unit {0}) × Scheduler → Scheduler
  after_booking name svc attempts (ok t, s) = s
  after_booking name svc attempts (raised e, s) = after_error name svc attempts e s

  -- The rest of the `try`, on what the orchestrator answered.
  abbrev pub after_restart : String → Service → ℕ → Outcome Restart × Scheduler → Scheduler
  after_restart name svc attempts (ok in_progress, s) = s
  after_restart name svc attempts (ok refused, s) = set_attempts name (attempts + 1) s
  after_restart name svc attempts (ok done, s) =
      after_booking name svc (attempts + 1)
        (on_node (book_restart svc) (set_attempts name (attempts + 1) s))
  after_restart name svc attempts (raised e, s) = after_error name svc attempts e s

-- The row that the session of _handle_post_health loads; a session that fails raises.
unfoldable pub load_row : World → String → Scheduler → Outcome (Option Service) × Scheduler
unfolding find
load_row world name s =
    let s' = record s { node = tick world s.node } in
    if world.db_works s.node.steps
    then (ok (row name s.node.db), s')
    else (raised "database error", s')

module _ (world : World) (orchestrator_heals : Bool) (config : DockFleetConfig) where
  -- What follows the tests of _handle_post_health.
  unfoldable pub try_restart : String → ServiceConfig → Service → Scheduler → Scheduler
  unfolding backoff pop lookup
  try_restart name cfg svc s =
      let attempts = attempts_of name s in
      let (waits, s') = backoff name cfg attempts s in
      if is_exhausted cfg.max_restarts attempts
      then s
      else if waits
      then s'
      else after_restart world name svc attempts
          (on_node (restart_service world orchestrator_heals svc.name config true) s')

  abbrev pub on_row_loaded :
      String → ServiceConfig → Outcome (Option Service) × Scheduler → Scheduler
  on_row_loaded name cfg (raised e, s) = s
  on_row_loaded name cfg (ok none, s) = s
  on_row_loaded name cfg (ok (some svc), s) =
      if needs_restart svc then try_restart name cfg svc s else s

  unfoldable pub handle_post_health : String → Scheduler → Scheduler
  unfolding load_row try_restart
  handle_post_health name s = elim (lookup name config.services) [
    | none ↦ s
    | some cfg ↦ if heals config cfg then on_row_loaded name cfg (load_row world name s) else s
  ]

  -- A result of the pool; `results[name] = ok` is the entry that is kept.
  abbrev pub clear_restarts : String → Bool → Scheduler → Scheduler
  clear_restarts name false s = s
  clear_restarts name true s = record s {
    restart_attempts = pop name s.restart_attempts;
    next_restart_at = pop name s.next_restart_at;
  }

  abbrev pub reason_of : Bool → Option String
  reason_of true = none
  reason_of false = some "health check failed"

  unfoldable pub process_result : String → Outcome Bool → Scheduler → Scheduler
  unfolding pop
  process_result name (raised e) s = s
  process_result name (ok passed) s =
      (on_node (session world (update_service_health name passed (reason_of passed)))
        (clear_restarts name passed s)).1

  unfoldable pub process_results : List (String × Outcome Bool) → Scheduler → Scheduler
  unfolding process_result
  process_results [] s = s
  process_results ((name, result) ∷ rest) s = process_results rest (process_result name result s)

  -- The keys of `results`.
  unfoldable pub checked_names : List (String × Outcome Bool) → List String
  checked_names [] = []
  checked_names ((name, ok passed) ∷ rest) = name ∷ checked_names rest
  checked_names ((name, raised e) ∷ rest) = checked_names rest

  unfoldable pub handle_all : List String → Scheduler → Scheduler
  unfolding handle_post_health
  handle_all [] s = s
  handle_all (name ∷ names) s = handle_all names (handle_post_health name s)

  -- run_single_pass. `finish` is the thread pool: how the submitted checks end, and in which order.
  -- The first session is outside of every `try`.
  unfoldable pub run_single_pass :
      ℕ
      → (List (String × HealthCheckConfig) → List (String × Outcome Bool))
      → Option (List String)
      → Scheduler
      → Outcome (List String) × Scheduler
  unfolding submitted set_deadlines process_results checked_names handle_all
  run_single_pass default finish selected s =
      let base = s.node.now in
      let after = record s { node = tick world s.node } in
      if world.db_works s.node.steps
      then (let results = finish (submitted config.services selected s.node.db.services) in
          let ready = record after {
            next_check_at = set_deadlines config.services selected default base s.next_check_at;
          } in
          (
            ok (checked_names results),
            handle_all (checked_names results) (process_results results ready),
          ))
      else (raised "database error", after)
