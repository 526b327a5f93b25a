-- ===== src/Health/Schedule.antt =====
-- The times of HealthScheduler in dockfleet/health/scheduler.py: which services are due, how long the
-- loop sleeps, and the deadlines that a pass sets. Times are thousandths of a second.
pub mod Deadlines
pub mod Sleep
use dockfleet.Prelude.{
  ℕ, zero, suc, ◌+◌, ◌*◌, ◌-◌, ◌/◌, ◌^◌, String, Bool, true, false, not, ◌&&◌, ◌||◌, List, [], ◌∷◌,
  ◌++◌, Option, none, some, Dict, lookup, put, pop, keys, member, leb, ltb, min, max, if◌then◌else◌,
}
use dockfleet.Cli.Config.{ServiceConfig, HealthCheckConfig}

abbrev pub second : ℕ
second = 1000

-- _due_services
unfoldable pub is_due : Dict ℕ → ℕ → String → ServiceConfig → Bool
unfolding lookup
is_due next_check_at now name svc = elim svc.healthcheck [
  | none ↦ false
  | some hc ↦ elim (lookup name next_check_at) [ none ↦ true | some deadline ↦ leb deadline now ]
]

unfoldable pub due_services : Dict ServiceConfig → Dict ℕ → ℕ → List String
unfolding is_due
due_services [] next_check_at now = []
due_services ((name, svc) ∷ rest) next_check_at now =
    let others = due_services rest next_check_at now in
    if is_due next_check_at now name svc then name ∷ others else others

-- The recorded deadlines of the services of the configuration.
unfoldable pub deadlines : List String → Dict ℕ → List ℕ
unfolding lookup
deadlines [] next_check_at = []
deadlines (name ∷ names) next_check_at = elim (lookup name next_check_at) [
  | none ↦ deadlines names next_check_at
  | some deadline ↦ deadline ∷ deadlines names next_check_at
]

unfoldable pub earliest : ℕ → List ℕ → ℕ
earliest first [] = first
earliest first (t ∷ rest) = earliest (min first t) rest

-- _next_sleep_seconds; a difference that would be negative is 0, as `max(0.0, ...)` makes it
unfoldable pub next_sleep : Dict ServiceConfig → ℕ → Dict ℕ → ℕ → ℕ → ℕ
unfolding deadlines earliest
next_sleep services interval_seconds next_check_at elapsed now =
    elim (deadlines (keys services) next_check_at) [
      | [] ↦ interval_seconds * second - elapsed
      | first ∷ rest ↦ min (earliest first rest - now) (max second (interval_seconds * second))
    ]

-- `hc.interval if hc.interval is not None else self.interval_seconds`
abbrev pub interval_of : ℕ → HealthCheckConfig → ℕ
interval_of default hc = elim hc.interval [ none ↦ default | some seconds ↦ seconds ]

-- `selected is not None and name not in selected` skips the service
abbrev pub is_selected : Option (List String) → String → Bool
is_selected none name = true
is_selected (some names) name = member name names

-- One turn of the first loop of run_single_pass, as far as it sets the deadline.
unfoldable pub set_deadline :
    String → ServiceConfig → Option (List String) → ℕ → ℕ → Dict ℕ → Dict ℕ
unfolding put member
set_deadline name svc selected default base next_check_at = elim svc.healthcheck [
  | none ↦ next_check_at
  | some hc ↦
      if is_selected selected name
      then put name (base + interval_of default hc * second) next_check_at
      else next_check_at
]

unfoldable pub set_deadlines : Dict ServiceConfig → Option (List String) → ℕ → ℕ → Dict ℕ → Dict ℕ
unfolding set_deadline
set_deadlines [] selected default base next_check_at = next_check_at
set_deadlines ((name, svc) ∷ rest) selected default base next_check_at =
    set_deadlines rest selected default base
      (set_deadline name svc selected default base next_check_at)
