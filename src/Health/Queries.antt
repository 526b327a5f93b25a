-- ===== src/Health/Queries.antt =====
-- dockfleet/health/queries.py and dockfleet/health/metrics.py: what the dashboard reads from the tables.
pub mod Tally
pub mod Manual
pub mod Unstable
use dockfleet.Prelude.{
  ℕ, suc, ◌+◌, ◌-◌, ◌*◌, String, ◌==◌, Bool, true, false, not, ◌&&◌, ◌||◌, List, [], ◌∷◌, map,
  Option, none, some, Dict, lookup, put, eqb, leb, ltb, if◌then◌else◌, codes, lower, contains,
  filter, sort_by, length, take, max,
}
use dockfleet.Health.Models.{Service, RestartEvent, Db, ContainerStatus, running, container_value}
use dockfleet.Health.Models.Rows.{row}

-- get_all_services
unfoldable pub get_all_services : Db → List Service
get_all_services db = db.services

-- The entry of a service for the dashboard.
pub record ServiceEntry : Type 0 where
  pub name : String
  pub status : ContainerStatus
  pub restart_count : ℕ
  pub last_health_check : Option ℕ
  pub consecutive_failures : ℕ
  pub last_failure_reason : Option String
  pub image : String
  pub ports : Option String
  pub restart_policy : String
  pub resources_memory : Option String
  pub resources_cpu : Option String
  pub env : Option String
  pub depends_on : Option String

unfoldable pub entry_of : Service → ServiceEntry
entry_of svc = record {
  name = svc.name;
  status = svc.status;
  restart_count = svc.restart_count;
  last_health_check = svc.last_health_check;
  consecutive_failures = svc.consecutive_failures;
  last_failure_reason = svc.last_failure_reason;
  image = svc.image;
  ports = svc.ports_raw;
  restart_policy = svc.restart_policy;
  resources_memory = svc.resources_memory;
  resources_cpu = svc.resources_cpu;
  env = svc.env_raw;
  depends_on = svc.depends_on_raw;
}

unfoldable pub get_services_for_dashboard : Db → List ServiceEntry
unfolding entry_of get_all_services
get_services_for_dashboard db = map entry_of (get_all_services db)

-- The runtime statistics of a container, each of which may be missing.
pub record Stats : Type 0 where
  pub cpu : Option ℕ
  pub memory : Option ℕ
  pub uptime : Option ℕ

abbrev pub no_stats : Stats
no_stats = record { cpu = none; memory = none; uptime = none }

unfoldable pub stats_of : Option Stats → Stats
stats_of none = no_stats
stats_of (some stats) = stats

unfoldable pub get_services_for_dashboard_with_stats : Dict Stats → Db → List (ServiceEntry × Stats)
unfolding get_services_for_dashboard stats_of lookup
get_services_for_dashboard_with_stats stats_by_name db =
    map (λ svc. (svc, stats_of (lookup svc.name stats_by_name))) (get_services_for_dashboard db)

-- `counts.get(key, 0) + 1`
unfoldable pub one_more : Option ℕ → ℕ
one_more none = 1
one_more (some n) = suc n

-- The loops that count: `counts[key] = counts.get(key, 0) + 1`, and that of Counter.
unfoldable pub count_each : Dict ℕ → List String → Dict ℕ
unfolding put lookup one_more
count_each counts [] = counts
count_each counts (key ∷ keys) = count_each (put key (one_more (lookup key counts)) counts) keys

unfoldable pub get_status_counts : Db → Dict ℕ
unfolding count_each get_all_services container_value
get_status_counts db = count_each [] (map (λ svc. container_value svc.status) (get_all_services db))

-- The categories of crash analytics.
unfoldable pub normalize_failure_reason : Option String → String
unfolding contains lower
normalize_failure_reason none = "other"
normalize_failure_reason (some raw) =
    let text = lower (codes raw) in
    if contains (codes "3_failed_health_checks") text || contains (codes "health_check") text
    then "healthcheck_timeout"
    else if contains (codes "auto-restart failed") text || contains (codes "crash") text
    then "crash_loop"
    else if contains (codes "manual_dashboard_restart") text || contains (codes "manual") text
    then "manual_restart"
    else "other"

abbrev pub hour : ℕ
hour = 3600000

-- `where(service_id == svc.id).where(restarted_at >= since)`
unfoldable pub in_window : ℕ → ℕ → RestartEvent → Bool
in_window service_id since ev = eqb ev.service_id service_id && leb since ev.restarted_at

-- The reasons, as the loop sees them.
unfoldable pub categories : ℕ → ℕ → List RestartEvent → List String
unfolding in_window normalize_failure_reason filter
categories service_id since events =
    map (λ ev. normalize_failure_reason (some ev.reason))
      (filter (in_window service_id since) events)

-- `since` is the present time less the hours of the window.
unfoldable pub get_failure_reasons_breakdown : String → ℕ → ℕ → Db → Dict ℕ
unfolding categories count_each
get_failure_reasons_breakdown service_name now window_hours db = elim (row service_name db) [
  | none ↦ []
  | some svc ↦ count_each [] (categories svc.id (now - window_hours * hour) db.events)
]

-- An entry of the history.
pub record HistoryEntry : Type 0 where
  pub timestamp : ℕ
  pub reason : String
  pub previous_status : Option String
  pub new_status : Option String

unfoldable pub history_entry : RestartEvent → HistoryEntry
history_entry ev = record {
  timestamp = ev.restarted_at;
  reason = ev.reason;
  previous_status = ev.previous_status;
  new_status = ev.new_status;
}

-- The latest first; where the times are equal, in the order of the table.
unfoldable pub later : RestartEvent → RestartEvent → Bool
later a b = leb b.restarted_at a.restarted_at

unfoldable pub since_or_all : Option ℕ → RestartEvent → Bool
since_or_all none ev = true
since_or_all (some since) ev = leb since ev.restarted_at

unfoldable pub get_restart_history : String → Option ℕ → Db → List HistoryEntry
unfolding history_entry filter since_or_all sort_by later
get_restart_history service_name since db = elim (row service_name db) [
  | none ↦ []
  | some svc ↦ map history_entry (
      sort_by later
        (filter (since_or_all since) (filter (λ ev. eqb ev.service_id svc.id) db.events)))
]

-- `sum(...)` over the rows of the services
unfoldable pub sum_of : (Service → ℕ) → List Service → ℕ
sum_of f [] = 0
sum_of f (svc ∷ rows) = f svc + sum_of f rows

unfoldable pub get_total_restarts : Db → ℕ
unfolding sum_of
get_total_restarts db = sum_of (λ svc. svc.restart_count) db.services

unfoldable pub is_running : ContainerStatus → ℕ
is_running running = 1
is_running _ = 0

unfoldable pub get_running_services_count : Db → ℕ
unfolding sum_of is_running
get_running_services_count db = sum_of (λ svc. is_running svc.status) db.services

unfoldable pub get_health_failures_count : Db → ℕ
unfolding sum_of
get_health_failures_count db = sum_of (λ svc. svc.consecutive_failures) db.services
