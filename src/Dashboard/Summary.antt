-- ===== src/Dashboard/Summary.antt =====
-- The counts of dockfleet/dashboard/routes.py: system_status, get_metrics and analytics_summary.
-- `now` is the reading of the clock. The answer carries the time as text, which is left out.
pub mod Agree
use dockfleet.Prelude.{
  ℕ, suc, ◌+◌, ◌-◌, ◌*◌, String, ◌==◌, Bool, true, false, not, ◌&&◌, ◌||◌, List, [], ◌∷◌, length,
  leb, if◌then◌else◌, filter, codes, lower, contains,
}
use dockfleet.Health.Models.{
  Db, RestartEvent, running, stopped, container_value, unhealthy, crashed, restarting, health_value,
}
use dockfleet.Health.Queries.{hour}
use dockfleet.Health.Queries.Unstable.{Unstable, get_most_unstable_services}
use dockfleet.Dashboard.{Card, Docker, get_services, is_failing_text}

-- `sum(1 for s in services if test(s))`
unfoldable pub count_if : (Card → Bool) → List Card → ℕ
count_if test [] = 0
count_if test (card ∷ rest) = let n = count_if test rest in if test card then suc n else n

unfoldable pub is_restarting_card : Card → Bool
unfolding health_value
is_restarting_card s = s.health_status == health_value restarting

unfoldable pub is_unhealthy_card : Card → Bool
unfolding is_failing_text health_value
is_unhealthy_card s =
    is_failing_text s.health_status && not (s.health_status == health_value restarting)

-- Neither restarting nor failing.
unfoldable pub is_calm_card : Card → Bool
unfolding is_failing_text health_value
is_calm_card s = not (s.health_status == health_value restarting || is_failing_text s.health_status)

unfoldable pub is_running_card : Card → Bool
unfolding container_value
is_running_card s = s.status == container_value running

unfoldable pub is_stopped_card : Card → Bool
unfolding container_value
is_stopped_card s = s.status == container_value stopped

-- The answer of /status.
pub record SystemStatus : Type 0 where
  pub total_services : ℕ
  pub running_count : ℕ
  pub restarting_count : ℕ
  pub unhealthy_count : ℕ
  pub stopped_count : ℕ

unfoldable pub status_of_cards : List Card → SystemStatus
unfolding count_if is_restarting_card is_unhealthy_card is_calm_card is_running_card
status_of_cards services = record {
  total_services = length services;
  running_count = count_if (λ s. is_running_card s && is_calm_card s) services;
  restarting_count = count_if is_restarting_card services;
  unhealthy_count = count_if is_unhealthy_card services;
  stopped_count = count_if (λ s. not (is_running_card s) && is_calm_card s) services;
}

-- routes.py system_status
unfoldable pub system_status : Docker → Db → SystemStatus
unfolding status_of_cards get_services
system_status docker db = status_of_cards (get_services docker db)

unfoldable pub sum_restarts : List Card → ℕ
sum_restarts [] = 0
sum_restarts (card ∷ rest) = card.restart_count + sum_restarts rest

-- `select(RestartEvent).where(RestartEvent.restarted_at >= since)`
unfoldable pub events_since : ℕ → List RestartEvent → List RestartEvent
unfolding filter
events_since since = filter (λ ev. leb since ev.restarted_at)

-- class MetricsSummary
pub record MetricsSummary : Type 0 where
  pub total_services : ℕ
  pub running_services : ℕ
  pub unhealthy_services : ℕ
  pub stopped_services : ℕ
  pub total_restarts : ℕ
  pub health_failures : ℕ

unfoldable pub metrics_of_cards : ℕ → List RestartEvent → List Card → MetricsSummary
unfolding count_if is_running_card is_stopped_card is_failing_text sum_restarts events_since
metrics_of_cards now events services = record {
  total_services = length services;
  running_services = count_if is_running_card services;
  unhealthy_services = count_if (λ s. is_failing_text s.health_status) services;
  stopped_services = count_if is_stopped_card services;
  total_restarts = sum_restarts services;
  health_failures = length (events_since (now - 24 * hour) events);
}

-- routes.py get_metrics
unfoldable pub get_metrics : Docker → ℕ → Db → MetricsSummary
unfolding metrics_of_cards get_services
get_metrics docker now db = metrics_of_cards now db.events (get_services docker db)

-- `ev.reason and "health" in ev.reason.lower()`
unfoldable pub names_health : RestartEvent → Bool
unfolding contains lower
names_health ev = not (ev.reason == "") && contains (codes "health") (lower (codes ev.reason))

-- class AnalyticsSummary
pub record AnalyticsSummary : Type 0 where
  pub window : ℕ
  pub total_restarts : ℕ
  pub total_health_failures : ℕ
  pub most_unstable_services : List Unstable

-- routes.py analytics_summary
unfoldable pub analytics_summary : ℕ → ℕ → ℕ → Db → AnalyticsSummary
unfolding events_since names_health filter get_most_unstable_services
analytics_summary limit now window_hours db =
    let all_events = events_since (now - window_hours * hour) db.events in
    record {
      window = window_hours;
      total_restarts = length all_events;
      total_health_failures = length (filter names_health all_events);
      most_unstable_services = get_most_unstable_services limit now window_hours db;
    }
