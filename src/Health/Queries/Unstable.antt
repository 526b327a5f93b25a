-- ===== src/Health/Queries/Unstable.antt =====
-- get_most_unstable_services of dockfleet/health/queries.py: the join of the services with their restart
-- events, grouped by service. Where the counts are equal SQL leaves the order open; here the later row
-- of the table does not overtake the earlier one.
pub mod Top
use dockfleet.Prelude.{
  ℕ, zero, suc, ◌-◌, ◌*◌, String, Bool, List, [], ◌∷◌, leb, ltb, if◌then◌else◌, filter, sort_by,
  length, take, max,
}
use dockfleet.Health.Models.{Service, RestartEvent, Db}
use dockfleet.Health.Queries.{hour, in_window}

-- A row of the answer.
pub record Unstable : Type 0 where
  pub service_name : String
  pub restarts : ℕ
  pub last_restart_at : ℕ

-- `func.max(RestartEvent.restarted_at)`
unfoldable pub latest : List RestartEvent → ℕ
latest [] = 0
latest (ev ∷ events) = max ev.restarted_at (latest events)

-- The events that the join gives a service.
unfoldable pub events_of : ℕ → List RestartEvent → Service → List RestartEvent
unfolding filter in_window
events_of since events svc = filter (in_window svc.id since) events

unfoldable pub summary_of : Service → List RestartEvent → Unstable
unfolding latest
summary_of svc events = record {
  service_name = svc.name;
  restarts = length events;
  last_restart_at = latest events;
}

-- A service without events has no group.
abbrev pub with_group : Service → List RestartEvent → List Unstable → List Unstable
unfolding summary_of
with_group svc [] rest = rest
with_group svc (ev ∷ events) rest = summary_of svc (ev ∷ events) ∷ rest

unfoldable pub groups : ℕ → List RestartEvent → List Service → List Unstable
unfolding events_of with_group
groups since events [] = []
groups since events (svc ∷ rows) =
    with_group svc (events_of since events svc) (groups since events rows)

-- `order_by(count.desc())`
unfoldable pub more_restarts : Unstable → Unstable → Bool
more_restarts a b = leb b.restarts a.restarts

unfoldable pub get_most_unstable_services : ℕ → ℕ → ℕ → Db → List Unstable
unfolding groups sort_by more_restarts
get_most_unstable_services limit now window_hours db =
    take limit (sort_by more_restarts (groups (now - window_hours * hour) db.events db.services))
