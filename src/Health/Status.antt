-- ===== src/Health/Status.antt =====
-- dockfleet/health/status.py. Each function runs one session: its model is what the commit leaves
-- in the database. `now` is the reading of the clock; what is printed is not modelled.
pub mod Streaks
pub mod Stopped
pub mod Writes
pub mod Restarts
use dockfleet.Prelude.{
  ℕ, suc, ◌+◌, String, ◌==◌, Bool, true, false, ◌&&◌, ◌||◌, not, leb, ltb, if◌then◌else◌, List, [],
  ◌∷◌, ◌++◌, map, Option, none, some, codes, same_codes, lower, strip, eqb,
}
use dockfleet.Health.Models.{
  ContainerStatus, running, stopped, unknown, HealthStatus, healthy, unhealthy, crashed, restarting,
  container_value, Service, RestartEvent, Db,
}
use dockfleet.Health.Models.Rows.{find, on_row, row}

abbrev pub is_stopped : ContainerStatus → Bool
is_stopped stopped = true
is_stopped _ = false

abbrev pub is_failing : HealthStatus → Bool
is_failing unhealthy = true
is_failing crashed = true
is_failing _ = false

-- `if reason:` holds of a reason that is there and not empty
abbrev pub or_keep : Option String → Option String → Option String
or_keep none old = old
or_keep (some reason) old = if reason == "" then old else some reason

-- _update_status, on the row
unfoldable pub set_status : ContainerStatus → Option HealthStatus → Option ℕ → Service → Service
set_status new_status new_health checked svc = record svc {
  status = new_status;
  health_status = elim new_health [ none ↦ svc.health_status | some h ↦ h ];
  last_health_check = elim checked [ none ↦ svc.last_health_check | some now ↦ some now ];
}

-- _update_status; `set_last_health` is the reading of the clock, where it is set
unfoldable pub update_status : String → ContainerStatus → Option HealthStatus → Option ℕ → Db → Db
unfolding set_status on_row
update_status name new_status new_health checked =
    on_row name (set_status new_status new_health checked)

unfoldable pub mark_service_running : String → ℕ → Db → Db
unfolding update_status
mark_service_running name now = update_status name running (some healthy) (some now)

unfoldable pub mark_service_stopped : String → Db → Db
unfolding update_status
mark_service_stopped name = update_status name stopped (some healthy) none

-- update_service_health, on the row
unfoldable pub record_check : Bool → Option String → ℕ → Service → Service
record_check true reason now svc = record svc {
  last_health_check = some now;
  status = if is_stopped svc.status then svc.status else running;
  health_status = healthy;
  consecutive_failures = 0;
  last_failure_reason = none;
}
record_check false reason now svc =
    let failures = svc.consecutive_failures + 1 in
    if is_stopped svc.status then svc else record svc {
      last_health_check = some now;
      consecutive_failures = failures;
      health_status = if leb 3 failures then crashed else unhealthy;
      last_failure_reason = or_keep reason svc.last_failure_reason;
    }

unfoldable pub update_service_health : String → Bool → Option String → ℕ → Db → Db
unfolding record_check on_row
update_service_health name is_healthy reason now = on_row name (record_check is_healthy reason now)

-- str(policy).strip().lower().replace("_", "-")
unfoldable pub normal_policy : String → List ℕ
unfolding lower strip
normal_policy policy = map (λ c. if eqb c b'_' then b'-' else c) (lower (strip (codes policy)))

unfoldable pub allows_restart : String → Bool
unfolding normal_policy same_codes
allows_restart policy =
    same_codes (normal_policy policy) (codes "always")
    || same_codes (normal_policy policy) (codes "on-failure")

unfoldable pub needs_restart : Service → Bool
needs_restart svc =
    if is_stopped svc.status
    then false
    else if ltb svc.consecutive_failures 3
    then false
    else if not (allows_restart svc.restart_policy)
    then false
    else if not (is_failing svc.health_status)
    then false
    else true

-- The row of the same id, else the row of the same name, else the service that was passed.
unfoldable pub find_id : ℕ → List Service → Option Service
find_id id [] = none
find_id id (svc ∷ rows) = if eqb svc.id id then some svc else find_id id rows

abbrev or_else : Option Service → Option Service → Option Service
or_else (some svc) other = some svc
or_else none other = other

abbrev subject : Service → Option Service → Service
subject service (some svc) = svc
subject service none = service

unfoldable pub event_for : Service → String → ℕ → RestartEvent
unfolding container_value
event_for svc reason now = record {
  service_id = svc.id;
  service_name = svc.name;
  restarted_at = now;
  reason = reason;
  previous_status = some (container_value svc.status);
  new_status = some (container_value running);
}

unfoldable pub record_restart_event : Service → String → ℕ → Db → Db
unfolding event_for find_id find
record_restart_event service reason now db =
    let found = or_else (find_id service.id db.services) (find service.name db.services) in
    record db { events = db.events ++ event_for (subject service found) reason now ∷ [] }

-- mark_restart_successful, on the row
unfoldable pub restarted : Service → Service
restarted svc = record svc {
  consecutive_failures = 0;
  status = running;
  health_status = healthy;
  last_failure_reason = none;
}

unfoldable pub mark_restart_successful : String → Db → Db
unfolding on_row restarted
mark_restart_successful service_name = on_row service_name restarted

-- record_manual_restart_event, on the row
unfoldable pub restarted_by_hand : Service → Service
restarted_by_hand svc = record svc {
  status = running;
  health_status = healthy;
  consecutive_failures = 0;
}

unfoldable pub record_manual_restart_event : String → ℕ → Db → Db
unfolding on_row restarted_by_hand event_for find
record_manual_restart_event service_name now db = elim (row service_name db) [
  | none ↦ db
  | some svc ↦ record (on_row service_name restarted_by_hand db) {
    events = db.events ++ event_for svc "manual_dashboard_restart" now ∷ [];
  }
]

-- record_manual_stop, on the row
unfoldable pub stopped_by_hand : Service → Service
stopped_by_hand svc = record svc { status = stopped; health_status = healthy }

unfoldable pub record_manual_stop : String → Db → Db
unfolding on_row stopped_by_hand
record_manual_stop service_name = on_row service_name stopped_by_hand
