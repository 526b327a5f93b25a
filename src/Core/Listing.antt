-- ===== src/Core/Listing.antt =====
-- What the orchestrator shows of the containers, in dockfleet/core/orchestrator.py: get_ps_data, the
-- format of uptimes, and the services without statistics. A container's name is a text.
pub mod Shown
use Prim.Native.Char.{code}
use dockfleet.Prelude.{
  ℕ, zero, suc, ◌+◌, ◌*◌, ◌/◌, ◌%◌, String, ◌==◌, cat, Bool, true, false, not, ◌&&◌, ◌||◌, List, [],
  ◌∷◌, ◌++◌, map, Option, none, some, Dict, lookup, put, keys, member, eqb, ltb, if◌then◌else◌,
  codes, contains, is_prefix, decimal,
}
use dockfleet.Cli.Config.{ServiceConfig, DockFleetConfig}
use dockfleet.Health.Models.{
  Service, Db, ContainerStatus, running, stopped, unknown, container_value, HealthStatus, unhealthy,
  crashed, restarting, healthy, health_value,
}

-- An entry of `docker ps`: its name, and the texts Status and State.
pub record Container : Type 0 where
  pub container : String
  pub status_raw : String
  pub state_raw : String

abbrev within : String → String → Bool
unfolding contains
within part text = contains (codes part) (codes text)

-- `text.removeprefix(prefix)`, if it starts so
unfoldable pub after_prefix : String → String → Option String
after_prefix String.[] text = some text
after_prefix (String.◌∷◌ c prefix) String.[] = none
after_prefix (String.◌∷◌ c prefix) (String.◌∷◌ d text) =
    let rest = after_prefix prefix text in if eqb (code c) (code d) then rest else none

unfoldable pub status_of : String → String → String
unfolding within
status_of status_raw state_raw =
    if within "Up" status_raw || state_raw == "running"
    then "running"
    else if within "Restarting" status_raw || state_raw == "restarting"
    then "restarting"
    else if within "Exited" status_raw || state_raw == "exited"
    then "stopped"
    else if state_raw == ""
    then "unknown"
    else state_raw

unfoldable pub overrides_docker : String → Bool
unfolding health_value
overrides_docker health =
    health == health_value unhealthy
    || health == health_value crashed
    || health == health_value restarting

-- The health that docker shows, else `other`.
unfoldable pub docker_health : String → String → String
unfolding within
docker_health status_raw other =
    if within "(unhealthy)" status_raw
    then "unhealthy"
    else if within "(healthy)" status_raw
    then "healthy"
    else if within "(health: starting)" status_raw
    then "starting"
    else other

unfoldable pub health_of : Option String → String → String → String
unfolding docker_health overrides_docker
health_of none status status_raw = docker_health status_raw (
    if status == "running" then "healthy" else if status == "stopped" then "stopped" else "unknown")
health_of (some health) status status_raw =
    if overrides_docker health then health else docker_health status_raw health

-- The loop over the rows.
unfoldable pub health_map : List Service → Dict String → Dict String
unfolding put health_value
health_map [] seen = seen
health_map (svc ∷ rows) seen = health_map rows (put svc.name (health_value svc.health_status) seen)

pub record PsRow : Type 0 where
  pub name : String
  pub status : String
  pub health : String

-- The entry of a container of the program.
unfoldable pub ps_row : Dict String → Container → String → PsRow
unfolding status_of health_of lookup
ps_row health_by_name c service =
    let status = status_of c.status_raw c.state_raw in
    record {
      name = service;
      status = status;
      health = health_of (lookup service health_by_name) status c.status_raw;
    }

unfoldable pub with_row : Dict String → Container → Option String → List PsRow → List PsRow
unfolding ps_row
with_row health_by_name c none rows = rows
with_row health_by_name c (some service) rows = ps_row health_by_name c service ∷ rows

unfoldable pub ps_rows : Dict String → List Container → List PsRow
unfolding with_row after_prefix
ps_rows health_by_name [] = []
ps_rows health_by_name (c ∷ cs) =
    with_row health_by_name c (after_prefix "dockfleet_" c.container) (ps_rows health_by_name cs)

-- Without the database there is no health of a row.
unfoldable pub get_ps_data : Bool → Db → List Container → List PsRow
unfolding ps_rows health_map
get_ps_data db_works db containers =
    ps_rows (if db_works then health_map db.services [] else []) containers

-- `f"{n:02d}"`
unfoldable pub two_digits : ℕ → String
unfolding decimal
two_digits n = if ltb n 10 then cat "0" (decimal n) else decimal n

-- _format_uptime_duration, of whole seconds
unfoldable pub format_uptime_duration : ℕ → String
unfolding two_digits decimal
format_uptime_duration total_seconds =
    let days = total_seconds / 86400 in
    let hours = (total_seconds % 86400) / 3600 in
    let minutes = (total_seconds % 86400) % 3600 / 60 in
    let seconds = (total_seconds % 86400) % 3600 % 60 in
    if not (eqb days 0)
    then cat (cat (cat (cat (cat "Up " (decimal days)) "d ") (two_digits hours)) ":")
        (two_digits minutes)
    else if not (eqb hours 0)
    then cat (cat (cat (cat "Up " (decimal hours)) "h ") (two_digits minutes)) "m"
    else if not (eqb minutes 0)
    then cat (cat (cat (cat "Up " (decimal minutes)) "m ") (two_digits seconds)) "s"
    else cat (cat "Up " (decimal seconds)) "s"

-- class ServiceStat
pub record ServiceStat : Type 0 where
  pub service_name : String
  pub container_name : String
  pub cpu_percent : Option ℕ
  pub mem_current : Option String
  pub mem_percent : Option String
  pub uptime : Option String
  pub status : ContainerStatus

abbrev pub bare_stat : ContainerStatus → String → ServiceStat
bare_stat status name = record {
  service_name = name;
  container_name = cat "dockfleet_" name;
  cpu_percent = none;
  mem_current = none;
  mem_percent = none;
  uptime = none;
  status = status;
}

-- _get_missing_stats
unfoldable pub get_missing_stats : DockFleetConfig → List ServiceStat
unfolding keys
get_missing_stats config = map (bare_stat unknown) (keys config.services)

-- The loop over the expected containers, behind those that run.
unfoldable pub add_stopped : List String → List ServiceStat → List ServiceStat
unfolding member
add_stopped [] stats = stats
add_stopped (name ∷ names) stats =
    let more = stats ++ bare_stat stopped name ∷ [] in
    add_stopped names
      (if member (cat "dockfleet_" name) (map (λ s. s.container_name) stats) then stats else more)
