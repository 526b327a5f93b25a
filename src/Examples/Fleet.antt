-- ===== src/Examples/Fleet.antt =====
-- Two services seeded and started.
use dockfleet.Prelude.{ℕ, ◌≡◌, refl, List, [], ◌∷◌, length, lookup, keys, member, All}
use dockfleet.Health.Models.{Service, Db}
use dockfleet.Health.Models.Rows.{find}
use dockfleet.Health.Services.{Json}
use dockfleet.Core.Exec.{ok, session, run, ◌>>=◌, pure, raise, gets, try_except, ask, sleep}
use dockfleet.Core.Docker.{
  create_network, remove_container, stop_container, run_container, build_port_flags,
  build_env_flags, build_resource_flags,
}
use dockfleet.Core.Ports.{
  extract_host_ports, wait_for_ports_released, poll, all_released, is_port_released,
}
use dockfleet.Core.Order.{resolve_service_order}
use dockfleet.Core.Orchestrator.{start_service, stop_service}
use dockfleet.Core.Fleet.{
  Host, up, bootstrap_from_config, start_all, start_one, run_each, down, stop_all,
}
use dockfleet.Core.Fleet.Started.{IsRunning}
use dockfleet.Core.Fleet.Loops.{HasRow}
use dockfleet.Core.Fleet.Stopped.{IsStopped}
use dockfleet.Core.Fleet.Down.{down_stops-All}
use dockfleet.Core.Fleet.Up.{up_runs-All}
use dockfleet.Examples.Data.{db_row, calm, node, two_services, web_row}

abbrev pub json : Json
json = record { healthcheck = λ hc. "{}"; environment = λ env. "[]" }

abbrev pub next_id : List Service → ℕ
next_id rows = length rows

-- A table with the web server alone.
abbrev half : Db
half = record { services = web_row ∷ []; events = [] }

abbrev pub host : Host
host = record {
  world = calm;
  json = json;
  next_id = next_id;
  show = λ names. "services";
  distinct = λ bindings. bindings;
}

all_started : (up host two_services node).0 ≡ ok tt
unfolding up bootstrap_from_config session create_network run ◌>>=◌ pure raise gets try_except
    resolve_service_order start_all start_one run_each start_service remove_container
    extract_host_ports wait_for_ports_released poll all_released is_port_released ask sleep
    run_container build_port_flags build_env_flags build_resource_flags lookup
all_started = refl

up_runs-All_example : All (IsRunning (up host two_services node).1.db) (keys two_services)
unfolding member keys
up_runs-All_example = up_runs-All host two_services node (λ n. refl) (refl, (refl, tt)) all_started

all_halted : (down host two_services node).0 ≡ ok tt
unfolding down session run ◌>>=◌ pure raise gets try_except resolve_service_order stop_all run_each
    stop_service stop_container remove_container
all_halted = refl

both_rows : All (HasRow node.db) (keys two_services)
unfolding keys find
both_rows = ((web_row, refl), ((db_row, refl), tt))

down_stops-All_example : All (IsStopped (down host two_services node).1.db) (keys two_services)
down_stops-All_example = down_stops-All host two_services node (λ n. refl) both_rows all_halted
