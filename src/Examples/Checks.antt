-- ===== src/Examples/Checks.antt =====
-- The theorem on TCP checks at an address with colons, and texts that `int` reads.
use dockfleet.Prelude.{cat, false, ◌≡◌, refl, none, some, codes, decimal, lower}
use dockfleet.Core.Exec.{ok}
use dockfleet.Cli.Config.{HealthCheckConfig}
use dockfleet.Cli.Config.Fields.{validate_healthcheck}
use dockfleet.Health.Checker.{
  Reach, status_code, connected, inspected, run_single_check, check_tcp, parse_int,
}
use dockfleet.Health.Checker.Endpoint.{port_of, tcp_check_connects}

abbrev open_world : Reach
open_world = record {
  get = λ endpoint. status_code 204;
  connect = λ host port. connected;
  inspect = λ name. inspected 0 (codes "true");
}

tcp_check_connects_example :
    run_single_check open_world "db" (record {
      type = "TCP";
      endpoint = some (cat "::1" (cat ":" (decimal 5432)));
      interval = none;
    })
    ≡ check_tcp open_world (codes "::1") (port_of 5432)
unfolding lower
tcp_check_connects_example = tcp_check_connects open_world "db" "TCP" "::1" 5432 none refl

read_port : parse_int (codes " 5_432 ") ≡ some (port_of 5432)
unfolding parse_int
read_port = refl

-- A type that the checks do not know is accepted, and each of its checks fails.
abbrev grpc_check : HealthCheckConfig
grpc_check = record { type = "grpc"; endpoint = none; interval = some 30 }

unknown_type :
    (validate_healthcheck (some grpc_check) ≡ ok (some grpc_check))
    × (run_single_check open_world "web" grpc_check ≡ ok false)
unfolding validate_healthcheck run_single_check lower
unknown_type = (refl, refl)
