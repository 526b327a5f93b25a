-- ===== src/Examples/Data.antt =====
-- The concrete values that the examples share.
use dockfleet.Prelude.{ℕ, true, false, [], ◌∷◌, none, some, Dict}
use dockfleet.Cli.Config.{HealthCheckConfig, always, ServiceConfig, DockFleetConfig}
use dockfleet.Health.Models.{Service, Db, running, healthy, crashed}
use dockfleet.Health.Status.Streaks.{Check}
use dockfleet.Core.Exec.{World, Node, exited}
use dockfleet.Health.Scheduler.{Scheduler}

abbrev pub http_check : HealthCheckConfig
http_check = record {
  type = "http";
  endpoint = some "http://localhost:8080/health";
  interval = some 30;
}

abbrev pub db_config : ServiceConfig
db_config = record {
  image = "postgres:16";
  restart = always;
  ports = some ("5432:5432" ∷ []);
  healthcheck = none;
  resources = none;
  depends_on = none;
  environment = none;
  self_healing = none;
  max_restarts = none;
  backoff_seconds = none;
  backoff_multiplier = none;
}

abbrev pub web_config : ServiceConfig
web_config = record db_config {
  image = "web:latest";
  ports = some ("127.0.0.1:8080:80" ∷ []);
  healthcheck = some http_check;
  depends_on = some ("db" ∷ []);
  max_restarts = some 2;
  backoff_seconds = some 5000;
}

-- The web server stands before the database that it depends on.
abbrev pub two_services : Dict ServiceConfig
two_services = ("web", web_config) ∷ ("db", db_config) ∷ []

abbrev pub config : DockFleetConfig
config = record { self_healing = true; services = two_services }

abbrev pub db_row : Service
db_row = record {
  id = 2;
  name = "db";
  image = "postgres:16";
  restart_policy = "always";
  ports_raw = none;
  healthcheck_raw = none;
  status = running;
  health_status = healthy;
  restart_count = 0;
  last_health_check = none;
  last_failure_reason = none;
  consecutive_failures = 0;
  resources_memory = none;
  resources_cpu = none;
  env_raw = none;
  depends_on_raw = none;
}

-- A web server that has failed three checks.
abbrev pub web_row : Service
web_row = record db_row {
  id = 1;
  name = "web";
  image = "web:latest";
  health_status = crashed;
  consecutive_failures = 3;
}

abbrev pub rows : Db
rows = record { services = web_row ∷ db_row ∷ []; events = [] }

-- Every command succeeds, every port is free, and each question takes a millisecond.
abbrev pub calm : World
calm = record {
  reply = λ n command. exited 0 "";
  can_bind = λ n host port. true;
  db_works = λ n. true;
  delay = λ n. 1;
}

abbrev pub node : Node
node = record { db = rows; active = []; commands = []; steps = 0; now = 1000 }

abbrev pub scheduler : Scheduler
scheduler = record {
  node = node;
  restart_attempts = ("web", 1) ∷ [];
  next_restart_at = [];
  next_check_at = [];
}

abbrev pub fail : ℕ → Check
fail time = record { passed = false; reason = some "timeout"; time = time }

abbrev pub pass : ℕ → Check
pass time = record { passed = true; reason = none; time = time }
