-- ===== src/Health/Services.antt =====
-- dockfleet/health/services.py: the rows of a configuration, and how they are stored. `json.dumps`
-- and the id that the database gives to a new row are parameters.
pub mod Seeded
use dockfleet.Prelude.{ℕ, String, cat, List, [], ◌∷◌, ◌++◌, Option, none, some, Dict}
use mathlib.Core.Option
use dockfleet.Cli.Config.{
  ServiceConfig, HealthCheckConfig, Environment, ResourcesConfig, RestartPolicy, always, on_failure,
  never,
}
use dockfleet.Health.Models.{Service, Db, stopped, healthy}
use dockfleet.Health.Models.Rows.{find, update}

-- RestartPolicy.value
unfoldable pub policy_value : RestartPolicy → String
policy_value always = "always"
policy_value on_failure = "on-failure"
policy_value never = "never"

-- `",".join(items)`
unfoldable pub join : List String → String
join [] = ""
join (item ∷ []) = item
join (item ∷ next ∷ rest) = cat item (cat "," (join (next ∷ rest)))

abbrev memory_of : Option ResourcesConfig → Option String
memory_of none = none
memory_of (some r) = r.memory

abbrev cpu_of : Option ResourcesConfig → Option String
cpu_of none = none
cpu_of (some r) = r.cpu

-- The two texts that `json.dumps` makes.
pub record Json : Type 0 where
  pub healthcheck : HealthCheckConfig → String
  pub environment : Environment → String

module _ (json : Json) where
  -- One turn of the loop of services_from_config. A row that is not stored has the id 0.
  unfoldable pub service_from_config : String → ServiceConfig → Service
  unfolding policy_value join
  service_from_config name cfg = record {
    id = 0;
    name = name;
    image = cfg.image;
    restart_policy = policy_value cfg.restart;
    ports_raw = Option.map join cfg.ports;
    healthcheck_raw = Option.map json.healthcheck cfg.healthcheck;
    status = stopped;
    health_status = healthy;
    restart_count = 0;
    last_health_check = none;
    last_failure_reason = none;
    consecutive_failures = 0;
    resources_memory = memory_of cfg.resources;
    resources_cpu = cpu_of cfg.resources;
    env_raw = Option.map json.environment cfg.environment;
    depends_on_raw = Option.map join cfg.depends_on;
  }

  unfoldable pub services_from_config : Dict ServiceConfig → List Service
  unfolding service_from_config
  services_from_config [] = []
  services_from_config ((name, cfg) ∷ rest) =
      service_from_config name cfg ∷ services_from_config rest

-- The columns that an existing row takes over.
unfoldable pub take_config : Service → Service → Service
take_config svc existing = record existing {
  image = svc.image;
  restart_policy = svc.restart_policy;
  ports_raw = svc.ports_raw;
  healthcheck_raw = svc.healthcheck_raw;
  resources_memory = svc.resources_memory;
  resources_cpu = svc.resources_cpu;
  env_raw = svc.env_raw;
  depends_on_raw = svc.depends_on_raw;
}

module _ (next_id : List Service → ℕ) where
  -- One turn of the loop of seed_services.
  unfoldable pub seed_one : Service → List Service → List Service
  unfolding find update take_config
  seed_one svc rows = elim (find svc.name rows) [
    | none ↦ rows ++ record svc { id = next_id rows } ∷ []
    | some existing ↦ update svc.name (take_config svc) rows
  ]

  unfoldable pub seed_all : List Service → List Service → List Service
  unfolding seed_one
  seed_all [] rows = rows
  seed_all (svc ∷ rest) rows = seed_all rest (seed_one svc rows)

unfoldable pub seed_services : (List Service → ℕ) → Json → Dict ServiceConfig → Db → Db
unfolding seed_all services_from_config
seed_services next_id json services db = record db {
  services = seed_all next_id (services_from_config json services) db.services;
}
