-- ===== src/Cli/Config.antt =====
-- dockfleet/cli/config.py: the configuration, as it is once it has been validated.
-- Python's floats are scaled: durations in thousandths of a second, multipliers in thousandths. The
-- CPU limit is kept as the text that `str` gives. What a validator lets through is not negative, so
-- it is a natural number here.
pub mod Depends
pub mod PortMapping
pub mod Memory
pub mod Fields
use dockfleet.Prelude.{ℕ, String, Bool, List, [], Option, none, some, Dict}

pub record HealthCheckConfig : Type 0 where
  pub type : String
  pub endpoint : Option String
  pub interval : Option ℕ

pub data RestartPolicy : Type 0 where
  always on_failure never : RestartPolicy

pub record ResourcesConfig : Type 0 where
  pub memory : Option String
  pub cpu : Option String

-- `list[str] | dict[str, str]`
pub data Environment : Type 0 where
  pairs : List String → Environment
  mapping : Dict String → Environment

pub record ServiceConfig : Type 0 where
  pub image : String
  pub restart : RestartPolicy
  pub ports : Option (List String)
  pub healthcheck : Option HealthCheckConfig
  pub resources : Option ResourcesConfig
  pub depends_on : Option (List String)
  pub environment : Option Environment
  pub self_healing : Option Bool
  pub max_restarts : Option ℕ
  pub backoff_seconds : Option ℕ
  pub backoff_multiplier : Option ℕ

pub record DockFleetConfig : Type 0 where
  pub self_healing : Bool
  pub services : Dict ServiceConfig

-- `svc.depends_on or []`
abbrev pub or_empty : Option (List String) → List String
or_empty none = []
or_empty (some deps) = deps
