-- ===== src/Health/Models.antt =====
-- dockfleet/health/models.py: the enumerations, their stored form, and the tables.
-- A table is the list of its rows in the order of insertion; a point in time is a number. The
-- columns whose text the program writes and never reads back are kept as text.
pub mod Rows
pub mod Stored
use dockfleet.Prelude.{ℕ, String, ◌==◌, if◌then◌else◌, List, Option, none, some}

-- class ContainerStatus
pub data ContainerStatus : Type 0 where
  running stopped unknown : ContainerStatus

-- class HealthStatus
pub data HealthStatus : Type 0 where
  healthy unhealthy crashed restarting : HealthStatus

-- ContainerStatus.value
unfoldable pub container_value : ContainerStatus → String
container_value running = "running"
container_value stopped = "stopped"
container_value unknown = "unknown"

-- HealthStatus.value
unfoldable pub health_value : HealthStatus → String
health_value healthy = "healthy"
health_value unhealthy = "unhealthy"
health_value crashed = "crashed"
health_value restarting = "restarting"

-- What an attribute of an enumeration column may hold: nothing, a member, or a plain string.
pub data Cell (E : Type 0) : Type 0 where
  null : Cell E
  member : E → Cell E
  text : String → Cell E

-- SafeContainerStatusType.process_bind_param
unfoldable pub bind_container : Cell ContainerStatus → String
unfolding container_value
bind_container null = container_value unknown
bind_container (member s) = container_value s
bind_container (text t) = t

-- SafeContainerStatusType.process_result_value; `none` is a NULL of the database
unfoldable pub load_container : Option String → ContainerStatus
load_container none = unknown
load_container (some t) =
    if t == ""
    then unknown
    else if t == "running"
    then running
    else if t == "stopped"
    then stopped
    else if t == "unknown"
    then unknown
    else unknown

-- SafeHealthStatusType.process_bind_param
unfoldable pub bind_health : Cell HealthStatus → String
unfolding health_value
bind_health null = health_value healthy
bind_health (member s) = health_value s
bind_health (text t) = t

-- SafeHealthStatusType.process_result_value
unfoldable pub load_health : Option String → HealthStatus
load_health none = healthy
load_health (some t) =
    if t == ""
    then healthy
    else if t == "healthy"
    then healthy
    else if t == "unhealthy"
    then unhealthy
    else if t == "crashed"
    then crashed
    else if t == "restarting"
    then restarting
    else unhealthy

-- class Service
pub record Service : Type 0 where
  pub id : ℕ
  pub name : String
  pub image : String
  pub restart_policy : String
  pub ports_raw : Option String
  pub healthcheck_raw : Option String
  pub status : ContainerStatus
  pub health_status : HealthStatus
  pub restart_count : ℕ
  pub last_health_check : Option ℕ
  pub last_failure_reason : Option String
  pub consecutive_failures : ℕ
  pub resources_memory : Option String
  pub resources_cpu : Option String
  pub env_raw : Option String
  pub depends_on_raw : Option String

-- class RestartEvent, less the id that the database gives it
pub record RestartEvent : Type 0 where
  pub service_id : ℕ
  pub service_name : String
  pub restarted_at : ℕ
  pub reason : String
  pub previous_status : Option String
  pub new_status : Option String

-- the tables that the health engine writes
pub record Db : Type 0 where
  pub services : List Service
  pub events : List RestartEvent
