-- ===== src/Health/Models/Stored.antt =====
-- The statuses in the database and back.
use dockfleet.Prelude.{◌≡◌, refl, some}
use dockfleet.Health.Models.{
  ContainerStatus, running, stopped, unknown, HealthStatus, healthy, unhealthy, crashed, restarting,
  member, text, bind_container, load_container, container_value, bind_health, load_health,
  health_value,
}

container-stored :
    (c : ContainerStatus)
    → (load_container (some (bind_container (member c))) ≡ c)
      × (load_container (some (bind_container (text (container_value c)))) ≡ c)
unfolding load_container bind_container container_value
container-stored running = (refl, refl)
container-stored stopped = (refl, refl)
container-stored unknown = (refl, refl)

health-stored :
    (h : HealthStatus)
    → (load_health (some (bind_health (member h))) ≡ h)
      × (load_health (some (bind_health (text (health_value h)))) ≡ h)
unfolding load_health bind_health health_value
health-stored healthy = (refl, refl)
health-stored unhealthy = (refl, refl)
health-stored crashed = (refl, refl)
health-stored restarting = (refl, refl)

-- Each container status and each health status is read back from the database as it was stored,
-- whether it was stored as a member of the enumeration or as the member's text.
pub statuses_stored :
    (c : ContainerStatus) (h : HealthStatus)
    → ((load_container (some (bind_container (member c))) ≡ c)
        × (load_container (some (bind_container (text (container_value c)))) ≡ c))
      × ((load_health (some (bind_health (member h))) ≡ h)
          × (load_health (some (bind_health (text (health_value h)))) ≡ h))
statuses_stored c h = (container-stored c, health-stored h)
