-- ===== src/Examples/Listing.antt =====
-- The listing of a container whose row has crashed, and uptimes.
use dockfleet.Prelude.{◌≡◌, refl, true, [], ◌∷◌, All, decimal}
use dockfleet.Health.Models.{health_value, crashed}
use dockfleet.Health.Models.Rows.{find}
use dockfleet.Core.Listing.{
  Container, get_ps_data, overrides_docker, two_digits, format_uptime_duration,
}
use dockfleet.Core.Listing.Shown.{shows, ps_shows-Failing}
use dockfleet.Examples.Data.{rows, web_row}

abbrev web_container : Container
web_container = record {
  container = "dockfleet_web";
  status_raw = "Up 2 minutes (healthy)";
  state_raw = "running";
}

ps_shows-Failing_example :
    All
      (λ r. shows "web" (health_value crashed) r ≡ true)
      (get_ps_data true rows (web_container ∷ []))
unfolding find overrides_docker health_value
ps_shows-Failing_example =
    ps_shows-Failing rows (web_container ∷ []) "web" web_row refl ((refl, tt), (tt, tt)) refl

uptimes :
    (format_uptime_duration 45 ≡ "Up 45s")
    × (format_uptime_duration 3725 ≡ "Up 1h 02m")
    × (format_uptime_duration 180000 ≡ "Up 2d 02:00")
unfolding format_uptime_duration two_digits decimal
uptimes = (refl, refl, refl)
