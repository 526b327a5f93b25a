-- ===== src/Examples/Pages.antt =====
-- The theorems on the dashboard at concrete rows and lines of docker.
use dockfleet.Prelude.{
  ◌+◌, ◌≤◌, String, ◌==◌, true, ◌≡◌, refl, [], ◌∷◌, Option, none, some, lookup, member, length,
  if◌then◌else◌,
}
use dockfleet.Health.Models.{Service}
use dockfleet.Health.Models.Rows.{row, find}
use dockfleet.Health.Queries.{get_total_restarts}
use dockfleet.Dashboard.{is_restarting_text, named, absent, DockerLine, Docker, cards, turn}
use dockfleet.Dashboard.Shown.{HasCard, OfRow, tells_restart, failing_shown}
use dockfleet.Dashboard.Summary.{system_status, get_metrics}
use dockfleet.Dashboard.Summary.Agree.{summaries_agree}
use dockfleet.Dashboard.Actions.{restart_by_hand}
use dockfleet.Dashboard.Actions.ByHand.{AfterByHand, restart_by_hand_outcome}
use dockfleet.Examples.Data.{rows, web_row, calm, config, web_config, node}

abbrev line_of : String → String → DockerLine
line_of name text = record {
  names = named name;
  single = absent;
  status_text = text;
  running_for = some "2 hours ago";
  cpu_perc = some "0.5%";
  mem_usage = some "20MiB";
}

abbrev loads : String → Option DockerLine
loads text =
    if text == "web"
    then some (line_of "dockfleet_web" "Up 2 hours")
    else if text == "db"
    then some (line_of "dockfleet_db" "Up 2 hours")
    else none

-- The second line is no JSON.
abbrev docker : Docker
docker = record {
  ps_lines = some ("web" ∷ "{" ∷ "db" ∷ []);
  stats_lines = some ("db" ∷ "" ∷ []);
  loads = loads;
}

failing_shown_example : HasCard (OfRow web_row) "web" (cards docker rows)
unfolding find tells_restart turn is_restarting_text
failing_shown_example =
    failing_shown docker rows web_row ((refl, tt), (tt, tt)) refl refl (refl, (refl, (refl, tt)))

summaries_agree_example :
    let status = system_status docker rows in
    let metrics = get_metrics docker 100 rows in
    (status.running_count + status.restarting_count + status.unhealthy_count + status.stopped_count
      ≡ status.total_services)
    × (status.total_services ≡ length rows.services)
    × (metrics.total_services ≡ length rows.services)
    × (metrics.total_restarts ≡ get_total_restarts rows)
    × (metrics.unhealthy_services ≡ status.unhealthy_count)
    × (status.running_count ≤ metrics.running_services)
    × (metrics.running_services + metrics.stopped_services ≤ metrics.total_services)
summaries_agree_example = summaries_agree docker 100 rows ((refl, tt), (tt, tt))

restart_by_hand_outcome_example :
    let (r, s') = restart_by_hand calm true config "web" node in
    (after : Service) × (row "web" s'.db ≡ some after) × AfterByHand web_row [] r after s'.db
unfolding find lookup member
restart_by_hand_outcome_example =
    restart_by_hand_outcome calm config "web" web_config node web_row (λ n. refl) refl refl refl
      refl
