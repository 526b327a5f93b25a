-- ===== src/Examples/Counts.antt =====
-- The theorems on the counts of the dashboard at two rows.
use dockfleet.Prelude.{
  ℕ, ◌≡◌, ◌==◌, refl, suc, none, some, [], ◌∷◌, map, lookup, arith, if◌then◌else◌,
}
use dockfleet.Health.Models.{RestartEvent, Db}
use dockfleet.Health.Models.Rows.{find}
use dockfleet.Health.Status.{record_manual_restart_event}
use dockfleet.Health.Queries.{get_failure_reasons_breakdown}
use dockfleet.Health.Queries.Tally.{or_zero}
use dockfleet.Health.Queries.Manual.{manual_restart_counted}
use dockfleet.Health.Queries.Unstable.{get_most_unstable_services}
use dockfleet.Examples.Data.{rows, web_row}

abbrev web_restart : ℕ → RestartEvent
web_restart time = record {
  service_id = 1;
  service_name = "web";
  restarted_at = time;
  reason = "3_failed_health_checks";
  previous_status = none;
  new_status = none;
}

manual_restart_counted_example :
    lookup "manual_restart"
      (get_failure_reasons_breakdown "web" 100 24 (record_manual_restart_event "web" 50 rows))
    ≡ (if "manual_restart" == "manual_restart"
        then some (
            suc
              (or_zero (lookup "manual_restart" (get_failure_reasons_breakdown "web" 100 24 rows))))
        else lookup "manual_restart" (get_failure_reasons_breakdown "web" 100 24 rows))
unfolding find
manual_restart_counted_example =
    manual_restart_counted "web" 50 100 24 rows web_row refl (omega arith) "manual_restart"

abbrev two_restarts : Db
two_restarts = record rows {
  events = web_restart 50 ∷ web_restart 60 ∷ record (web_restart 70) { service_id = 2 } ∷ [];
}

web_first : map (λ u. u.restarts) (get_most_unstable_services 1 100 24 two_restarts) ≡ 2 ∷ []
unfolding get_most_unstable_services
web_first = refl
