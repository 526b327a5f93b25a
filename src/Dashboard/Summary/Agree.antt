-- ===== src/Dashboard/Summary/Agree.antt =====
-- How the counts of the dashboard add up, and how its two summaries agree.
use dockfleet.Prelude.{
  ℕ, ◌+◌, ◌≤◌, String, ◌==◌, eq_iff, false, not, ◌&&◌, List, [], ◌∷◌, ◌≡◌, ◌∙◌, refl, sym, arith,
  Pairs, length,
}
use dockfleet.Health.Models.{Service, Db, health_value, container_value}
use dockfleet.Health.Queries.{sum_of, get_total_restarts}
use dockfleet.Dashboard.{
  show_ps, show_stats, Card, card_of, Docker, is_failing_text, cards, get_services,
}
use dockfleet.Dashboard.Measured.{measure-cards, length-values, restarts_of_values}
use dockfleet.Dashboard.Shown.{Apart}
use dockfleet.Dashboard.Summary.{
  count_if, is_restarting_card, is_unhealthy_card, is_calm_card, is_running_card, is_stopped_card,
  status_of_cards, system_status, metrics_of_cards, get_metrics, sum_restarts,
}

-- A text is not two texts at once.
one_text : (s a b : String) → (a == b) ≡ false → (s == a && s == b) ≡ false
one_text s a b h = ground (arith, eq_iff s a, eq_iff s b, eq_iff a b)

-- A health is one of these.
health_kinds :
    (card : Card)
    → (is_unhealthy_card card ≡ is_failing_text card.health_status)
      × (is_calm_card card
          ≡ (not (is_restarting_card card) && not (is_failing_text card.health_status)))
      × ((is_restarting_card card && is_failing_text card.health_status) ≡ false)
unfolding is_unhealthy_card is_calm_card is_restarting_card is_failing_text health_value
health_kinds card = (
  ground (
    arith,
    one_text card.health_status "unhealthy" "restarting" refl,
    one_text card.health_status "crashed" "restarting" refl,
  ),
  ground arith,
  ground (
    arith,
    one_text card.health_status "unhealthy" "restarting" refl,
    one_text card.health_status "crashed" "restarting" refl,
  ),
)

-- The counts over any entries.
counts_whole :
    (l : List Card)
    → count_if (λ s. is_running_card s && is_calm_card s) l
        + count_if is_restarting_card l
        + count_if is_unhealthy_card l
        + count_if (λ s. not (is_running_card s) && is_calm_card s) l
      ≡ length l
unfolding count_if
counts_whole [] = omega arith
counts_whole (card ∷ rest) = ground (arith, health_kinds card, counts_whole rest)

one_state : (card : Card) → (is_running_card card && is_stopped_card card) ≡ false
unfolding is_running_card is_stopped_card container_value
one_state card = one_text card.status "running" "stopped" refl

-- Running cards that are not calm are failing or restarting.
metrics_and_status :
    (l : List Card)
    → (count_if is_unhealthy_card l ≡ count_if (λ s. is_failing_text s.health_status) l)
      × (count_if (λ s. is_running_card s && is_calm_card s) l ≤ count_if is_running_card l)
      × (count_if is_running_card l + count_if is_stopped_card l ≤ length l)
unfolding count_if
metrics_and_status [] = (refl, omega arith, omega arith)
metrics_and_status (card ∷ rest) = (
  ground (arith, health_kinds card, metrics_and_status rest),
  ground (arith, metrics_and_status rest),
  ground (arith, one_state card, metrics_and_status rest),
)

sum_of_ones : (rows : List Service) → sum_of (λ svc. 1) rows ≡ length rows
unfolding sum_of
sum_of_ones [] = refl
sum_of_ones (svc ∷ rows) = omega (arith, sum_of_ones rows)

services_total :
    (docker : Docker) (db : Db)
    → Pairs Apart db.services
    → length (get_services docker db) ≡ length db.services
unfolding get_services
services_total docker db apart =
    length-values (cards docker db)
    ∙ measure-cards (λ c. 1) docker db apart (λ object c. refl) (λ object c. refl)
    ∙ sum_of_ones db.services

services_restarts :
    (docker : Docker) (db : Db)
    → Pairs Apart db.services
    → sum_restarts (get_services docker db) ≡ get_total_restarts db
unfolding get_services get_total_restarts show_ps show_stats card_of
services_restarts docker db apart =
    restarts_of_values (cards docker db)
    ∙ measure-cards (λ c. c.restart_count) docker db apart (λ object c. refl) (λ object c. refl)

-- If the names of the rows differ, then whatever docker prints, also when reading its lines raises half
-- way: the restarting, unhealthy, running and stopped services of /status add up to its total. That total
-- and the total of /metrics are the number of rows, and the restarts of /metrics are those of the rows.
-- The two summaries show as many unhealthy services, /status shows no more running ones than /metrics, and
-- there the running and the stopped ones are no more than the total.
pub summaries_agree :
    (docker : Docker) (now : ℕ) (db : Db)
    → Pairs Apart db.services
    → let status = system_status docker db in
      let metrics = get_metrics docker now db in
      (status.running_count + status.restarting_count + status.unhealthy_count
          + status.stopped_count
        ≡ status.total_services)
      × (status.total_services ≡ length db.services)
      × (metrics.total_services ≡ length db.services)
      × (metrics.total_restarts ≡ get_total_restarts db)
      × (metrics.unhealthy_services ≡ status.unhealthy_count)
      × (status.running_count ≤ metrics.running_services)
      × (metrics.running_services + metrics.stopped_services ≤ metrics.total_services)
unfolding system_status status_of_cards get_metrics metrics_of_cards
summaries_agree docker now db apart =
    let l = get_services docker db in
    let agree = metrics_and_status l in
    let total = services_total docker db apart in
    (counts_whole l, total, total, services_restarts docker db apart, sym agree.0, agree.1, agree.2)
