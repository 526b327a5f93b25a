-- ===== src/Core/Orchestrator/Restarted.antt =====
-- The row of a service behind a restart, by the way the restart ended.
use dockfleet.Prelude.{ℕ, ◌+◌, String, ◌≡◌, ◌∙◌, refl, ap, eq_refl, Bool, true, false, some, arith}
use dockfleet.Health.Models.{Db, Service, running, unknown, healthy, crashed}
use dockfleet.Health.Models.Rows.{on_row, row, KeepsName, find-update}
use dockfleet.Health.Status.{mark_service_running, set_status}
use dockfleet.Core.Exec.{Node, Outcome, ok, raised}
use dockfleet.Core.Exec.Ensures.{Post}
use dockfleet.Core.Orchestrator.{mark_restarting, count_restart, restart_failed, clear_restarting}

abbrev pub running_at : ℕ → Service → Service
running_at now = set_status running (some healthy) (some now)

pub running_at-KeepsName : (now : ℕ) → KeepsName (running_at now)
unfolding set_status
running_at-KeepsName now = record { at = λ svc. refl }

marking-KeepsName : KeepsName mark_restarting
unfolding mark_restarting
marking-KeepsName = record { at = λ svc. refl }

counting-KeepsName : KeepsName count_restart
unfolding count_restart
counting-KeepsName = record { at = λ svc. refl }

failing-KeepsName : (reason : String) → KeepsName (restart_failed reason)
unfolding restart_failed
failing-KeepsName reason = record { at = λ svc. refl }

clearing-KeepsName : KeepsName clear_restarting
unfolding clear_restarting
clearing-KeepsName = record { at = λ svc. ground arith }

-- The row of the service after a restart, by the outcome.
abbrev pub AfterRestart : Service → Outcome Bool → Service → Type 0
AfterRestart before (ok true) after =
    (after.status ≡ running)
    × (after.health_status ≡ healthy)
    × (after.restart_count ≡ before.restart_count + 1)
    × (after.consecutive_failures ≡ before.consecutive_failures)
AfterRestart before (ok false) after =
    (after.status ≡ unknown)
    × (after.health_status ≡ crashed)
    × (after.restart_count ≡ before.restart_count)
    × (after.consecutive_failures ≡ before.consecutive_failures)
AfterRestart before (raised e) after =
    (after.status ≡ before.status)
    × (after.health_status ≡ crashed)
    × (after.restart_count ≡ before.restart_count)
    × (after.consecutive_failures ≡ before.consecutive_failures)

module _ (name : String) where
  abbrev pub Marked : Db → Db
  Marked db = on_row name mark_restarting db

  -- The rows after the restart of a container.
  unfoldable pub Replaced : Db → Bool → Node → Type 0
  Replaced db true s =
      (now : ℕ) × (s.db ≡ on_row name count_restart (mark_service_running name now db))
  Replaced db false s = (reason : String) × (s.db ≡ on_row name (restart_failed reason) db)

  unfoldable pub Cleared : Db → Node → Type 0
  Cleared db s = s.db ≡ on_row name clear_restarting db

  row-on_row :
      (f : Service → Service)
      → KeepsName f
      → (db : Db) (svc : Service) → row name db ≡ some svc
      → row name (on_row name f db) ≡ some (f svc)
  unfolding on_row
  row-on_row f keeps db svc h = rw (find-update f keeps name name db.services, eq_refl, h) refl

  pub outcome_row :
      (before : Service) (db : Db) (r : Outcome Bool) (s : Node)
      → row name db ≡ some before
      → Post (Replaced (Marked db)) (λ e. Cleared (Marked db)) r s
      → (after : Service) × (row name s.db ≡ some after)
        × (s.db.events ≡ db.events)
        × AfterRestart before r after
  unfolding Replaced Cleared mark_service_running on_row
  outcome_row before db (ok true) s found (now, h) =
      let first = row-on_row mark_restarting marking-KeepsName db before found in
      let second =
        row-on_row (running_at now) (running_at-KeepsName now) (Marked db) (mark_restarting before)
          first in
      let third =
        row-on_row count_restart counting-KeepsName (on_row name (running_at now) (Marked db))
          (running_at now (mark_restarting before)) second in
      (
        count_restart (running_at now (mark_restarting before)),
        ap (row name) h ∙ third,
        ap (λ d. d.events) h,
        unfold count_restart set_status mark_restarting in (refl, refl, refl, refl),
      )
  outcome_row before db (ok false) s found (reason, h) =
      let first = row-on_row mark_restarting marking-KeepsName db before found in
      let second =
        row-on_row (restart_failed reason) (failing-KeepsName reason) (Marked db)
          (mark_restarting before) first in
      (
        restart_failed reason (mark_restarting before),
        ap (row name) h ∙ second,
        ap (λ d. d.events) h,
        unfold restart_failed mark_restarting in (refl, refl, refl, refl),
      )
  outcome_row before db (raised e) s found h =
      let first = row-on_row mark_restarting marking-KeepsName db before found in
      let second =
        row-on_row clear_restarting clearing-KeepsName (Marked db) (mark_restarting before) first in
      (
        clear_restarting (mark_restarting before),
        ap (row name) h ∙ second,
        ap (λ d. d.events) h,
        unfold clear_restarting mark_restarting in (refl, refl, refl, refl),
      )
