-- ===== src/Core/Orchestrator/Rows.antt =====
-- What a restart leaves in the database, when the database works.
use dockfleet.Prelude.{ℕ, String, ◌≡◌, ◌∙◌, refl, ◌==◌, Bool, true, false, some}
use dockfleet.Cli.Config.{ServiceConfig}
use dockfleet.Health.Models.{Db, Service}
use dockfleet.Health.Models.Rows.{on_row, row}
use dockfleet.Health.Status.{mark_service_running}
use dockfleet.Core.Exec.{World, Node, ◌>>=◌, try_except, session, modify, try_finally}
use dockfleet.Core.Exec.Keeps.{Keeps-if, Keeps-raise, Keeps-pure}
use dockfleet.Core.Exec.Ensures.{
  Ensures, Ensures-pure, Ensures-raise, Ensures-try_except, Ensures-bind, Ensures-after,
  Ensures-session, Rows, Written,
}
use dockfleet.Core.Orchestrator.{
  launch, start_service, mark_restart_failed, increment_restart_count, finish_start, failed_start,
  replace_container, give_up, guarded_restart, mark_restarting, count_restart, clear_restarting,
  ignore_errors, add_active,
}
use dockfleet.Core.Orchestrator.Quiet.{
  IsQuiet, run-Keeps, remove_container-Keeps, run_container-Keeps, wait_for_ports-Keeps,
  ignore_errors-Keeps,
}
use dockfleet.Core.Orchestrator.Restarted.{Marked, Replaced, Cleared, AfterRestart, outcome_row}

pub Rows-IsQuiet : (db : Db) → IsQuiet (Rows db)
Rows-IsQuiet db = record { carry = λ s s' same active h. same ∙ h }

module _ (world : World) (name : String) (works : (n : ℕ) → world.db_works n ≡ true) where
  -- start_service returns true and has marked the row, or returns false and has left the rows alone.
  unfoldable pub Started : Db → Bool → Node → Type 0
  Started db true s = Written (λ now. mark_service_running name now) db s
  Started db false s = Rows db s

  launch-Ensures :
      (svc : ServiceConfig) (db : Db)
      → Ensures (Rows db) (launch world name svc) (Started db) (λ e. Rows db)
  unfolding Started
  launch-Ensures svc db =
      let quiet = Rows-IsQuiet db in
      Ensures-after _ _
        (ignore_errors-Keeps world (Rows db) quiet _
          (remove_container-Keeps world (Rows db) quiet _))
        (λ e s h. h)
        λ a.
          Ensures-after _ _ (Keeps-if (svc.image == "") _ _ (Keeps-raise _) (Keeps-pure tt))
            (λ e s h. h)
            λ b.
              Ensures-after _ _ (wait_for_ports-Keeps world (Rows db) quiet svc) (λ e s h. h)
                λ c.
                  Ensures-after _ _ (run_container-Keeps world (Rows db) quiet _ _ _ _) (λ e s h. h)
                    λ d.
                      Ensures-bind _ _ (Ensures-session world _ db works)
                        (λ e. Ensures-pure true (λ s h. h))

  pub start_service-Ensures :
      (svc : ServiceConfig) (db : Db)
      → Ensures (Rows db) (start_service world name svc) (Started db) (λ e. Rows db)
  unfolding start_service Started
  start_service-Ensures svc db =
      Ensures-try_except _ _ (launch-Ensures svc db) (λ e. Ensures-pure false (λ s h. h))

  ignored_session :
      {Raises : String → Node → Type 0} (f : ℕ → Db → Db) (db : Db)
      → Ensures (Rows db) (ignore_errors world (session world f)) (λ a. Written f db) Raises
  ignored_session f db =
      Ensures-try_except {Inner = λ e s. ⊥} _ _ (Ensures-session world f db works)
        (λ e. record { at = λ s h. absurd h })

  failed_start-Ensures :
      (reason : String) (db : Db)
      → Ensures (Rows db) (failed_start world name reason) (Replaced name db) (λ e. Rows db)
  unfolding mark_restart_failed Replaced
  failed_start-Ensures reason db =
      Ensures-bind _ _ (ignored_session _ db) (λ a. Ensures-pure false (λ s h. (reason, h.1)))

  finish_start-Ensures :
      (started : Bool) (db : Db)
      → Ensures
          (Started db started)
          (finish_start world name started)
          (Replaced name db)
          (λ e. Rows db)
  unfolding increment_restart_count Replaced Started mark_restart_failed
  finish_start-Ensures true db = record {
    at = λ s (now, h).
        (Ensures-bind _ _
            (ignored_session (λ t. on_row name count_restart) (mark_service_running name now db))
            (λ a. Ensures-pure true (λ s h. (now, h.1)))).at
          s h;
  }
  finish_start-Ensures false db =
      Ensures-bind _ _ (ignored_session _ db)
        (λ a. Ensures-pure false (λ s h. ("start_service returned False", h.1)))

  marked :
      (db : Db)
      → Ensures
          (Rows db)
          (session world (λ now. on_row name mark_restarting))
          (λ a. Rows (Marked name db))
          (λ e. Rows (Marked name db))
  unfolding session
  marked db = record { at = λ s h. rw (works s.steps, session) (rw (← h) refl) }

  replace_container-Ensures :
      (svc : ServiceConfig) (db : Db)
      → Ensures
          (Rows db)
          (replace_container world name svc)
          (Replaced name (Marked name db))
          (λ e. Rows (Marked name db))
  unfolding replace_container
  replace_container-Ensures svc db =
      let P = Rows (Marked name db) in
      let quiet = Rows-IsQuiet (Marked name db) in
      Ensures-bind _ _ (marked db) λ a.
        Ensures-after _ _ (run-Keeps world P quiet _) (λ e s h. h)
          λ b.
            Ensures-after _ _
              (ignore_errors-Keeps world P quiet _ (remove_container-Keeps world P quiet _))
              (λ e s h. h)
              λ c.
                Ensures-after _ _ (wait_for_ports-Keeps world P quiet svc) (λ e s h. h)
                  λ d.
                    Ensures-try_except _ _
                      (Ensures-bind _ _ (start_service-Ensures svc (Marked name db))
                        (λ started. finish_start-Ensures started (Marked name db)))
                      (λ e. failed_start-Ensures e (Marked name db))

  tried-Ensures :
      (svc : ServiceConfig) (db : Db)
      → Ensures
          (Rows db)
          (try_except (replace_container world name svc) (give_up world name))
          (Replaced name (Marked name db))
          (λ e. Cleared name (Marked name db))
  unfolding Cleared
  tried-Ensures svc db = Ensures-try_except _ _ (replace_container-Ensures svc db) (λ e.
      Ensures-bind _ _ (ignored_session (λ now. on_row name clear_restarting) (Marked name db))
        (λ a. Ensures-raise e (λ s h. h.1)))

-- When the database works and the service has a row, a restart that is tried leaves the row in no
-- other way than these, whatever Docker and the ports do. If it succeeds the row is running and
-- healthy, with one restart more. If it fails it is unknown and crashed, with no restart more. If it
-- raises it is crashed, with its old status and no restart more. The failures counted and the restart
-- events stay in each case, and no row is left in the state restarting.
pub restart_outcome :
    (world : World) (name : String) (svc : ServiceConfig) (s : Node) (before : Service)
    → ((n : ℕ) → world.db_works n ≡ true)
    → row name s.db ≡ some before
    → let (r, s') = guarded_restart world name svc s in
      (after : Service) × (row name s'.db ≡ some after)
      × (s'.db.events ≡ s.db.events)
      × AfterRestart before r after
unfolding guarded_restart modify ◌>>=◌ try_finally
restart_outcome world name svc s before works found =
    let entered = add_active world name s in
    let (r, s') = try_except (replace_container world name svc) (give_up world name) entered in
    outcome_row name before s.db r s' found
      ((tried-Ensures world name works svc s.db).at entered refl)
