-- ===== src/Core/Orchestrator/Guard.antt =====
-- The set of active restarts around a restart.
use dockfleet.Prelude.{
  ℕ, String, ◌≡◌, ◌∙◌, refl, ap, ◌==◌, Bool, true, false, List, ◌∷◌, inl, inr, lookup, member,
  discard, discard-head, Bool-cases, Option-cases,
}
use dockfleet.Cli.Config.{ServiceConfig, DockFleetConfig}
use dockfleet.Health.Models.{Db}
use dockfleet.Health.Models.Rows.{on_row}
use dockfleet.Health.Status.{mark_service_running}
use dockfleet.Core.Exec.{
  World, Node, Outcome, ok, raised, pure, gets, modify, ◌>>=◌, try_except, try_finally, session,
  then_do,
}
use dockfleet.Core.Exec.Keeps.{
  Keeps, Keeps-pure, Keeps-raise, Keeps-if, Keeps-bind, Keeps-try_except,
}
use dockfleet.Core.Orchestrator.{
  launch, start_service, mark_restart_failed, increment_restart_count, finish_start,
  replace_container, give_up, add_active, guarded_restart, is_never, to_restart, restart_known,
  restart_service, mark_restarting, count_restart, restart_failed, clear_restarting,
}
use dockfleet.Core.Orchestrator.Quiet.{
  IsQuiet, run-Keeps, remove_container-Keeps, run_container-Keeps, wait_for_ports-Keeps,
  ignore_errors-Keeps,
}

-- The sessions that a restart of `name` may run, and that `P` survives.
pub record Survives (world : World) (name : String) (P : Node → Type 0) : Type 0 where
  pub quiet : IsQuiet P
  pub started : Keeps P (session world (λ now. mark_service_running name now))
  pub restarting : Keeps P (session world (λ now. on_row name mark_restarting))
  pub counted : Keeps P (session world (λ now. on_row name count_restart))
  pub failed :
      (reason : String) → Keeps P (session world (λ now. on_row name (restart_failed reason)))
  pub cleared : Keeps P (session world (λ now. on_row name clear_restarting))

module _ (world : World) (name : String) (P : Node → Type 0)
    (survives : Survives world name P) where
  open survives use {quiet, started, restarting, counted, failed, cleared}

  launch-Keeps : (svc : ServiceConfig) → Keeps P (launch world name svc)
  launch-Keeps svc =
      Keeps-bind _ _ (ignore_errors-Keeps world P quiet _ (remove_container-Keeps world P quiet _))
        λ a. Keeps-bind _ _ (Keeps-if (svc.image == "") _ _ (Keeps-raise _) (Keeps-pure tt)) λ b.
          Keeps-bind _ _ (wait_for_ports-Keeps world P quiet svc) λ c.
            Keeps-bind _ _ (run_container-Keeps world P quiet _ _ _ _)
              λ d. Keeps-bind _ _ started (λ e. Keeps-pure true)

  pub start_service-Keeps : (svc : ServiceConfig) → Keeps P (start_service world name svc)
  unfolding start_service
  start_service-Keeps svc = Keeps-try_except _ _ (launch-Keeps svc) (λ e. Keeps-pure false)

  mark_restart_failed-Keeps : (reason : String) → Keeps P (mark_restart_failed world name reason)
  unfolding mark_restart_failed
  mark_restart_failed-Keeps reason = ignore_errors-Keeps world P quiet _ (failed reason)

  finish_start-Keeps : (started : Bool) → Keeps P (finish_start world name started)
  unfolding increment_restart_count
  finish_start-Keeps true =
      Keeps-bind _ _ (ignore_errors-Keeps world P quiet _ counted) (λ a. Keeps-pure true)
  finish_start-Keeps false = Keeps-bind _ _ (mark_restart_failed-Keeps _) (λ a. Keeps-pure false)

  pub replace_container-Keeps : (svc : ServiceConfig) → Keeps P (replace_container world name svc)
  unfolding replace_container
  replace_container-Keeps svc = Keeps-bind _ _ restarting λ a.
      Keeps-bind _ _ (run-Keeps world P quiet _) λ b.
        Keeps-bind _ _
          (ignore_errors-Keeps world P quiet _ (remove_container-Keeps world P quiet _))
          λ c. Keeps-bind _ _ (wait_for_ports-Keeps world P quiet svc) λ d.
            Keeps-try_except _ _ (Keeps-bind _ _ (start_service-Keeps svc) finish_start-Keeps)
              (λ e. Keeps-bind _ _ (mark_restart_failed-Keeps e) (λ a. Keeps-pure false))

  pub tried-Keeps :
      (svc : ServiceConfig)
      → Keeps P (try_except (replace_container world name svc) (give_up world name))
  tried-Keeps svc =
      Keeps-try_except _ _ (replace_container-Keeps svc)
        (λ e. Keeps-bind _ _ (ignore_errors-Keeps world P quiet _ cleared) (λ a. Keeps-raise e))

abbrev Active : List String → Node → Type 0
Active names s = s.active ≡ names

session-Active :
    (world : World) (names : List String) (f : ℕ → Db → Db) → Keeps (Active names) (session world f)
unfolding session
session-Active world names f = record {
  at = λ s h. elim (Bool-cases (world.db_works s.steps)) [
    | inl works ↦ rw (works, session) h
    | inr fails ↦ rw (fails, session) h
  ];
}

Active-Survives :
    (world : World) (name : String) (names : List String) → Survives world name (Active names)
Active-Survives world name names = record {
  quiet = record { carry = λ s s' db active h. active ∙ h };
  started = session-Active world names _;
  restarting = session-Active world names _;
  counted = session-Active world names _;
  failed = λ reason. session-Active world names _;
  cleared = session-Active world names _;
}

guarded_restart-active :
    (world : World) (name : String) (svc : ServiceConfig) (s : Node)
    → member name s.active ≡ false
    → (guarded_restart world name svc s).1.active ≡ s.active
unfolding guarded_restart modify ◌>>=◌ try_finally
guarded_restart-active world name svc s free =
    let kept =
      (tried-Keeps world name (Active (name ∷ s.active))
          (Active-Survives world name (name ∷ s.active)) svc).at
        (add_active world name s) refl in
    ap (discard name) kept ∙ discard-head name s.active free

map-state :
    (result : Outcome Bool × Node)
    → (then_do result.0 (λ started. pure (to_restart started)) result.1).1 ≡ result.1
unfolding pure
map-state (ok b, s) = refl
map-state (raised e, s) = refl

-- restart_service leaves the set of active restarts as it found it, whatever the outcome and however
-- Docker, the ports and the database behave: whether it refuses, succeeds, fails or raises.
pub restart_service-active :
    (world : World) (self_healing : Bool) (name : String) (config : DockFleetConfig)
    (detailed : Bool) (s : Node)
    → (restart_service world self_healing name config detailed s).1.active ≡ s.active
unfolding restart_service gets ◌>>=◌ pure
restart_service-active world false name config detailed s = refl
restart_service-active world true name config detailed s =
    elim (Option-cases (lookup name config.services)) [
      | inl gone ↦ rw (gone, restart_service) refl
      | inr (svc, found) ↦ rw (found, restart_service) (known_active svc)
    ]
  where
    known_active :
        (svc : ServiceConfig)
        → (restart_known world true name svc detailed s.active s).1.active ≡ s.active
    known_active svc = elim (Bool-cases (is_never svc.restart)) [
      | inl barred ↦ rw barred refl
      | inr allowed ↦ elim (Bool-cases (member name s.active)) [
        | inl busy ↦ rw (allowed, busy) refl
        | inr free ↦
            rw (allowed, free)
              (ap (λ t. t.active) (map-state (guarded_restart world name svc s))
                ∙ guarded_restart-active world name svc s free)
      ]
    ]
