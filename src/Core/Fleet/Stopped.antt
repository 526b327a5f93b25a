-- ===== src/Core/Fleet/Stopped.antt =====
-- One turn of the loop of `down`.
use dockfleet.Prelude.{ℕ, String, ◌≡◌, refl, Bool, true, false, none, some, inl, inr}
use dockfleet.Health.Models.{Service, Db, stopped, healthy}
use dockfleet.Health.Models.Rows.{KeepsName}
use dockfleet.Health.Status.{mark_service_stopped, set_status}
use dockfleet.Core.Exec.{World, Node, Exec}
use dockfleet.Core.Exec.Keeps.{Keeps, Keeps-try_except, Keeps-if, Keeps-pure, Keeps-raise}
use dockfleet.Core.Exec.Ensures.{
  Ensures, Ensures-pure, Ensures-after, Ensures-bind, Ensures-try_except, Ensures-session, Rows,
  Written,
}
use dockfleet.Core.Orchestrator.{stop_service, unless_absent}
use dockfleet.Core.Orchestrator.Quiet.{stop_container-Keeps, remove_container-Keeps}
use dockfleet.Core.Orchestrator.Rows.{Rows-IsQuiet}
use dockfleet.Core.Fleet.Loops.{
  HasRow, Ensures-weaken, Grows-refl, on_row-Grows, on_row-Is, Turned, Is,
}

abbrev pub Stops : Service → Type 0
Stops svc = svc.status ≡ stopped

abbrev pub IsStopped : Db → String → Type 0
IsStopped = Is Stops

abbrev halted : Service → Service
halted = set_status stopped (some healthy) none

halted-KeepsName : KeepsName halted
unfolding set_status
halted-KeepsName = record { at = λ svc. refl }

halted-Stops : (svc : Service) → Stops (halted svc)
unfolding set_status
halted-Stops svc = refl

module _ (world : World) (works : (n : ℕ) → world.db_works n ≡ true) where
  -- stop_service returns true and has marked the row, or returns false and has left the rows alone.
  Halted : String → Db → Bool → Node → Type 0
  Halted name db true s = Written (λ now. mark_service_stopped name) db s
  Halted name db false s = Rows db s

  Halted-Turned :
      (success : Bool) (name : String) (db : Db) (s : Node)
      → HasRow db name
      → Halted name db success s
      → Turned Stops name db success s
  unfolding Halted mark_service_stopped
  Halted-Turned true name db s there (now, h) = rw h (
    on_row-Grows Stops halted halted-KeepsName halted-Stops name db,
    inr (on_row-Is Stops halted halted-KeepsName halted-Stops name db there),
  )
  Halted-Turned false name db s there h = rw h (Grows-refl Stops db, inl refl)

  unless_absent-Keeps :
      (P : Node → Type 0) (m : Exec (Unit {0})) → Keeps P m → Keeps P (unless_absent world m)
  unless_absent-Keeps P m k =
      Keeps-try_except m _ k (λ e. Keeps-if _ _ _ (Keeps-pure tt) (Keeps-raise e))

  stop_service-Ensures :
      (name : String) (db : Db)
      → Ensures (Rows db) (stop_service world name) (Halted name db) (λ e s. Unit)
  unfolding stop_service Halted
  stop_service-Ensures name db =
      let quiet = Rows-IsQuiet db in
      Ensures-try_except {Inner = λ e. Rows db} _ _
        (Ensures-after _ _
          (unless_absent-Keeps (Rows db) _ (stop_container-Keeps world (Rows db) quiet _))
          (λ e s h. h)
          λ a.
            Ensures-after _ _
              (unless_absent-Keeps (Rows db) _ (remove_container-Keeps world (Rows db) quiet _))
              (λ e s h. h)
              λ b.
                Ensures-bind _ _ (Ensures-session world _ db works)
                  (λ c. Ensures-pure true (λ s h. h)))
        (λ e. Ensures-pure false (λ s h. h))

  pub stop_one-Ensures :
      (name : String) (db : Db)
      → HasRow db name
      → Ensures (Rows db) (stop_service world name) (Turned Stops name db) (λ e s. Unit)
  stop_one-Ensures name db there =
      Ensures-weaken _ (λ success s. Halted-Turned success name db s there) (λ e s h. tt)
        (stop_service-Ensures name db)
