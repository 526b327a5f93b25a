-- ===== src/Health/Status/Stopped.antt =====
-- A service that was stopped on purpose, and the checks that still come in.
use dockfleet.Prelude.{◌≡◌, refl, Bool, true, false, List, [], ◌∷◌, Option, String, ℕ, All, arith}
use dockfleet.Health.Models.{stopped, Service}
use dockfleet.Health.Status.{record_check, needs_restart}
use dockfleet.Health.Status.Streaks.{Check, checked, Fails}

record_check-stopped :
    (passed : Bool) (reason : Option String) (time : ℕ) (svc : Service)
    → svc.status ≡ stopped
    → (record_check passed reason time svc).status ≡ stopped
unfolding record_check
record_check-stopped true reason time svc h = ground arith
record_check-stopped false reason time svc h = ground arith

checked-stopped :
    (history : List Check) (svc : Service)
    → svc.status ≡ stopped
    → (checked history svc).status ≡ stopped
unfolding checked
checked-stopped [] svc h = h
checked-stopped (c ∷ rest) svc h =
    checked-stopped rest (record_check c.passed c.reason c.time svc)
      (record_check-stopped c.passed c.reason c.time svc h)

-- Whatever checks a stopped service gets, passing ones too, it stays stopped and needs no restart.
pub checked_stopped_stays :
    (history : List Check) (svc : Service)
    → svc.status ≡ stopped
    → ((checked history svc).status ≡ stopped) × (needs_restart (checked history svc) ≡ false)
unfolding needs_restart
checked_stopped_stays history svc h = ground (arith, checked-stopped history svc h)

failing_check_ignored :
    (reason : Option String) (time : ℕ) (svc : Service)
    → svc.status ≡ stopped
    → record_check false reason time svc ≡ svc
unfolding record_check
failing_check_ignored reason time svc h = ground arith

-- Checks that fail leave the whole row of a stopped service as it was.
pub failing_checks_ignored :
    (fails : List Check) (svc : Service)
    → All Fails fails
    → svc.status ≡ stopped
    → checked fails svc ≡ svc
unfolding checked
failing_checks_ignored [] svc f h = refl
failing_checks_ignored (c ∷ rest) svc f h =
    rw (f.0, failing_check_ignored c.reason c.time svc h) (failing_checks_ignored rest svc f.1 h)
