-- ===== src/Health/Status/Streaks.antt =====
-- Histories of health checks: when status.py calls a service crashed, and when it lets it restart.
use dockfleet.Prelude.{
  ℕ, ◌+◌, ◌≡◌, ◌∙◌, refl, Bool, true, false, ◌&&◌, leb, if◌then◌else◌, List, [], ◌∷◌, ◌++◌, Option,
  String, arith, length, All,
}
use dockfleet.Health.Models.{healthy, unhealthy, crashed, Service}
use dockfleet.Health.Status.{is_stopped, record_check, allows_restart, needs_restart}

-- The arguments of one call of update_service_health, with the time of the call.
pub record Check : Type 0 where
  pub passed : Bool
  pub reason : Option String
  pub time : ℕ

unfoldable pub checked : List Check → Service → Service
checked [] svc = svc
checked (c ∷ rest) svc = checked rest (record_check c.passed c.reason c.time svc)

abbrev pub Fails : Check → Type 0
Fails c = c.passed ≡ false

abbrev pub Live : Service → Type 0
Live svc = is_stopped svc.status ≡ false

checked-append :
    (before after : List Check) (svc : Service)
    → checked (before ++ after) svc ≡ checked after (checked before svc)
unfolding checked
checked-append [] after svc = refl
checked-append (c ∷ rest) after svc =
    checked-append rest after (record_check c.passed c.reason c.time svc)

record_check-Live :
    (passed : Bool) (reason : Option String) (time : ℕ) (svc : Service)
    → Live svc
    → Live (record_check passed reason time svc)
unfolding record_check
record_check-Live true reason time svc h = ground arith
record_check-Live false reason time svc h = ground arith

checked-Live : (history : List Check) (svc : Service) → Live svc → Live (checked history svc)
unfolding checked
checked-Live [] svc h = h
checked-Live (c ∷ rest) svc h =
    checked-Live rest (record_check c.passed c.reason c.time svc)
      (record_check-Live c.passed c.reason c.time svc h)

-- The columns of a live row after failing checks.
record Failed (count : ℕ) (before after : Service) : Type 0 where
  live : Live after
  policy : after.restart_policy ≡ before.restart_policy
  counted : after.consecutive_failures ≡ count
  health :
      after.health_status
      ≡ (if leb 3 count then crashed else if leb 1 count then unhealthy else healthy)

failing_check :
    (reason : Option String) (time count : ℕ) (before svc : Service)
    → Failed count before svc
    → Failed (count + 1) before (record_check false reason time svc)
unfolding record_check
failing_check reason time count before svc h = ground arith

failing_checks :
    (fails : List Check) (count : ℕ) (before svc : Service)
    → All Fails fails
    → Failed count before svc
    → Failed (count + length fails) before (checked fails svc)
unfolding checked
failing_checks [] count before svc f h = rw (let e : count + 0 ≡ count = omega arith in e) h
failing_checks (c ∷ rest) count before svc f h =
    let step = failing_check c.reason c.time count before svc h in
    let more =
      failing_checks rest (count + 1) before (record_check false c.reason c.time svc) f.1 step in
    let sum : count + length (c ∷ rest) ≡ count + 1 + length rest = omega arith in
    rw (f.0, sum) more

passing_check :
    (reason : Option String) (time : ℕ) (svc : Service)
    → Live svc
    → Failed 0 svc (record_check true reason time svc)
unfolding record_check
passing_check reason time svc h = ground arith

record_check-policy :
    (passed : Bool) (reason : Option String) (time : ℕ) (svc : Service)
    → (record_check passed reason time svc).restart_policy ≡ svc.restart_policy
unfolding record_check
record_check-policy true reason time svc = refl
record_check-policy false reason time svc = ground arith

checked-policy :
    (history : List Check) (svc : Service)
    → (checked history svc).restart_policy ≡ svc.restart_policy
unfolding checked
checked-policy [] svc = refl
checked-policy (c ∷ rest) svc =
    checked-policy rest (record_check c.passed c.reason c.time svc)
    ∙ record_check-policy c.passed c.reason c.time svc

needs_restart_of_Failed :
    (count : ℕ) (before after : Service)
    → Failed count before after
    → needs_restart after ≡ (leb 3 count && allows_restart before.restart_policy)
unfolding needs_restart
needs_restart_of_Failed count before after h = ground arith

abbrev pub StreakOf : Service → List Check → List Check → Check → Type 0
StreakOf svc before fails pass =
    let after = checked (before ++ pass ∷ fails) svc in
    (after.consecutive_failures ≡ length fails)
    × (after.health_status ≡ (
        if leb 3 (length fails)
        then crashed
        else if leb 1 (length fails)
        then unhealthy
        else healthy))
    × (needs_restart after ≡ (leb 3 (length fails) && allows_restart svc.restart_policy))

-- Take a service that is not stopped, any history of checks, then a check that passes and checks
-- that all fail. The failures counted are exactly the checks since the passing one; the health is
-- crashed from three of them on, unhealthy from one and healthy at none; and the service needs a
-- restart exactly when they are at least three and the restart policy allows it.
pub streak_since_pass :
    (svc : Service) (before : List Check) (pass : Check) (fails : List Check)
    → Live svc
    → pass.passed ≡ true
    → All Fails fails
    → StreakOf svc before fails pass
unfolding checked
streak_since_pass svc before pass fails live p f =
    let mid = checked before svc in
    let reset = record_check pass.passed pass.reason pass.time mid in
    let start : Failed 0 mid reset =
      rw p (passing_check pass.reason pass.time mid (checked-Live before svc live)) in
    let end = failing_checks fails 0 mid reset f start in
    let policy : mid.restart_policy ≡ svc.restart_policy = checked-policy before svc in
    ground (
      arith,
      checked-append before (pass ∷ fails) svc,
      needs_restart_of_Failed (0 + length fails) mid (checked fails reset) end,
      policy,
    )
