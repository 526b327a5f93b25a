-- ===== src/Examples/Rows.antt =====
-- Checks, restarts and stops of two rows.
use dockfleet.Prelude.{◌≡◌, refl, String, true, false, List, [], ◌∷◌, Option, some}
use dockfleet.Health.Models.{Service, stopped, unhealthy}
use dockfleet.Health.Models.Rows.{names, row}
use dockfleet.Health.Status.{allows_restart, needs_restart, record_check}
use dockfleet.Health.Status.Streaks.{Check, checked, StreakOf, streak_since_pass}
use dockfleet.Health.Status.Stopped.{checked_stopped_stays}
use dockfleet.Health.Status.Writes.{Write, check, manual_restart, writes, Extends, writes_frame}
use dockfleet.Examples.Data.{web_row, rows, fail, pass}

abbrev stopped_row : Service
stopped_row = record web_row { status = stopped }

abbrev three_fails : List Check
three_fails = fail 4 ∷ fail 5 ∷ fail 6 ∷ []

two_fails :
    (checked (fail 4 ∷ fail 5 ∷ []) (record web_row { consecutive_failures = 0 })).health_status
    ≡ unhealthy
unfolding checked record_check
two_fails = refl

crashed_row : needs_restart web_row ≡ true
unfolding needs_restart allows_restart
crashed_row = refl

underscored : needs_restart (record web_row { restart_policy = " On_Failure " }) ≡ true
unfolding needs_restart allows_restart
underscored = refl

streak_since_pass_example : StreakOf web_row (fail 1 ∷ fail 2 ∷ []) three_fails (pass 3)
streak_since_pass_example =
    streak_since_pass web_row (fail 1 ∷ fail 2 ∷ []) (pass 3) three_fails refl refl
      (refl, (refl, (refl, tt)))

checked_stopped_stays_example :
    ((checked (pass 3 ∷ three_fails) stopped_row).status ≡ stopped)
    × (needs_restart (checked (pass 3 ∷ three_fails) stopped_row) ≡ false)
checked_stopped_stays_example = checked_stopped_stays (pass 3 ∷ three_fails) stopped_row refl

abbrev web_writes : List Write
web_writes = check "web" false (some "timeout") 5 ∷ manual_restart "web" 9 ∷ []

apart : ¬ ◌≡◌ {A = Option String} (some "web") (some "db")
apart h = cc

writes_frame_example :
    (names (writes web_writes rows).services ≡ names rows.services)
    × (row "db" (writes web_writes rows) ≡ row "db" rows)
    × Extends rows.events (writes web_writes rows).events
writes_frame_example = writes_frame web_writes rows "db" (apart, (apart, tt))
