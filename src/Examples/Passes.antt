-- ===== src/Examples/Passes.antt =====
-- A pass of checks over two services.
use dockfleet.Prelude.{
  lookup, keys, member, ◌+◌, ◌*◌, ◌≤◌, ◌≡◌, refl, true, false, List, [], ◌∷◌, none, leb, max, arith,
  map, String, Bool, ℕ, eqb, ◌%◌,
}
use dockfleet.Cli.Config.{HealthCheckConfig}
use dockfleet.Core.Exec.{Outcome, ok}
use dockfleet.Health.Schedule.{second, due_services, set_deadlines, next_sleep}
use dockfleet.Health.Schedule.Deadlines.{due_after_pass}
use dockfleet.Health.Schedule.Sleep.{sleep_bounds}
use dockfleet.Health.Scheduler.{attempts_of, run_single_pass}
use dockfleet.Health.Scheduler.Limit.{pass_within_limit}
use dockfleet.Health.Poll.{poll}
use dockfleet.Health.Poll.Limits.{poll_within_limit}
use dockfleet.Examples.Data.{calm, config, two_services, web_config, http_check, scheduler}

due_after_pass_example :
    member "web" (due_services two_services (set_deadlines two_services none 60 500 []) 30500)
    ≡ leb (500 + 30 * second) 30500
unfolding lookup member keys
due_after_pass_example =
    due_after_pass two_services none 60 500 30500 [] "web" web_config http_check (refl, (refl, tt))
      refl refl refl

sleep_bounds_example :
    (next_sleep two_services 60 (("web", 5000) ∷ []) 7 1000 ≤ max second (60 * second))
    × (1000 + next_sleep two_services 60 (("web", 5000) ∷ []) 7 1000 ≤ 5000)
unfolding lookup member keys
sleep_bounds_example =
    sleep_bounds two_services 60 (("web", 5000) ∷ []) 7 1000 "web" 5000 refl refl (omega arith)

-- Every check that the pool runs fails.
abbrev all_fail : List (String × HealthCheckConfig) → List (String × Outcome Bool)
all_fail = map (λ (name, hc). (name, ok false))

pass_within_limit_example :
    attempts_of "web" (run_single_pass calm true config 60 all_fail none scheduler).1 ≤ 2
unfolding lookup
pass_within_limit_example =
    pass_within_limit calm (λ n. refl) true config "web" web_config 2 refl refl 60 all_fail none
      scheduler (omega arith)

-- In the even turns all checks pass, and in the odd ones they fail.
abbrev flapping : ℕ → List (String × HealthCheckConfig) → List (String × Outcome Bool)
flapping k = map (λ (name, hc). (name, ok (eqb (k % 2) 0)))

poll_within_limit_example : attempts_of "web" (poll calm true config 60 flapping 0 5 scheduler) ≤ 2
unfolding lookup
poll_within_limit_example =
    poll_within_limit calm (λ n. refl) true config 60 "web" web_config 2 refl refl flapping 0 5
      scheduler (omega arith)
