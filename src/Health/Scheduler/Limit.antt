-- ===== src/Health/Scheduler/Limit.antt =====
-- The limit of automatic restarts, over a whole pass.
use dockfleet.Prelude.{
  ℕ, ◌+◌, ◌≤◌, String, ◌≡◌, ◌∙◌, refl, sym, ap, Bool, true, false, List, [], ◌∷◌, Option, none,
  some, lookup, lookup-put, lookup-pop, put, ◌==◌, eq_iff, leb, arith, Option-cases, ◌⊎◌, inl, inr,
  Bool-cases,
}
use dockfleet.Cli.Config.{ServiceConfig, HealthCheckConfig, DockFleetConfig}
use dockfleet.Health.Models.{Service}
use dockfleet.Health.Models.Rows.{row}
use dockfleet.Health.Status.{needs_restart}
use dockfleet.Core.Exec.{World, Node, tick, Outcome, ok, raised, session, ◌>>=◌}
use dockfleet.Core.Orchestrator.{Restart, done, refused, in_progress}
use dockfleet.Health.Schedule.{set_deadlines}
use dockfleet.Health.Scheduler.{
  Scheduler, handle_post_health, try_restart, load_row, heals, is_exhausted, attempts_of, backoff,
  after_restart, book_restart, process_result, process_results, checked_names, handle_all,
  run_single_pass, submitted,
}

-- A restart of `k` was counted only where the limit of `k` was not reached.
data Counts (config : DockFleetConfig) (k : String) (s s' : Scheduler) : Type 0 where
  same : s'.restart_attempts ≡ s.restart_attempts → Counts config k s s'
  one_more :
      (cfg : ServiceConfig)
      → lookup k config.services ≡ some cfg
      → is_exhausted cfg.max_restarts (attempts_of k s) ≡ false
      → s'.restart_attempts ≡ put k (attempts_of k s + 1) s.restart_attempts
      → Counts config k s s'

some_inj : {A : Type 0} {a b : A} → some a ≡ some b → a ≡ b
some_inj h = cc

below : (limit : Option ℕ) (m n : ℕ) → limit ≡ some m → is_exhausted limit n ≡ false → n + 1 ≤ m
below none m n h e = cc
below (some l) m n h e =
    let same : l ≡ m = some_inj h in let e' : leb l n ≡ false = e in ground arith

Counts-limit :
    (config : DockFleetConfig) (k name : String) (s s' : Scheduler) (cfg : ServiceConfig)
    (limit : ℕ)
    → lookup name config.services ≡ some cfg
    → cfg.max_restarts ≡ some limit
    → attempts_of name s ≤ limit
    → Counts config k s s'
    → attempts_of name s' ≤ limit
Counts-limit config k name s s' cfg limit named max h (same e) = rw e h
Counts-limit config k name s s' cfg limit named max h (one_more cfg' named' left e) =
    rw (e, lookup-put k name _ s.restart_attempts)
      (elim (Bool-cases (k == name)) [
        | inr there ↦ rw there h
        | inl here ↦
            let same : k ≡ name = (eq_iff k name).0 here in
            let cfg_same : cfg' ≡ cfg =
              some_inj (sym named' ∙ (ap (λ n. lookup n config.services) same ∙ named)) in
            rw here (
              below cfg'.max_restarts limit (attempts_of k s)
                (ap (λ c. c.max_restarts) cfg_same ∙ max) left)
      ])

module _ (world : World) (db_up : (n : ℕ) → world.db_works n ≡ true) where
  session-ok : (f : ℕ → _) (n : Node) → (session world f n).0 ≡ ok tt
  unfolding session
  session-ok f n = rw (db_up n.steps) refl

  booked : (svc : Service) (n : Node) → (book_restart world svc n).0 ≡ ok tt
  unfolding ◌>>=◌ session
  booked svc n = rw (db_up n.steps, db_up (n.steps + 1)) refl

  attempts-after_restart :
      (name : String) (svc : Service) (attempts : ℕ) (r : Outcome Restart) (s : Scheduler)
      → ((after_restart world name svc attempts (r, s)).restart_attempts ≡ s.restart_attempts)
        ⊎ ((after_restart world name svc attempts (r, s)).restart_attempts
            ≡ put name (attempts + 1) s.restart_attempts)
  attempts-after_restart name svc attempts (ok in_progress) s = inl refl
  attempts-after_restart name svc attempts (ok refused) s = inr refl
  attempts-after_restart name svc attempts (raised e) s = inr refl
  attempts-after_restart name svc attempts (ok done) s = inr (rw (booked svc s.node) refl)

  backoff-attempts :
      (name : String) (cfg : ServiceConfig) (attempts : ℕ) (s : Scheduler)
      → (backoff name cfg attempts s).1.restart_attempts ≡ s.restart_attempts
  unfolding backoff
  backoff-attempts name cfg attempts s = elim (Option-cases cfg.backoff_seconds) [
    | inl free ↦ rw (free, backoff) refl
    | inr (seconds, at) ↦ elim (Option-cases (lookup name s.next_restart_at)) [
      | inl first ↦ rw (at, backoff, first) refl
      | inr (time, found) ↦ rw (at, backoff, found) refl
    ]
  ]

  module _ (orchestrator_heals : Bool) (config : DockFleetConfig) where
    try_restart-Counts :
        (k : String) (cfg : ServiceConfig) (svc : Service) (s : Scheduler)
        → lookup k config.services ≡ some cfg
        → Counts config k s (try_restart world orchestrator_heals config k cfg svc s)
    unfolding try_restart
    try_restart-Counts k cfg svc s named =
        elim (Bool-cases (is_exhausted cfg.max_restarts (attempts_of k s))) [
          | inl full ↦ rw full (same refl)
          | inr left ↦ elim (Bool-cases (backoff k cfg (attempts_of k s) s).0) [
            | inl wait ↦ rw (left, wait) (same (backoff-attempts k cfg _ s))
            | inr go ↦
                let old = backoff-attempts k cfg (attempts_of k s) s in
                rw (left, go)
                  (elim (attempts-after_restart k svc (attempts_of k s) _ _) [
                    | inl e ↦ same (e ∙ old)
                    | inr e ↦ one_more cfg named left (e ∙ ap (put k (attempts_of k s + 1)) old)
                  ])
          ]
        ]

    handle_post_health-Counts :
        (k : String) (s : Scheduler)
        → Counts config k s (handle_post_health world orchestrator_heals config k s)
    unfolding handle_post_health
    handle_post_health-Counts k s = elim (Option-cases (lookup k config.services)) [
      | inl gone ↦ rw (gone, handle_post_health) (same refl)
      | inr (cfg, named) ↦ elim (Bool-cases (heals config cfg)) [
        | inr idle ↦ rw (named, handle_post_health, idle) (same refl)
        | inl on ↦ elim (Option-cases (row k s.node.db)) [
          | inl gone ↦
              rw (named, handle_post_health, on, load_row, db_up s.node.steps, gone) (same refl)
          | inr (svc, r) ↦ elim (Bool-cases (needs_restart svc)) [
            | inr fine ↦
                rw (named, handle_post_health, on, load_row, db_up s.node.steps, r, fine)
                  (same refl)
            | inl need ↦
                rw (named, handle_post_health, on, load_row, db_up s.node.steps, r, need)
                  (go svc
                    (try_restart-Counts k cfg svc (record s { node = tick world s.node }) named))
          ]
        ]
      ]
    ]
      where
        go :
            {s' : Scheduler} (svc : Service)
            → Counts config k (record s { node = tick world s.node }) s'
            → Counts config k s s'
        go svc (same e) = same e
        go svc (one_more cfg named left e) = one_more cfg named left e

    module _ (name : String) (cfg : ServiceConfig) (limit : ℕ)
        (named : lookup name config.services ≡ some cfg) (max : cfg.max_restarts ≡ some limit) where
      handle_all-limit :
          (names : List String) (s : Scheduler)
          → attempts_of name s ≤ limit
          → attempts_of name (handle_all world orchestrator_heals config names s) ≤ limit
      unfolding handle_all
      handle_all-limit [] s h = h
      handle_all-limit (k ∷ names) s h =
          handle_all-limit names _
            (Counts-limit config k name s _ cfg limit named max h (handle_post_health-Counts k s))

      process_result-limit :
          (k : String) (r : Outcome Bool) (s : Scheduler)
          → attempts_of name s ≤ limit
          → attempts_of name (process_result world orchestrator_heals config k r s) ≤ limit
      unfolding process_result
      process_result-limit k (raised e) s h = h
      process_result-limit k (ok false) s h = h
      process_result-limit k (ok true) s h =
          rw (lookup-pop k name s.restart_attempts) (elim (Bool-cases (k == name)) [
            | inl here ↦ rw here (omega arith)
            | inr there ↦ rw there h
          ])

      process_results-limit :
          (results : List (String × Outcome Bool)) (s : Scheduler)
          → attempts_of name s ≤ limit
          → attempts_of name (process_results world orchestrator_heals config results s) ≤ limit
      unfolding process_results
      process_results-limit [] s h = h
      process_results-limit ((k, r) ∷ rest) s h =
          process_results-limit rest _ (process_result-limit k r s h)

      -- While every database session works, a pass of checks keeps the restarts that are counted for
      -- a service within its limit, whatever the checks, Docker and the clock do: a limit that held
      -- before the pass holds after it.
      pub pass_within_limit :
          (default : ℕ) (finish : List (String × HealthCheckConfig) → List (String × Outcome Bool))
          (selected : Option (List String)) (s : Scheduler)
          → attempts_of name s ≤ limit
          → attempts_of name
              (run_single_pass world orchestrator_heals config default finish selected s).1
            ≤ limit
      unfolding run_single_pass
      pass_within_limit default finish selected s h =
          let results = finish (submitted config.services selected s.node.db.services) in
          let ready = record s {
            node = tick world s.node;
            next_check_at =
                set_deadlines config.services selected default s.node.now s.next_check_at;
          } in
          rw (db_up s.node.steps) (
            handle_all-limit (checked_names world orchestrator_heals config results)
              (process_results world orchestrator_heals config results ready)
              (process_results-limit results ready h))
