-- ===== src/Core/Fleet/Up.antt =====
-- What a successful `up` leaves in the database.
use dockfleet.Prelude.{
  ℕ, String, ◌≡◌, ◌∙◌, refl, sym, ◌==◌, eq_iff, true, List, [], ◌∷◌, Option, none, some, Dict, All,
  keys, member, lookup_of_member, Bool-cases, inl, inr, arith,
}
use dockfleet.Cli.Config.{ServiceConfig}
use dockfleet.Health.Models.{Service, Db}
use dockfleet.Health.Models.Rows.{row}
use dockfleet.Health.Services.{seed_services, service_from_config}
use dockfleet.Health.Services.Seeded.{SeedOf, seeded_rows}
use dockfleet.Health.Schedule.Deadlines.{Distinct}
use dockfleet.Core.Exec.{Node, Outcome, ok, raised}
use dockfleet.Core.Exec.Ensures.{
  Post, Ensures, Ensures-pure, Ensures-raise, Ensures-bind, Ensures-after, Ensures-session, Rows,
}
use dockfleet.Core.Order
use dockfleet.Core.Order.{resolve_service_order}
use dockfleet.Core.Order.Correct.{order_members}
use dockfleet.Core.Orchestrator.Quiet.{create_network-Keeps}
use dockfleet.Core.Orchestrator.Rows.{Rows-IsQuiet}
use dockfleet.Core.Fleet.{
  Host, up, bootstrap_from_config, order_or_raise, unless_failed, start_all, start_one,
}
use dockfleet.Core.Fleet.Started.{IsRunning, Runs, start_one-Ensures}
use dockfleet.Core.Fleet.Loops.{HasRow, IsOrFailed, Looped, run_each-Ensures}

pub All-of_members :
    {P : String → Type 0} (names : List String)
    → ((x : String) → member x names ≡ true → P x)
    → All P names
unfolding member
All-of_members [] h = tt
All-of_members (x ∷ names) h =
    (h x (ground (arith, eq_iff x x)), All-of_members names (λ y m. h y (ground (arith, m))))

pub member-All :
    (P : String → Type 0) (names : List String) (x : String)
    → All P names
    → member x names ≡ true
    → P x
unfolding member
member-All P [] x a m = cc
member-All P (y ∷ names) x a m = elim (Bool-cases (y == x)) [
  | inl here ↦ rw (← (eq_iff y x).0 here) a.0
  | inr there ↦ member-All P names x a.1 (rw there at m)
]

pub order_or_raise-Ensures :
    (rows : Db) (r : Order.Result (List String))
    → Ensures
        (Rows rows)
        (order_or_raise r)
        (λ order s. Rows rows s × (r ≡ Order.ok order))
        (λ e s. Unit)
order_or_raise-Ensures rows (Order.ok order) = Ensures-pure order (λ s h. (h, refl))
order_or_raise-Ensures rows (Order.err (Order.circular n)) = Ensures-raise _ (λ s h. tt)
order_or_raise-Ensures rows (Order.err (Order.missing n)) = Ensures-raise _ (λ s h. tt)
order_or_raise-Ensures rows (Order.err Order.too_deep) = Ensures-raise _ (λ s h. tt)

HasRow_of_SeedOf :
    (fresh : Service) (old : Option Service) (db : Db) (name : String)
    → SeedOf fresh old (row name db)
    → HasRow db name
HasRow_of_SeedOf fresh none db name (id, h) = (_, h)
HasRow_of_SeedOf fresh (some old) db name h = (_, h)

module _ (host : Host) (services : Dict ServiceConfig)
    (works : (n : ℕ) → host.world.db_works n ≡ true) (distinct : Distinct services) where
  seeded : Db → Db
  seeded db = seed_services host.next_id host.json services db

  seeded-HasRow :
      (db : Db) (name : String) → member name (keys services) ≡ true → HasRow (seeded db) name
  unfolding seeded
  seeded-HasRow db name m =
      let (cfg, found) = lookup_of_member name services m in
      HasRow_of_SeedOf (service_from_config host.json name cfg) (row name db) (seeded db) name
        (rw found at (seeded_rows host.next_id host.json services db name distinct))

  -- Each service of the configuration runs.
  AllRunning : Node → Type 0
  AllRunning s = All (IsRunning s.db) (keys services)

  all_running :
      (order : List String) (s : Node)
      → resolve_service_order services ≡ Order.ok order
      → All (IsOrFailed Runs [] s.db) order
      → AllRunning s
  unfolding AllRunning member
  all_running order s h a = All-of_members (keys services) λ name m.
      elim (member-All (IsOrFailed Runs [] s.db) order name a
        (order_members services order name h ∙ m)) [ inl failed ↦ absurd cc | inr runs ↦ runs ]

  unless_failed-Ensures :
      (order failed : List String)
      → resolve_service_order services ≡ Order.ok order
      → (db : Db)
      → Ensures
          (Looped Runs order db failed)
          (unless_failed "Failed to start services: " failed host.show)
          (λ u. AllRunning)
          (λ e s. Unit)
  unless_failed-Ensures order [] h db = Ensures-pure tt (λ s l. all_running order s h l.1)
  unless_failed-Ensures order (name ∷ names) h db = Ensures-raise _ (λ s l. tt)

  order-HasRow :
      (order : List String) (db : Db)
      → resolve_service_order services ≡ Order.ok order
      → All (HasRow (seeded db)) order
  order-HasRow order db h =
      All-of_members order
        λ name m. seeded-HasRow db name (sym (order_members services order name h) ∙ m)

  up-Ensures : (db : Db) → Ensures (Rows db) (up host services) (λ u. AllRunning) (λ e s. Unit)
  unfolding up bootstrap_from_config seeded start_all
  up-Ensures db = Ensures-bind _ _ (Ensures-session host.world _ db works) λ a. record {
    at = λ s (now, h).
        (Ensures-after _ _
            (create_network-Keeps host.world (Rows (seeded db)) (Rows-IsQuiet (seeded db)) _)
            (λ e s h. tt)
            λ b.
              Ensures-bind _ _ (order_or_raise-Ensures (seeded db) (resolve_service_order services))
                λ order. record {
                  at = λ s (h, e).
                      (Ensures-bind _ _
                          (run_each-Ensures Runs (start_one host services)
                            (start_one-Ensures host services works) order (seeded db)
                            (order-HasRow order db e))
                          (λ failed. unless_failed-Ensures order failed e (seeded db))).at
                        s h;
                }).at
          s h;
  }

up-Post :
    (host : Host) (services : Dict ServiceConfig) (works : (n : ℕ) → host.world.db_works n ≡ true)
    (distinct : Distinct services) (r : Outcome (Unit {0})) (s : Node)
    → r ≡ ok tt
    → Post (λ u. AllRunning host services works distinct) (λ e s. Unit) r s
    → All (IsRunning s.db) (keys services)
unfolding AllRunning
up-Post host services works distinct (ok t) s h p = p
up-Post host services works distinct (raised e) s h p = absurd cc

-- When the database works and the services of the configuration are distinct, an `up` that returns
-- leaves each of them with a row that is running, whatever was in the database before and whatever
-- Docker and the ports did.
pub up_runs-All :
    (host : Host) (services : Dict ServiceConfig) (s : Node)
    → ((n : ℕ) → host.world.db_works n ≡ true)
    → Distinct services
    → (up host services s).0 ≡ ok tt
    → All (IsRunning (up host services s).1.db) (keys services)
up_runs-All host services s works distinct h =
    up-Post host services works distinct _ _ h
      ((up-Ensures host services works distinct s.db).at s refl)
