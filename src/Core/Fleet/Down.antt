-- ===== src/Core/Fleet/Down.antt =====
-- What a successful `down` leaves in the database.
use dockfleet.Prelude.{
  ℕ, String, ◌≡◌, ◌∙◌, refl, sym, true, List, [], ◌∷◌, reverse, Dict, All, keys, member, inl, inr,
}
use dockfleet.Cli.Config.{ServiceConfig}
use dockfleet.Health.Models.{Db}
use dockfleet.Core.Exec.{Node, Outcome, ok, raised}
use dockfleet.Core.Exec.Ensures.{Post, Ensures, Ensures-pure, Ensures-raise, Ensures-bind, Rows}
use dockfleet.Core.Order
use dockfleet.Core.Order.{resolve_service_order}
use dockfleet.Core.Order.Correct.{order_members, member-reverse}
use dockfleet.Core.Fleet.{Host, down, stop_all, unless_failed}
use dockfleet.Core.Fleet.Loops.{HasRow, IsOrFailed, Looped, run_each-Ensures}
use dockfleet.Core.Fleet.Stopped.{IsStopped, Stops, stop_one-Ensures}
use dockfleet.Core.Fleet.Up.{All-of_members, member-All, order_or_raise-Ensures}

module _ (host : Host) (services : Dict ServiceConfig)
    (works : (n : ℕ) → host.world.db_works n ≡ true) where
  AllStopped : Node → Type 0
  AllStopped s = All (IsStopped s.db) (keys services)

  member-back :
      (order : List String) (name : String)
      → resolve_service_order services ≡ Order.ok order
      → member name (reverse order) ≡ member name (keys services)
  member-back order name h = member-reverse name order ∙ order_members services order name h

  all_stopped :
      (order : List String) (s : Node)
      → resolve_service_order services ≡ Order.ok order
      → All (IsOrFailed Stops [] s.db) (reverse order)
      → AllStopped s
  unfolding AllStopped member
  all_stopped order s h a = All-of_members (keys services) λ name m.
      elim (member-All (IsOrFailed Stops [] s.db) (reverse order) name a
        (member-back order name h ∙ m)) [ inl failed ↦ absurd cc | inr stops ↦ stops ]

  failed-Ensures :
      (order failed : List String) (db : Db)
      → resolve_service_order services ≡ Order.ok order
      → Ensures
          (Looped Stops (reverse order) db failed)
          (unless_failed "Failed to stop services: " failed host.show)
          (λ u. AllStopped)
          (λ e s. Unit)
  failed-Ensures order [] db h = Ensures-pure tt (λ s l. all_stopped order s h l.1)
  failed-Ensures order (name ∷ names) db h = Ensures-raise _ (λ s l. tt)

  back-HasRow :
      (order : List String) (db : Db)
      → resolve_service_order services ≡ Order.ok order
      → All (HasRow db) (keys services)
      → All (HasRow db) (reverse order)
  back-HasRow order db h a =
      All-of_members (reverse order)
        λ name m. member-All (HasRow db) (keys services) name a (sym (member-back order name h) ∙ m)

  down-Ensures :
      (db : Db)
      → All (HasRow db) (keys services)
      → Ensures (Rows db) (down host services) (λ u. AllStopped) (λ e s. Unit)
  unfolding down stop_all
  down-Ensures db a =
      Ensures-bind _ _ (order_or_raise-Ensures db (resolve_service_order services)) λ order.
        record {
          at = λ s (h, e).
              (Ensures-bind _ _
                  (run_each-Ensures Stops _ (stop_one-Ensures host.world works) (reverse order) db
                    (back-HasRow order db e a))
                  (λ failed. failed-Ensures order failed db e)).at
                s h;
        }

down-Post :
    (host : Host) (services : Dict ServiceConfig) (works : (n : ℕ) → host.world.db_works n ≡ true)
    (r : Outcome (Unit {0})) (s : Node)
    → r ≡ ok tt
    → Post (λ u. AllStopped host services works) (λ e s. Unit) r s
    → All (IsStopped s.db) (keys services)
unfolding AllStopped
down-Post host services works (ok t) s h p = p
down-Post host services works (raised e) s h p = absurd cc

-- When the database works and each service of the configuration has a row, a `down` that returns
-- leaves each of them with a row that is stopped, whatever Docker did.
pub down_stops-All :
    (host : Host) (services : Dict ServiceConfig) (s : Node)
    → ((n : ℕ) → host.world.db_works n ≡ true)
    → All (HasRow s.db) (keys services)
    → (down host services s).0 ≡ ok tt
    → All (IsStopped (down host services s).1.db) (keys services)
down_stops-All host services s works rows h =
    down-Post host services works _ _ h ((down-Ensures host services works s.db rows).at s refl)
