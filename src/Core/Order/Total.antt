-- ===== src/Core/Order/Total.antt =====
-- Whether a configuration has an order.
use dockfleet.Prelude.{suc, String, ◌≡◌, refl, true, List, inl, inr, ◌⊎◌, keys, member, length}
use dockfleet.Core.Order.{
  Failure, Result, ok, err, start, Services, for_each, visit, resolve_service_order, circular,
}
use dockfleet.Core.Order.Sound.{walk-Grows, member_of_All}
use dockfleet.Core.Order.Cycles.{Depends, Blames, on, walk_Blames}
use dockfleet.Core.Order.Acyclic.{not_behind_self, Depends-behind, known_of_Depends}

Result-cases : {A : Type 0} (r : Result A) → ((a : A) × (r ≡ ok a)) ⊎ ((e : Failure) × (r ≡ err e))
Result-cases (ok a) = inl (a, refl)
Result-cases (err e) = inr (e, refl)

abbrev Stuck : Services → Type 0
Stuck services =
    (n : String) × (resolve_service_order services ≡ err (circular n)) × Depends services n n

blamed :
    (services : Services) (e : Failure)
    → Blames services e
    → for_each (visit services (suc (length services))) (keys services) start ≡ err e
    → Stuck services
unfolding resolve_service_order
blamed services e (on n d) run = (n, rw run, d)

-- Either the services have an order and no service depends on itself, over however many others; or
-- resolving the order raises the error that names a service, and that service depends on itself.
-- So the walk neither runs out of depth nor looks up a missing service.
pub order_unless_cycle :
    (services : Services)
    → ((order : List String) × (resolve_service_order services ≡ ok order)
        × ((n : String) → ¬ Depends services n n))
      ⊎ ((n : String) × (resolve_service_order services ≡ err (circular n)) × Depends services n n)
unfolding resolve_service_order
order_unless_cycle services =
    let walk = for_each (visit services (suc (length services))) (keys services) start in
    elim (Result-cases walk) [
      | inl (w, run) ↦
          let (sane, all) = walk-Grows services w run in
          let inside = λ (k : String) (m : member k (keys services) ≡ true).
            member_of_All k (keys services) w.visited all m in
          inl (
            w.order,
            rw run,
            λ n d.
                let m = known_of_Depends services d in
                let loop = Depends-behind services w.visited sane.placed inside m d in
                let apart = not_behind_self services w.visited n sane.placed in cc,
          )
      | inr (e, run) ↦ inr (blamed services e (walk_Blames services e run) run)
    ]
