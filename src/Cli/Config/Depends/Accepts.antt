-- ===== src/Cli/Config/Depends/Accepts.antt =====
-- Which configurations are accepted.
use dockfleet.Prelude.{suc, String, ◌≡◌, refl, inl, inr, ◌⊎◌, ◌↔◌, keys, length}
use dockfleet.Cli.Config.Depends.{
  Refusal, Walk, Services, Result, ok, err, check_known, validate_depends_on,
}
use dockfleet.Core.Order
use dockfleet.Core.Order.{known, deps_of, resolve_service_order}
use dockfleet.Core.Order.Cycles.{Depends}
use dockfleet.Core.Order.Total.{order_unless_cycle}
use dockfleet.Cli.Config.Depends.Known.{AllKnown, ok-cases, check_known_iff}
use dockfleet.Cli.Config.Depends.Walks.{Sim, walk-Sim}

acyclic :
    (services : Services) (w : Order.Walk)
    → Order.for_each (Order.visit services (suc (length services))) (keys services) Order.start
      ≡ Order.ok w
    → (n : String) → ¬ Depends services n n
unfolding resolve_service_order
acyclic services w run n d = elim (order_unless_cycle services) [
  | inl (order, h, free) ↦ free n d
  | inr (m, h, d') ↦ let h' = rw run at h in cc
]

stuck :
    (services : Services) (e : Order.Failure)
    → Order.for_each (Order.visit services (suc (length services))) (keys services) Order.start
      ≡ Order.err e
    → ¬ ((n : String) → ¬ Depends services n n)
unfolding resolve_service_order
stuck services e run free = elim (order_unless_cycle services) [
  | inl (order, h, free') ↦ let h' = rw run at h in cc
  | inr (m, h, d) ↦ free m d
]

ok_of_Sim :
    (r : Order.Result Order.Walk) (s : Result Walk)
    → Sim r s
    → (((w : Order.Walk) × (r ≡ Order.ok w)) × ((v : Walk) × (s ≡ ok v)))
      ⊎ (((e : Order.Failure) × (r ≡ Order.err e)) × ((e : Refusal) × (s ≡ err e)))
ok_of_Sim (Order.ok w) (ok v) h = inl ((w, refl), (v, refl))
ok_of_Sim (Order.ok w) (err e) h = absurd h
ok_of_Sim (Order.err e) (ok v) h = absurd h
ok_of_Sim (Order.err e) (err e') h = inr ((e, refl), (e', refl))

accepted :
    (services : Services)
    → validate_depends_on services ≡ ok services
    → AllKnown services services × ((n : String) → ¬ Depends services n n)
unfolding validate_depends_on
accepted services h = elim (ok-cases (check_known services services)) [
  | inr (e, wrong) ↦ let h' = rw wrong at h in cc
  | inl right ↦
      let all = (check_known_iff services services).0 right in
      elim (ok_of_Sim _ _ (walk-Sim services all)) [
        | inr (p, (e, run)) ↦ let h' = rw (right, run) at h in cc
        | inl ((w, run), q) ↦ (all, acyclic services w run)
      ]
]

accepts :
    (services : Services)
    → AllKnown services services
    → ((n : String) → ¬ Depends services n n)
    → validate_depends_on services ≡ ok services
unfolding validate_depends_on
accepts services all free = elim (ok_of_Sim _ _ (walk-Sim services all)) [
  | inl (p, (v, run)) ↦ rw ((check_known_iff services services).1 all, run) refl
  | inr ((e, run), q) ↦ absurd (stuck services e run free)
]

-- `depends_on` is accepted exactly when every dependency is a service of the configuration and no
-- service depends on itself, over however many others.
pub accepts_iff :
    (services : Services)
    → (validate_depends_on services ≡ ok services)
      ↔ (AllKnown services services × ((n : String) → ¬ Depends services n n))
accepts_iff services = (accepted services, λ (all, free). accepts services all free)
