-- ===== src/Cli/Config/Depends/Known.antt =====
-- The references to services that the first loops of the validator look at.
use dockfleet.Prelude.{
  String, ◌≡◌, refl, ◌==◌, true, List, [], ◌∷◌, some, inl, inr, ◌⊎◌, ◌↔◌, lookup, keys, member, All,
  arith, Bool-cases,
}
use dockfleet.Cli.Config.{ServiceConfig, or_empty}
use dockfleet.Cli.Config.Depends.{Refusal, Services, Result, ok, err, check_deps, check_known}
use dockfleet.Core.Order.{known}

-- Every dependency of every service is a service.
abbrev pub AllKnown : Services → Services → Type 0
AllKnown services [] = Unit
AllKnown services ((name, svc) ∷ rest) =
    All (λ dep. member dep (keys services) ≡ true) (or_empty svc.depends_on)
    × AllKnown services rest

check_deps-known :
    (services : Services) (name : String) (deps : List String)
    → (check_deps services name deps ≡ ok tt) ↔ All (λ dep. member dep (keys services) ≡ true) deps
unfolding check_deps
check_deps-known services name [] = (λ h. tt, λ h. refl)
check_deps-known services name (dep ∷ deps) = (
  λ h. ground (arith, check_deps-known services name deps),
  λ h. ground (arith, check_deps-known services name deps),
)

pub ok-cases : (r : Result (Unit {0})) → (r ≡ ok tt) ⊎ ((e : Refusal) × (r ≡ err e))
ok-cases (ok t) = inl refl
ok-cases (err e) = inr (e, refl)

some_inj : {a b : ServiceConfig} → some a ≡ some b → a ≡ b
some_inj h = cc

pub check_known_iff :
    (services rest : Services) → (check_known services rest ≡ ok tt) ↔ AllKnown services rest
unfolding check_known
check_known_iff services [] = (λ h. tt, λ h. refl)
check_known_iff services ((name, svc) ∷ rest) =
    let deps = or_empty svc.depends_on in
    (
      λ h. elim (ok-cases (check_deps services name deps)) [
        | inl here ↦ (
          (check_deps-known services name deps).0 here,
          (check_known_iff services rest).0 (rw here at h),
        )
        | inr (e, wrong) ↦ let h' = rw wrong at h in cc
      ],
      λ a. rw ((check_deps-known services name deps).1 a.0) ((check_known_iff services rest).1 a.1),
    )

pub known-All :
    (services : Services) (deps : List String)
    → All (λ dep. member dep (keys services) ≡ true) deps
    → known services deps ≡ deps
unfolding known
known-All services [] a = refl
known-All services (dep ∷ deps) a = ground (arith, a.0, known-All services deps a.1)

pub AllKnown-lookup :
    (services rest : Services) (name : String) (svc : ServiceConfig)
    → AllKnown services rest
    → lookup name rest ≡ some svc
    → All (λ dep. member dep (keys services) ≡ true) (or_empty svc.depends_on)
unfolding lookup
AllKnown-lookup services [] name svc a h = cc
AllKnown-lookup services ((k, v) ∷ rest) name svc a h = elim (Bool-cases (k == name)) [
  | inl here ↦ let same : v ≡ svc = some_inj (rw here at h) in rw (← same) a.0
  | inr there ↦ AllKnown-lookup services rest name svc a.1 (rw there at h)
]
