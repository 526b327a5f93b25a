-- ===== src/Examples/Walks.antt =====
-- The order of two services, and a circle of two.
use dockfleet.Prelude.{
  ◌≡◌, refl, ◌⊎◌, ◌↔◌, false, true, List, [], ◌∷◌, String, some, Dict, member, keys, All,
}
use dockfleet.Cli.Config.{ServiceConfig}
use dockfleet.Cli.Config.Depends
use dockfleet.Cli.Config.Depends.{validate_depends_on}
use dockfleet.Cli.Config.Depends.Known.{AllKnown}
use dockfleet.Cli.Config.Depends.Accepts.{accepts_iff}
use dockfleet.Core.Order.{resolve_service_order, deps_of, ok, err, circular}
use dockfleet.Core.Order.Correct.{order_correct, order_members}
use dockfleet.Core.Order.Cycles.{Depends}
use dockfleet.Core.Order.Total.{order_unless_cycle}
use dockfleet.Examples.Data.{two_services, db_config, web_config}

abbrev order : List String
order = "db" ∷ "web" ∷ []

ordered : resolve_service_order two_services ≡ ok order
unfolding resolve_service_order
ordered = refl

abbrev circle : Dict ServiceConfig
circle = ("web", web_config) ∷ ("db", record db_config { depends_on = some ("web" ∷ []) }) ∷ []

circle-raises : resolve_service_order circle ≡ err (circular "web")
unfolding resolve_service_order
circle-raises = refl

circle-refused :
    validate_depends_on circle ≡ Depends.err (Depends.circular ("web" ∷ "db" ∷ "web" ∷ []))
unfolding validate_depends_on
circle-refused = refl

order_members_example : member "db" order ≡ member "db" (keys two_services)
order_members_example = order_members two_services order "db" ordered

order_correct_example :
    (member "web" ("db" ∷ []) ≡ false)
    × All (λ dep. member dep ("db" ∷ []) ≡ true) (deps_of two_services "web")
order_correct_example = order_correct two_services order ("db" ∷ []) "web" [] ordered refl

order_unless_cycle_example :
    ((found : List String) × (resolve_service_order circle ≡ ok found)
      × ((n : String) → ¬ Depends circle n n))
    ⊎ ((n : String) × (resolve_service_order circle ≡ err (circular n)) × Depends circle n n)
order_unless_cycle_example = order_unless_cycle circle

accepts_iff_example :
    (validate_depends_on two_services ≡ Depends.ok two_services)
    ↔ (AllKnown two_services two_services × ((n : String) → ¬ Depends two_services n n))
accepts_iff_example = accepts_iff two_services
