-- ===== src/Core/Order/Correct.antt =====
-- The order that a configuration gets.
use mathlib.Core.List.{append_assoc, reverse-append, reverse-reverse}
use dockfleet.Prelude.{
  suc, String, ◌≡◌, ◌∙◌, refl, sym, ap, true, false, ◌||◌, List, [], ◌∷◌, ◌++◌, reverse, keys,
  member, length, All, All-map_of, arith,
}
use dockfleet.Core.Order.{
  ok, Walk, start, Services, for_each, visit, resolve_service_order, deps_of,
}
use dockfleet.Core.Order.Sound.{
  Placed, Sane, AllVisited, walk-Grows, member_of_All, >>=-eq-ok, ok-injective,
}

-- The order of the walk, read from its end.
Placed-before :
    (services : Services) (later : List String) (name : String) (earlier : List String)
    → Placed services (later ++ name ∷ earlier)
    → Placed services (name ∷ earlier)
Placed-before services [] name earlier p = p
Placed-before services (x ∷ later) name earlier p = Placed-before services later name earlier p.2

member-append : (x : String) (s t : List String) → member x (s ++ t) ≡ (member x s || member x t)
unfolding member
member-append x [] t = refl
member-append x (y ∷ s) t = ground (arith, member-append x s t)

pub member-reverse : (x : String) (s : List String) → member x (reverse s) ≡ member x s
unfolding member
member-reverse x [] = refl
member-reverse x (y ∷ s) =
    rw (reverse-append (y ∷ []) s)
      (ground (arith, member-append x (reverse s) (y ∷ []), member-reverse x s))

visited_of_order :
    (visited order before : List String) (name : String) (after : List String)
    → order ≡ reverse visited
    → order ≡ before ++ name ∷ after
    → visited ≡ reverse after ++ name ∷ reverse before
visited_of_order visited order before name after p q =
    sym (reverse-reverse visited)
    ∙ ap reverse (sym p ∙ q)
    ∙ reverse-append before (name ∷ after)
    ∙ ap (λ l. l ++ reverse before) (reverse-append (name ∷ []) after)
    ∙ append_assoc (reverse after) (name ∷ []) (reverse before)

Placed-order :
    (services : Services) (visited before : List String) (name : String) (after : List String)
    → Placed services visited
    → visited ≡ reverse after ++ name ∷ reverse before
    → (member name before ≡ false) × All (λ dep. member dep before ≡ true) (deps_of services name)
Placed-order services visited before name after placed split =
    let p = Placed-before services (reverse after) name (reverse before) (rw split at placed) in
    (
      sym (member-reverse name before) ∙ p.0,
      All-map_of (λ dep h. sym (member-reverse dep before) ∙ h) (deps_of services name) p.1,
    )

-- The walk behind an order.
walked :
    (services : Services) (order : List String)
    → resolve_service_order services ≡ ok order
    → (w : Walk) × (order ≡ reverse w.visited)
      × Sane services w
      × All (λ name. member name w.visited ≡ true) (keys services)
unfolding resolve_service_order
walked services order h =
    let (w, run, done) =
      >>=-eq-ok (for_each (visit services (suc (length services))) (keys services) start)
        (λ w. ok w.order) h in
    let (sane, all) = walk-Grows services w run in
    (w, sym (ok-injective done) ∙ sane.order, sane, all)

same_members :
    (services : Services) (w : Walk) (order : List String) (name : String)
    → order ≡ reverse w.visited
    → Sane services w
    → AllVisited services (keys services) w
    → member name order ≡ member name (keys services)
same_members services w order name same sane all = ground (
  arith,
  ap (member name) same,
  member-reverse name w.visited,
  sane.inside name,
  member_of_All name (keys services) w.visited all,
)

-- If the services have an order, then it holds each service of the configuration and no other.
pub order_members :
    (services : Services) (order : List String) (name : String)
    → resolve_service_order services ≡ ok order
    → member name order ≡ member name (keys services)
order_members services order name h =
    let (w, same, sane, all) = walked services order h in
    same_members services w order name same sane all

-- If the services have an order, then wherever a service stands in it, the service does not stand
-- before that place, and all its dependencies that the configuration has do.
pub order_correct :
    (services : Services) (order before : List String) (name : String) (after : List String)
    → resolve_service_order services ≡ ok order
    → order ≡ before ++ name ∷ after
    → (member name before ≡ false) × All (λ dep. member dep before ≡ true) (deps_of services name)
order_correct services order before name after h split =
    let (w, same, sane, all) = walked services order h in
    Placed-order services w.visited before name after sane.placed
      (visited_of_order w.visited order before name after same split)
