-- ===== src/Cli/Config/Depends/Walks.antt =====
-- The walk of the validator beside the walk of the orchestrator.
use dockfleet.Prelude.{
  ℕ, zero, suc, String, ◌≡◌, ◌∙◌, refl, sym, ap, List, [], ◌∷◌, ◌++◌, inl, inr, lookup, keys,
  member, discard, length, Bool-cases, Option-cases,
}
use dockfleet.Cli.Config.{or_empty}
use dockfleet.Cli.Config.Depends.{
  Walk, Services, Result, ok, err, for_each, enter, visit, pop_last, start, ◌>>=◌,
}
use dockfleet.Core.Order
use dockfleet.Core.Order.{known, deps_of, resolve_service_order}
use dockfleet.Cli.Config.Depends.Known.{AllKnown, known-All, AllKnown-lookup}

-- The two walks, of the validator and of the orchestrator, at the same point.
pub record Same (w : Order.Walk) (v : Walk) : Type 0 where
  visited : w.visited ≡ v.visited
  visiting : w.visiting ≡ v.visiting

abbrev pub Sim : Order.Result Order.Walk → Result Walk → Type 0
Sim (Order.ok w) (ok v) = Same w v
Sim (Order.ok w) (err e) = ⊥
Sim (Order.err e) (ok v) = ⊥
Sim (Order.err e) (err e') = Unit

bind-Sim :
    (r : Order.Result Order.Walk) (s : Result Walk) (f : Order.Walk → Order.Result Order.Walk)
    (g : Walk → Result Walk)
    → Sim r s
    → ((w : Order.Walk) (v : Walk) → Same w v → Sim (f w) (g v))
    → Sim (Order.◌>>=◌ r f) (s >>= g)
bind-Sim (Order.ok w) (ok v) f g h k = k w v h
bind-Sim (Order.ok w) (err e) f g h k = absurd h
bind-Sim (Order.err e) (ok v) f g h k = absurd h
bind-Sim (Order.err e) (err e') f g h k = tt

abbrev VisitsSame :
    (String → Order.Walk → Order.Result Order.Walk) → (String → Walk → Result Walk) → Type 0
VisitsSame a b = (name : String) (w : Order.Walk) (v : Walk) → Same w v → Sim (a name w) (b name v)

for_each-Sim :
    (a : String → Order.Walk → Order.Result Order.Walk) (b : String → Walk → Result Walk)
    → VisitsSame a b
    → (names : List String) (w : Order.Walk) (v : Walk) → Same w v
    → Sim (Order.for_each a names w) (for_each b names v)
unfolding Order.for_each for_each
for_each-Sim a b same [] w v h = h
for_each-Sim a b same (name ∷ names) w v h =
    bind-Sim (a name w) (b name v) (Order.for_each a names) (for_each b names) (same name w v h)
      (λ w' v' h'. for_each-Sim a b same names w' v' h')

module _ (services : Services) (all : AllKnown services services) where
  enter-Sim :
      (a : String → Order.Walk → Order.Result Order.Walk) (b : String → Walk → Result Walk)
      → VisitsSame a b
      → VisitsSame (Order.enter services a) (enter services b)
  unfolding Order.enter enter
  enter-Sim a b same name w v h = elim (Option-cases (lookup name services)) [
    | inl gone ↦ rw (gone, Order.enter, enter) tt
    | inr (svc, found) ↦
        let deps = or_empty svc.depends_on in
        rw (found, Order.enter, enter)
          (bind-Sim
            (Order.for_each a (known services deps) (record w { visiting = name ∷ w.visiting }))
            (for_each b deps
              (record v { visiting = name ∷ v.visiting; path = v.path ++ name ∷ [] }))
            (λ x. Order.ok (record {
              visited = name ∷ x.visited;
              visiting = discard name x.visiting;
              order = x.order ++ name ∷ [];
            }))
            (λ x. ok (record {
              visited = name ∷ x.visited;
              visiting = discard name x.visiting;
              path = pop_last x.path;
            }))
            (rw (known-All services deps (AllKnown-lookup services services name svc all found)) (
              for_each-Sim a b same deps _ _
                (record { visited = h.visited; visiting = ap (λ l. name ∷ l) h.visiting })))
            (λ w' v' h'. record {
              visited = ap (λ l. name ∷ l) h'.visited;
              visiting = ap (discard name) h'.visiting;
            }))
  ]

  visit-Sim : (depth : ℕ) → VisitsSame (Order.visit services depth) (visit services depth)
  unfolding Order.visit visit
  visit-Sim zero name w v h = tt
  visit-Sim (suc depth) name w v h = elim (Bool-cases (member name w.visiting)) [
    | inl loop ↦ rw (loop, ap (member name) (sym h.visiting) ∙ loop) tt
    | inr fresh ↦
        let fresh' = ap (member name) (sym h.visiting) ∙ fresh in
        elim (Bool-cases (member name w.visited)) [
          | inl old ↦ rw (fresh, fresh', old, ap (member name) (sym h.visited) ∙ old) h
          | inr new ↦
              rw (fresh, fresh', new, ap (member name) (sym h.visited) ∙ new)
                (enter-Sim (Order.visit services depth) (visit services depth) (visit-Sim depth)
                  name w v h)
        ]
  ]

pub walk-Sim :
    (services : Services)
    → AllKnown services services
    → Sim
        (Order.for_each (Order.visit services (suc (length services))) (keys services) Order.start)
        (for_each (visit services (suc (length services))) (keys services) start)
walk-Sim services all =
    let depth = suc (length services) in
    for_each-Sim (Order.visit services depth) (visit services depth) (visit-Sim services all depth)
      (keys services) Order.start start (record { visited = refl; visiting = refl })
