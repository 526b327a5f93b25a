-- ===== src/Core/Order.antt =====
-- Orchestrator._resolve_service_order of dockfleet/core/orchestrator.py: the order in which services
-- are started. A set is the list of its members, the latest first.
pub mod Sound
pub mod Correct
pub mod Depth
pub mod Cycles
pub mod Acyclic
pub mod Total
use dockfleet.Prelude.{
  ℕ, zero, suc, String, List, [], ◌∷◌, ◌++◌, Option, none, some, Dict, lookup, keys, member,
  discard, length, if◌then◌else◌,
}
use dockfleet.Cli.Config.{ServiceConfig, or_empty}

pub data Failure : Type 0 where
  circular : String → Failure
  missing : String → Failure  -- KeyError
  too_deep : Failure  -- the fuel ran out

pub data Result {ℓ} (A : Type ℓ) : Type ℓ where
  ok : A → Result A
  err : Failure → Result A

module _ {ℓ κ} {A : Type ℓ} {B : Type κ} where
  infixl 5 ◌>>=◌
  abbrev pub ◌>>=◌ : Result A → (A → Result B) → Result B
  ok value >>= next = next value
  err failure >>= next = err failure

pub record Walk : Type 0 where
  pub visited : List String
  pub visiting : List String
  pub order : List String

abbrev pub start : Walk
start = record { visited = []; visiting = []; order = [] }

abbrev pub Services : Type 0
Services = Dict ServiceConfig

-- The dependencies that the loop visits: `if dep in self.config.services`.
unfoldable pub known : Services → List String → List String
unfolding keys member
known services [] = []
known services (dep ∷ deps) =
    let rest = known services deps in if member dep (keys services) then dep ∷ rest else rest

unfoldable pub for_each : (String → Walk → Result Walk) → List String → Walk → Result Walk
for_each visit [] w = ok w
for_each visit (name ∷ names) w = do w' ← visit name w; for_each visit names w'

-- The part of `visit` from `visiting.add(name)` on; `again` is the recursive call.
unfoldable pub enter : Services → (String → Walk → Result Walk) → String → Walk → Result Walk
unfolding known for_each discard lookup
enter services again name w = elim (lookup name services) [
  | none ↦ err (missing name)
  | some svc ↦ do
    w' ←
        for_each again (known services (or_empty svc.depends_on))
          (record w { visiting = name ∷ w.visiting })
    ok (record {
      visited = name ∷ w'.visited;
      visiting = discard name w'.visiting;
      order = w'.order ++ name ∷ [];
    })
]

-- The calls nest at most as deep as there are services, and once more to find a cycle.
unfoldable pub visit : Services → ℕ → String → Walk → Result Walk
unfolding enter member
visit services zero name w = err too_deep
visit services (suc depth) name w =
    if member name w.visiting
    then err (circular name)
    else if member name w.visited
    then ok w
    else enter services (visit services depth) name w

unfoldable pub resolve_service_order : Services → Result (List String)
unfolding visit
resolve_service_order services = do
  w ← for_each (visit services (suc (length services))) (keys services) start
  ok w.order

-- The dependencies of a service that the walk follows.
unfoldable pub deps_of : Services → String → List String
unfolding known lookup
deps_of services name = elim (lookup name services) [
  | none ↦ []
  | some svc ↦ known services (or_empty svc.depends_on)
]
