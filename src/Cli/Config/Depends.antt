-- ===== src/Cli/Config/Depends.antt =====
-- DockFleetConfig.validate_depends_on of dockfleet/cli/config.py: references to services that are
-- not there, and circular ones, are refused.
pub mod Known
pub mod Walks
pub mod Accepts
use dockfleet.Prelude.{
  ℕ, zero, suc, String, ◌==◌, List, [], ◌∷◌, ◌++◌, Option, none, some, Dict, lookup, keys, member,
  discard, length, if◌then◌else◌,
}
use dockfleet.Cli.Config.{ServiceConfig, or_empty}

pub data Refusal : Type 0 where
  unknown_service : String → String → Refusal
  circular : List String → Refusal
  missing : String → Refusal  -- KeyError
  too_deep : Refusal  -- the fuel ran out

pub data Result {ℓ} (A : Type ℓ) : Type ℓ where
  ok : A → Result A
  err : Refusal → Result A

module _ {ℓ κ} {A : Type ℓ} {B : Type κ} where
  infixl 5 ◌>>=◌
  abbrev pub ◌>>=◌ : Result A → (A → Result B) → Result B
  ok value >>= next = next value
  err refusal >>= next = err refusal

module _ {ℓ} {B : Type ℓ} where
  infixl 5 ◌>>◌
  abbrev pub ◌>>◌ : Result (Unit {0}) → Result B → Result B
  tests >> next = tests >>= λ passed. next

-- `visited` and `visiting` are sets; `path` is kept in the order of the list.
pub record Walk : Type 0 where
  pub visited : List String
  pub visiting : List String
  pub path : List String

abbrev pub start : Walk
start = record { visited = []; visiting = []; path = [] }

abbrev pub Services : Type 0
Services = Dict ServiceConfig

-- `path[path.index(name):]`
unfoldable pub from_index : String → List String → List String
from_index name [] = []
from_index name (x ∷ path) = let rest = from_index name path in if x == name then x ∷ path else rest

-- `path.pop()`
unfoldable pub pop_last : List String → List String
pop_last [] = []
pop_last (x ∷ []) = []
pop_last (x ∷ y ∷ path) = x ∷ pop_last (y ∷ path)

-- the first pair of loops
unfoldable pub check_deps : Services → String → List String → Result (Unit {0})
unfolding keys member
check_deps services name [] = ok tt
check_deps services name (dep ∷ deps) =
    let rest = check_deps services name deps in
    if member dep (keys services) then rest else err (unknown_service name dep)

unfoldable pub check_known : Services → Services → Result (Unit {0})
unfolding check_deps
check_known services [] = ok tt
check_known services ((name, svc) ∷ rest) = do
  check_deps services name (or_empty svc.depends_on)
  check_known services rest

unfoldable pub for_each : (String → Walk → Result Walk) → List String → Walk → Result Walk
for_each visit [] w = ok w
for_each visit (name ∷ names) w = do w' ← visit name w; for_each visit names w'

-- The part of `visit` from `visiting.add(name)` on; `again` is the recursive call.
unfoldable pub enter : Services → (String → Walk → Result Walk) → String → Walk → Result Walk
unfolding for_each discard lookup pop_last
enter services again name w = elim (lookup name services) [
  | none ↦ err (missing name)
  | some svc ↦ do
    w' ←
        for_each again (or_empty svc.depends_on)
          (record w { visiting = name ∷ w.visiting; path = w.path ++ name ∷ [] })
    ok (record {
      visited = name ∷ w'.visited;
      visiting = discard name w'.visiting;
      path = pop_last w'.path;
    })
]

-- The calls nest at most as deep as there are services, and once more to find a cycle.
unfoldable pub visit : Services → ℕ → String → Walk → Result Walk
unfolding enter member from_index
visit services zero name w = err too_deep
visit services (suc depth) name w =
    if member name w.visiting
    then err (circular (from_index name w.path ++ name ∷ []))
    else if member name w.visited
    then ok w
    else enter services (visit services depth) name w

unfoldable pub validate_depends_on : Services → Result Services
unfolding check_known visit
validate_depends_on services = do
  check_known services services
  w ← for_each (visit services (suc (length services))) (keys services) start
  ok services
