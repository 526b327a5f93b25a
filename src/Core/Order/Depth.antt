-- ===== src/Core/Order/Depth.antt =====
-- How deep the walk over the dependencies can go.
use dockfleet.Prelude.{
  ℕ, suc, ◌≤◌, ◌<◌, String, ◌≡◌, refl, ap, eq_iff, true, false, List, [], ◌∷◌, keys, member, length,
  arith, if◌then◌else◌,
}
use dockfleet.Core.Order.{Services}

-- The keys that are not being visited: how much deeper the walk can go.
unfoldable pub outstanding : List String → List String → ℕ
outstanding [] visiting = 0
outstanding (k ∷ names) visiting =
    let rest = outstanding names visiting in if member k visiting then rest else suc rest

outstanding-le :
    (names : List String) (x : String) (visiting : List String)
    → outstanding names (x ∷ visiting) ≤ outstanding names visiting
unfolding outstanding member
outstanding-le [] x visiting = omega arith
outstanding-le (k ∷ names) x visiting = ground (arith, outstanding-le names x visiting)

pub outstanding-lt :
    (names : List String) (x : String) (visiting : List String)
    → member x names ≡ true
    → member x visiting ≡ false
    → outstanding names (x ∷ visiting) < outstanding names visiting
unfolding outstanding member
outstanding-lt [] x visiting h new = cc
outstanding-lt (k ∷ names) x visiting h new = ground (
  arith,
  eq_iff k x,
  eq_iff x k,
  outstanding-le names x visiting,
  outstanding-lt names x visiting,
)

pub outstanding-le-length :
    (names visiting : List String) → outstanding names visiting ≤ length names
unfolding outstanding
outstanding-le-length [] visiting = omega arith
outstanding-le-length (k ∷ names) visiting = ground (arith, outstanding-le-length names visiting)

pub length-keys : (services : Services) → length (keys services) ≡ length services
unfolding keys
length-keys [] = refl
length-keys ((k, v) ∷ rest) = ap suc (length-keys rest)
