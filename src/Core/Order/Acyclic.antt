-- ===== src/Core/Order/Acyclic.antt =====
-- Lists with every service behind its dependencies, and services that depend on themselves.
use dockfleet.Prelude.{
  String, ◌≡◌, refl, eq_iff, true, false, List, [], ◌∷◌, inl, inr, keys, member, arith,
  if◌then◌else◌, Bool-cases, ◌==◌,
}
use dockfleet.Core.Order.{Services, deps_of}
use dockfleet.Core.Order.Sound.{Placed, member_of_All}
use dockfleet.Core.Order.Cycles.{Depends, direct, over, known_of_dep, member-deps_of}

module _ (services : Services) where
  -- What stands behind the first `x` of a list.
  pub behind : String → List String → List String
  behind x [] = []
  behind x (y ∷ l) = let rest = behind x l in if y == x then l else rest

  member-behind :
      (x z : String) (l : List String) → member z (behind x l) ≡ true → member z l ≡ true
  unfolding behind member
  member-behind x z [] h = cc
  member-behind x z (y ∷ l) h = ground (arith, member-behind x z l)

  dep_behind :
      (l : List String) (x dep : String)
      → Placed services l
      → member x l ≡ true
      → member dep (deps_of services x) ≡ true
      → member dep (behind x l) ≡ true
  unfolding behind member
  dep_behind [] x dep p m h = cc
  dep_behind (y ∷ l) x dep p m h = elim (Bool-cases (y == x)) [
    | inl here ↦
        let h' : member dep (deps_of services y) ≡ true = rw ((eq_iff y x).0 here) h in
        rw here (member_of_All dep (deps_of services y) l p.1 h')
    | inr there ↦ rw there (dep_behind l x dep p.2 (ground arith) h)
  ]

  behind-behind :
      (l : List String) (x y z : String)
      → Placed services l
      → member y (behind x l) ≡ true
      → member z (behind y l) ≡ true
      → member z (behind x l) ≡ true
  unfolding behind member
  behind-behind [] x y z p m h = cc
  behind-behind (k ∷ l) x y z p m h =
      ground (
        arith,
        behind-behind l x y z p.2,
        member-behind x y l,
        member-behind y z l,
        eq_iff k y,
        p.0,
      )

  pub not_behind_self :
      (l : List String) (x : String) → Placed services l → member x (behind x l) ≡ false
  unfolding behind member
  not_behind_self [] x p = refl
  not_behind_self (y ∷ l) x p = ground (arith, p.0, eq_iff y x, not_behind_self l x p.2)

  pub Depends-behind :
      {x y : String} (l : List String)
      → Placed services l
      → ((k : String) → member k (keys services) ≡ true → member k l ≡ true)
      → member x (keys services) ≡ true
      → Depends services x y
      → member y (behind x l) ≡ true
  Depends-behind {x} {y} l p all m (direct h) = dep_behind l x y p (all x m) h
  Depends-behind {x} {y} l p all m (over {b = b} h d) =
      behind-behind l x b y p (dep_behind l x b p (all x m) h)
        (Depends-behind l p all (member-deps_of services x b h) d)

  pub known_of_Depends : {x y : String} → Depends services x y → member x (keys services) ≡ true
  known_of_Depends {x} (direct {b = b} h) = known_of_dep services x b h
  known_of_Depends {x} (over {b = b} h d) = known_of_dep services x b h
